-- ===== src/Session/Handlers.antt =====
-- The deposit-side handlers (internal/session/events.go). A handler runs inside the dispatcher's
-- transaction, so its statements stand here without one of their own.
use payment_engine_v.Base.{
  ℕ, Bool, false, Option, none, some, ◌==◌, ◌&&◌, ◌||◌, update_returning, head_row,
}
use payment_engine_v.Db.{Action, Result, ok, pure, query, ◌>>=◌}
use payment_engine_v.Session.Tables.{
  Status, pending, deposit_detected, deposit_confirmed, same_status, Session, SessionEvent, Tables,
}
use payment_engine_v.Session.Cas.{SessionError, database_failed}
use payment_engine_v.Session.Create.{publish}

abbrev pub is_reservation : ℕ → Option ℕ → Bool
is_reservation r none = false
is_reservation r (some k) = k == r

-- WHERE deposit_reservation_id = $1 AND (status = $2 OR ($3 = 'deposit_confirmed' AND
-- status = 'pending'))
abbrev pub may_move : ℕ → Status → Status → Session → Bool
may_move reservation_id from to x =
    is_reservation reservation_id x.deposit_reservation_id
    && (same_status x.status from
        || (same_status to deposit_confirmed && same_status x.status pending))

unfoldable pub move_by_reservation :
    ℕ → Status → Status → ℕ → Tables → Result SessionError (Option Session) × Tables
move_by_reservation reservation_id from to now s =
    let (rows, table) =
      update_returning (may_move reservation_id from to)
        (λ x. record x { status = to; updated_at = now }) s.sessions in
    (ok (head_row rows), record s { sessions = table })

-- `event` is built from the reservation and the tenant.
unfoldable pub announce :
    Bool → ℕ → (ℕ → ℕ → SessionEvent) → Option Session → Action SessionError Tables Unit
announce bus reservation_id event none = pure tt
announce bus reservation_id event (some x) =
    publish bus (record { aggregate_id = x.id; event = event reservation_id x.tenant_id })

-- `transitionByReservation`
unfoldable pub transition_by_reservation :
    Bool → ℕ → Status → Status → (ℕ → ℕ → SessionEvent) → ℕ → Action SessionError Tables Unit
transition_by_reservation bus reservation_id from to event now = do
  moved ← query database_failed (move_by_reservation reservation_id from to now)
  announce bus reservation_id event moved

unfoldable pub handle_deposit_detected : Bool → ℕ → ℕ → Action SessionError Tables Unit
handle_deposit_detected bus reservation_id now =
    transition_by_reservation bus reservation_id pending deposit_detected SessionEvent.detected now

unfoldable pub handle_deposit_confirmed : Bool → ℕ → ℕ → Action SessionError Tables Unit
handle_deposit_confirmed bus reservation_id now =
    transition_by_reservation bus reservation_id deposit_detected deposit_confirmed
      SessionEvent.confirmed now
