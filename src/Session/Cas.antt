-- ===== src/Session/Cas.antt =====
-- The compare-and-set transitions of internal/session/session.go: UPDATE … WHERE id = $1 AND
-- status = $2 RETURNING …, in one statement each.
use payment_engine_v.Base.{ℕ, Bool, Option, none, some, ◌==◌, ◌&&◌, update_returning, head_row}
use payment_engine_v.Db.{Action, Result, ok, err, query}
use payment_engine_v.Session.Tables.{
  Status, screening, compliance_hold, rejected, deposit_confirmed, settling, settled,
  settlement_failed, reversed, reversal_resolved, same_status, Session, Tables,
}

pub data SessionError : Type 0 where
  session_not_found corridor_not_supported not_entitled invalid_destination not_in_compliance_hold
        unexpected_compliance_status :
      SessionError
  -- no row met the expected status, or the call to the database failed
  transition_failed : SessionError
  database_failed begin_failed commit_failed publish_failed : SessionError
  corridor_failed entitlement_failed providers_failed screen_failed lock_failed instructions_failed
        resolve_failed :
      SessionError

-- WHERE id = $1 AND status = $2
abbrev pub is_at : ℕ → Status → Session → Bool
is_at id from x = x.id == id && same_status x.status from

-- Scan of the one row that RETURNING yields; no row is an error.
abbrev pub scanned : SessionError → Option Session → Result SessionError Session
scanned e none = err e
scanned e (some x) = ok x

-- An UPDATE of sessions that RETURNING makes a query.
unfoldable pub update_session :
    SessionError
    → (Session → Bool)
    → (Session → Session)
    → Tables
    → Result SessionError Session × Tables
update_session e where' set s =
    let (rows, table) = update_returning where' set s.sessions in
    (scanned e (head_row rows), record s { sessions = table })

-- `casTransition`; `now` is the database's clock.
unfoldable pub cas_transition : ℕ → Status → Status → ℕ → Action SessionError Tables Session
cas_transition id from to now = query transition_failed (
    update_session transition_failed (is_at id from)
      (λ x. record x { status = to; updated_at = now }))

unfoldable pub transition_to_settling : ℕ → ℕ → Action SessionError Tables Session
transition_to_settling id now = cas_transition id deposit_confirmed settling now

unfoldable pub retry_to_settling : ℕ → Status → ℕ → Action SessionError Tables Session
retry_to_settling id from now = cas_transition id from settling now

unfoldable pub transition_to_settled : ℕ → ℕ → Action SessionError Tables Session
transition_to_settled id now = cas_transition id settling settled now

unfoldable pub transition_to_settlement_failed : ℕ → ℕ → Action SessionError Tables Session
transition_to_settlement_failed id now = cas_transition id settling settlement_failed now

unfoldable pub transition_to_reversed : ℕ → ℕ → Action SessionError Tables Session
transition_to_reversed id now = cas_transition id settled reversed now

unfoldable pub transition_to_reversal_resolved : ℕ → ℕ → Action SessionError Tables Session
transition_to_reversal_resolved id now = cas_transition id reversed reversal_resolved now

-- `transitionToHold`
unfoldable pub transition_to_hold : ℕ → ℕ → ℕ → Action SessionError Tables Session
transition_to_hold id case_id now = query transition_failed (
    update_session transition_failed (is_at id screening) (λ x. record x {
      status = compliance_hold;
      compliance_case_id = some case_id;
      updated_at = now;
    }))

-- `transitionToRejected`
unfoldable pub transition_to_rejected : ℕ → Status → ℕ → Action SessionError Tables Session
transition_to_rejected id from now = query transition_failed (
    update_session transition_failed (is_at id from)
      (λ x. record x { status = rejected; updated_at = now }))
