-- ===== src/Session/Ttl.antt =====
-- The sweeps of internal/session/ttl.go. `clock` is the server's time.Now, `now` the database's
-- now(); `created_at < cutoff` with cutoff = clock - SessionTTL is written without the subtraction.
use payment_engine_v.Base.{
  ℕ, ◌+◌, Bool, true, false, not, Option, none, some, List, [], ◌∷◌, ◌==◌, ◌&&◌, ◌||◌, ltb,
  update_returning,
}
use payment_engine_v.Db.{Action, Result, ok, Exit, commit, pure, query, transaction, ◌>>=◌, ◌>>◌}
use payment_engine_v.Session.Tables.{
  screening, compliance_hold, pending, expired, rejected, settled, same_status, Instructions,
  Session, SessionEvent, HoldCase, Tables, session_ttl,
}
use payment_engine_v.Session.Cas.{SessionError, database_failed, begin_failed, commit_failed}
use payment_engine_v.Session.Create.{publish}

abbrev pub is_past : Option ℕ → ℕ → Bool
is_past none now = false
is_past (some t) now = ltb t now

-- deposit_instructions->>'expires_at'
abbrev pub quote_expiry : Option Instructions → Option ℕ
quote_expiry none = none
quote_expiry (some i) = i.expires_at

-- status IN ('screening', 'pending') AND (created_at < $1 OR … < now())
abbrev pub is_stale : ℕ → ℕ → Session → Bool
is_stale clock now x =
    (same_status x.status screening || same_status x.status pending)
    && (ltb (x.created_at + session_ttl) clock || is_past (quote_expiry x.deposit_instructions) now)

abbrev pub expire : ℕ → Session → Session
expire now x = record x { status = expired; updated_at = now }

-- `expirePreDeposit`
unfoldable pub expire_pre_deposit : ℕ → ℕ → Action SessionError Tables Unit
expire_pre_deposit clock now = query database_failed (λ s. (
  ok tt,
  record s { sessions = (update_returning (is_stale clock now) (expire now) s.sessions).1 },
))

-- The join with compliance_cases: a case of the session whose hold has run out.
abbrev pub has_past_case : Option ℕ → ℕ → List HoldCase → Bool
has_past_case none now rows = false
has_past_case (some c) now [] = false
has_past_case (some c) now (k ∷ rows) =
    (k.id == c && is_past k.hold_expires_at now) || has_past_case (some c) now rows

abbrev pub is_timed_out : List HoldCase → ℕ → Session → Bool
is_timed_out cases now x =
    same_status x.status compliance_hold && has_past_case x.compliance_case_id now cases

-- `expireTimedOutHolds`
unfoldable pub expire_timed_out_holds : ℕ → Action SessionError Tables Unit
expire_timed_out_holds now = query database_failed (λ s. (
  ok tt,
  record s { sessions = (update_returning (is_timed_out s.cases now) (expire now) s.sessions).1 },
))

abbrev pub is_unset : Option ℕ → Bool
is_unset none = true
is_unset (some _) = false

-- sla_breached_at IS NULL AND status NOT IN ('settled', 'expired', 'rejected') AND created_at < $1
abbrev pub is_breaching : ℕ → Session → Bool
is_breaching clock x =
    is_unset x.sla_breached_at
    && not (
        same_status x.status settled
        || same_status x.status expired
        || same_status x.status rejected)
    && ltb (x.created_at + session_ttl) clock

unfoldable pub mark_rows : ℕ → ℕ → Tables → Result SessionError (List Session) × Tables
mark_rows clock now s =
    let (rows, table) =
      update_returning (is_breaching clock) (λ x. record x { sla_breached_at = some now })
        s.sessions in
    (ok rows, record s { sessions = table })

unfoldable pub publish_breaches : Bool → List Session → Action SessionError Tables Unit
publish_breaches bus [] = pure tt
publish_breaches bus (x ∷ rows) = do
  publish bus (record { aggregate_id = x.id; event = SessionEvent.sla_breached x.tenant_id })
  publish_breaches bus rows

unfoldable pub mark_body : Bool → ℕ → ℕ → Action SessionError Tables (Exit Unit)
mark_body bus clock now = do
  rows ← query database_failed (mark_rows clock now)
  publish_breaches bus rows
  pure (commit tt)

-- `markSLABreaches`
unfoldable pub mark_sla_breaches : Bool → ℕ → ℕ → Action SessionError Tables Unit
mark_sla_breaches bus clock now = transaction begin_failed commit_failed (mark_body bus clock now)

-- `sweepOnce` of the TTL job.
unfoldable pub sweep_once : Bool → ℕ → ℕ → Action SessionError Tables Unit
sweep_once bus clock now = do
  expire_pre_deposit clock now
  expire_timed_out_holds now
  mark_sla_breaches bus clock now
