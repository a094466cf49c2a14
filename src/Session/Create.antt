-- ===== src/Session/Create.antt =====
-- `CreateSession`, `ResolveComplianceHold`, `GetSession` and `transitionToPending`
-- (internal/session/session.go).
use payment_engine_v.Base.{
  stored, ◌&&◌, update_returning, ℕ, ◌+◌, ℤ, Bool, true, false, not, String, Option, none, some,
  List, [], ◌∷◌, ◌==◌, ◌||◌, ltb, str_eq, if◌then◌else◌, head_row,
}
use payment_engine_v.Db.{
  Action, Result, ok, err, Exit, commit, pure, fail, query, transaction, ◌>>=◌, ◌>>◌,
}
use payment_engine_v.Session.Tables.{
  CaseStatus, hold, refused_case, approved, unexpected, HoldCase, Status, screening,
  compliance_hold, pending, same_status, Instructions, Session, SessionEvent, Published, Tables,
  session_ttl,
}
use payment_engine_v.Session.Services.{
  Corridor, Found, found, not_found, lookup_failed, Lock, Reply, Services,
}
use payment_engine_v.Session.Cas.{
  SessionError, session_not_found, corridor_not_supported, not_entitled, invalid_destination,
  not_in_compliance_hold, unexpected_compliance_status, transition_failed, database_failed,
  begin_failed, commit_failed, publish_failed, corridor_failed, entitlement_failed,
  providers_failed, screen_failed, lock_failed, instructions_failed, resolve_failed, is_at, scanned,
  update_session, transition_to_hold, transition_to_rejected,
}

-- `if err != nil { return nil, fmt.Errorf(…, err) }` after a call of another module.
unfoldable pub expect : {A : Type 0} → SessionError → Reply A → Action SessionError Tables A
expect e (ok a) = pure a
expect e (err _) = fail e

unfoldable pub require : Bool → SessionError → Action SessionError Tables Unit
require true e = pure tt
require false e = fail e

unfoldable pub expect_corridor : Found → Action SessionError Tables Corridor
expect_corridor (found c) = pure c
expect_corridor not_found = fail corridor_not_supported
expect_corridor lookup_failed = fail corridor_failed

abbrev pub find_session : ℕ → List Session → Option Session
find_session id [] = none
find_session id (x ∷ rows) = if x.id == id then some x else find_session id rows

unfoldable pub get_session : ℕ → Action SessionError Tables Session
get_session id =
    query database_failed (λ s. (scanned session_not_found (find_session id s.sessions), s))

-- Decimal places of the amount that is asked for.
unfoldable pub precision : String → ℕ
precision asset = if str_eq asset "USDT" || str_eq asset "USDC" then 6 else 8

-- `lock.FiatToCrypto(amount).RoundUp(precision)` (internal/rate/rate.go)
unfoldable pub crypto_amount : Services → Lock → String → ℤ → ℤ
crypto_amount svc lock asset fiat =
    svc.round_up (precision asset) (svc.div (svc.div fiat lock.rate) lock.asset_price_usd)

-- The earlier of the session's own deadline and the rate lock's.
unfoldable pub quote_deadline : ℕ → ℕ → ℕ
quote_deadline created_at lock_expires =
    if ltb lock_expires (created_at + session_ttl) then lock_expires else created_at + session_ttl

-- `if instructions.ExpiresAt == nil || expires.Before(*instructions.ExpiresAt)`
unfoldable pub tightened : ℕ → Option ℕ → ℕ
tightened expires none = expires
tightened expires (some own) = if ltb expires own then expires else own

-- The provider's instructions, with the amount and the deadline filled in.
unfoldable pub completed : Services → ℕ → Lock → ℤ → Instructions → Instructions
completed svc created_at lock amount i = record i {
  amount = if str_eq i.amount "" then svc.decimal_text amount else i.amount;
  expires_at = some (tightened (quote_deadline created_at lock.expires_at) i.expires_at);
}

-- `if s.bus != nil { … Publish … }`
unfoldable pub publish : Bool → Published → Action SessionError Tables Unit
publish false e = pure tt
publish true e = query publish_failed (λ s. (ok tt, record s { outbox = e ∷ s.outbox }))

unfoldable pub pending_body :
    Bool
    → ℕ
    → ℕ
    → Corridor
    → Status
    → Lock
    → Instructions
    → ℕ
    → Action SessionError Tables (Exit Session)
pending_body bus id tenant_id corr from lock instructions now = do
  x ← query transition_failed (
      update_session transition_failed (is_at id from) (λ x. record x {
        status = pending;
        rate_lock_id = some lock.id;
        deposit_reservation_id = some instructions.reservation_id;
        deposit_instructions = some instructions;
        updated_at = now;
      }))
  publish bus (record { aggregate_id = id; event = SessionEvent.created tenant_id corr.id })
  pure (commit x)

-- `transitionToPending`
unfoldable pub transition_to_pending :
    Services → Bool → ℕ → ℕ → Corridor → Status → ℕ → Action SessionError Tables Session
transition_to_pending svc bus id tenant_id corr from now = do
  current ← get_session id
  lock ← expect lock_failed (svc.lock_rate corr.crypto_asset corr.fiat_currency)
  let amount = crypto_amount svc lock corr.crypto_asset current.fiat_amount
  instructions ← expect instructions_failed (svc.get_deposit_instructions tenant_id corr.id amount)
  transaction begin_failed commit_failed (
      pending_body bus id tenant_id corr from lock
        (completed svc current.created_at lock amount instructions) now)

-- What `CreateSession` is asked for.
pub record Request : Type 0 where
  pub tenant_id : ℕ
  pub crypto_asset : String
  pub crypto_network : String
  pub fiat_currency : String
  pub fiat_amount : ℤ
  pub payout_destination : Option String

abbrev pub or_empty_object : Option String → String
or_empty_object none = "{}"
or_empty_object (some d) = d

abbrev pub new_session : ℕ → Request → ℕ → ℕ → Session
new_session id r corridor_id now = record {
  deposit_instructions = none;
  id = id;
  tenant_id = r.tenant_id;
  corridor_id = corridor_id;
  status = screening;
  fiat_currency = r.fiat_currency;
  fiat_amount = stored r.fiat_amount;
  crypto_asset = r.crypto_asset;
  crypto_network = r.crypto_network;
  compliance_case_id = none;
  rate_lock_id = none;
  deposit_reservation_id = none;
  sla_breached_at = none;
  payout_destination = or_empty_object r.payout_destination;
  created_at = now;
  updated_at = now;
}

unfoldable pub insert_session : Session → Tables → Result SessionError Session × Tables
insert_session x s = (ok x, record s { sessions = x ∷ s.sessions })

-- The highest-priority compliance provider, or no name.
abbrev pub first_name : List String → String
first_name [] = ""
first_name (n ∷ ns) = n

-- The switch on the screening's decision, in the case `case_id`.
unfoldable pub decide_session :
    Services → Bool → ℕ → ℕ → Corridor → ℕ → ℕ → CaseStatus → Action SessionError Tables Session
decide_session svc bus id tenant_id corr case_id now hold = transition_to_hold id case_id now
decide_session svc bus id tenant_id corr case_id now refused_case =
    transition_to_rejected id screening now
decide_session svc bus id tenant_id corr case_id now approved =
    transition_to_pending svc bus id tenant_id corr screening now
decide_session svc bus id tenant_id corr case_id now unexpected = fail unexpected_compliance_status

-- The lookups and checks of `CreateSession` that come before the session's row is written.
unfoldable pub admit : Services → Request → Action SessionError Tables Corridor
admit svc r = do
  corr ← expect_corridor (svc.get_corridor r.crypto_asset r.crypto_network r.fiat_currency)
  require (svc.is_valid_destination corr r.payout_destination) invalid_destination
  entitled ← expect entitlement_failed (svc.check_entitlement r.tenant_id corr.id)
  require entitled not_entitled
  pure corr

-- `CreateSession`; the database draws `new_id`.
unfoldable pub create_session :
    Services → Bool → ℕ → Request → ℕ → Action SessionError Tables Session
create_session svc bus new_id r now = do
  corr ← admit svc r
  x ← query database_failed (insert_session (new_session new_id r corr.id now))
  providers ← expect providers_failed (svc.list_compliance_providers corr.id)
  c ←
      expect screen_failed
        (svc.screen_session corr x.id r.tenant_id r.fiat_amount (first_name providers))
  decide_session svc bus x.id r.tenant_id corr c.id now c.status

abbrev pub is_hold : CaseStatus → Bool
is_hold hold = true
is_hold _ = false

abbrev pub found_case : Option HoldCase → Result SessionError Unit
found_case none = err resolve_failed
found_case (some _) = ok tt

-- `compliance.ResolveHold` (internal/compliance/compliance.go): a compare-and-set on a case that is
-- on hold.
abbrev pub is_held : ℕ → HoldCase → Bool
is_held case_id c = c.id == case_id && is_hold c.status

unfoldable pub resolve_case : ℕ → Bool → Tables → Result SessionError Unit × Tables
resolve_case case_id is_approved s =
    let (rows, cases') =
      update_returning (is_held case_id)
        (λ c. record c { status = if is_approved then approved else refused_case }) s.cases in
    (found_case (head_row rows), record s { cases = cases' })

-- `sess.Status != StatusComplianceHold || sess.ComplianceCaseID == nil`
abbrev pub held_case : Session → Option ℕ
held_case x = if same_status x.status compliance_hold then x.compliance_case_id else none

unfoldable pub expect_case : Option ℕ → Action SessionError Tables ℕ
expect_case none = fail not_in_compliance_hold
expect_case (some c) = pure c

unfoldable pub approve_hold : Services → Bool → ℕ → Session → ℕ → Action SessionError Tables Session
approve_hold svc bus id x now = do
  corr ← expect corridor_failed (svc.get_corridor_by_id x.corridor_id)
  transition_to_pending svc bus id x.tenant_id corr compliance_hold now

-- `ResolveComplianceHold`
unfoldable pub resolve_compliance_hold :
    Services → Bool → ℕ → Bool → ℕ → Action SessionError Tables Session
resolve_compliance_hold svc bus id is_approved now = do
  x ← get_session id
  case_id ← expect_case (held_case x)
  query resolve_failed (resolve_case case_id is_approved)
  if not is_approved
      then transition_to_rejected id compliance_hold now
      else approve_hold svc bus id x now
