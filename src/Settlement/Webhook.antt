-- ===== src/Settlement/Webhook.antt =====
-- The providers' callbacks (internal/settlement/webhook.go) and the payments by hand (manual.go). A
-- failure can dispatch again: `fuel` bounds those retries.
use payment_engine_v.Base.{
  ◌||◌, ℕ, ◌+◌, String, str_append, str_eq, Bool, true, false, Option, none, some, List, [], ◌∷◌,
  ◌==◌, ◌&&◌, if◌then◌else◌,
}
use payment_engine_v.Db.{ok, Action, pure, fail, query, ◌>>=◌, ◌>>◌}
use payment_engine_v.Session.Cas.{transition_to_settled, transition_to_reversed}
use payment_engine_v.Settlement.Tables.{
  Settlement, Attempt, AttemptStatus, succeeded, failed_bucket2, settling, settled, reversed,
  awaiting_manual_payout, unresolved, Tables, equal_status,
}
use payment_engine_v.Settlement.Services.{
  Services, Provider, WebhookEvent, WebhookKind, ignored, payout_succeeded, payout_failed,
  payout_returned, payout_reversed, payout_declined,
}
use payment_engine_v.Settlement.Calls.{
  SettlementError, database_failed, not_awaiting_manual_payout, unknown_provider, session_call,
  draw_id, reply, require, post_once, resolve_accounts, get_settlement, release_for,
}
use payment_engine_v.Settlement.Transition.{any_row, transition_and_publish, update_settlement}
use payment_engine_v.Settlement.Attempts.{
  mark_succeeded, update_attempts, is_in_flight, find_attempt, insert_attempt, key_of, payout_txn,
  reversal_txn,
}
use payment_engine_v.Settlement.Failure.{handle_attempt_failure}
use payment_engine_v.Settlement.Dispatch.{dispatch_attempt}

-- `completeSessionSettlement`
unfoldable pub complete_session_settlement : ℕ → Settlement → Action SettlementError Tables Unit
complete_session_settlement now st = do
  session_call (transition_to_settled st.session_id now)
  release_for st.session_id

unfoldable pub complete_if : ℕ → Settlement → Bool → Action SettlementError Tables Unit
complete_if now st false = pure tt
complete_if now st true = complete_session_settlement now st

unfoldable pub settle_marked : Services → ℕ → Attempt → Bool → Action SettlementError Tables Unit
settle_marked svc now attempt false = pure tt
settle_marked svc now attempt true = do
  st ← get_settlement attempt.settlement_id
  moved ← transition_and_publish svc now st settling settled "settlement.completed" (pure tt)
  complete_if now st moved

-- `handlePayoutSucceeded`
unfoldable pub handle_payout_succeeded : Services → ℕ → Attempt → Action SettlementError Tables Unit
handle_payout_succeeded svc now attempt = do
  hit ← mark_succeeded attempt.id now
  settle_marked svc now attempt (any_row hit)

unfoldable pub insert_reversal : ℕ → Settlement → String → Action SettlementError Tables Unit
insert_reversal id st reason = query database_failed (λ s. (
  ok tt,
  record s {
    reversals =
        record {
          id = id;
          settlement_id = st.id;
          session_id = st.session_id;
          status = unresolved;
          reason = reason;
        }
        ∷ s.reversals;
  },
))

unfoldable pub reverse_moved : Services → ℕ → Settlement → Bool → Action SettlementError Tables Unit
reverse_moved svc now st false = pure tt
reverse_moved svc now st true = do
  session_call (transition_to_reversed st.session_id now)
  accounts ← resolve_accounts st.tenant_id st.crypto_asset st.fiat_currency
  post_once (
      reversal_txn accounts st (key_of "settlement_reversal:session_" svc st.session_id)
        "settlement" st.id)

-- `handlePayoutReturned`
unfoldable pub handle_payout_returned :
    Services → ℕ → Attempt → String → Action SettlementError Tables Unit
handle_payout_returned svc now attempt reason = do
  st ← get_settlement attempt.settlement_id
  id ← draw_id
  moved ←
      transition_and_publish svc now st settled reversed "settlement.reversed"
        (insert_reversal id st reason)
  reverse_moved svc now st moved

abbrev has_reason : Option String → Bool
has_reason none = false
has_reason (some _) = true

abbrev or_now : Option ℕ → ℕ → Option ℕ
or_now none now = some now
or_now (some t) now = some t

unfoldable pub page_declined : ℕ → Attempt → Bool → Action SettlementError Tables Unit
page_declined now attempt false = pure tt
page_declined now attempt true = do
  query database_failed (
      update_settlement (λ x. x.id == attempt.settlement_id)
        (λ x. record x { ops_paged_at = or_now x.ops_paged_at now }))
  get_settlement attempt.settlement_id
  pure tt

-- `flagDeclinedAttempt`
unfoldable pub flag_declined_attempt : ℕ → Attempt → String → Action SettlementError Tables Unit
flag_declined_attempt now attempt reason = do
  hit ← query database_failed (
      update_attempts
        (λ a. is_in_flight attempt.id a && (if has_reason a.failure_reason then false else true))
        (λ a. record a { failure_reason = some reason }))
  page_declined now attempt (any_row hit)

abbrev is_succeeded : AttemptStatus → Bool
is_succeeded succeeded = true
is_succeeded _ = false

-- The switch on the event's kind.
unfoldable pub apply_event :
    Services → ℕ → ℕ → Attempt → String → WebhookKind → Action SettlementError Tables Unit
apply_event svc now fuel attempt reason ignored = pure tt
apply_event svc now fuel attempt reason payout_succeeded = handle_payout_succeeded svc now attempt
apply_event svc now fuel attempt reason payout_failed =
    handle_attempt_failure svc now (dispatch_attempt svc now fuel) attempt failed_bucket2 reason
      false
apply_event svc now fuel attempt reason payout_returned =
    handle_payout_returned svc now attempt reason
apply_event svc now fuel attempt reason payout_reversed =
    if is_succeeded attempt.status
    then handle_payout_returned svc now attempt reason
    else handle_attempt_failure svc now (dispatch_attempt svc now fuel) attempt failed_bucket2
        reason false
apply_event svc now fuel attempt reason payout_declined = flag_declined_attempt now attempt reason

unfoldable pub take_event :
    Services → ℕ → ℕ → String → WebhookEvent → WebhookKind → Action SettlementError Tables Unit
take_event svc now fuel provider event ignored = pure tt
take_event svc now fuel provider event kind = do
  attempt ← find_attempt provider event.provider_reference
  apply_event svc now fuel attempt event.reason kind

abbrev registered : String → List Provider → Bool
registered name [] = false
registered name (p ∷ ps) = str_eq p.name name || registered name ps

abbrev pub is_registered : Services → String → Bool
is_registered svc name = registered name svc.providers

-- `HandleSettlementWebhook`
unfoldable pub handle_settlement_webhook :
    Services → ℕ → ℕ → String → String → Action SettlementError Tables Unit
handle_settlement_webhook svc now fuel provider callback = do
  require (is_registered svc provider) unknown_provider
  event ← reply (svc.parse_webhook provider callback)
  take_event svc now fuel provider event event.kind

unfoldable pub record_payment :
    Services → ℕ → ℕ → Settlement → String → String → Action SettlementError Tables Unit
record_payment svc now id st key audit = do
  insert_attempt (record {
    id = id;
    settlement_id = st.id;
    attempt_number = st.attempt_count + 1;
    provider_name = "manual";
    idempotency_key = key;
    status = succeeded;
    provider_reference = none;
    failure_reason = none;
    provider_payload = audit;
    dispatched_at = now;
    resolved_at = some now;
  })
  query database_failed (
      update_settlement (λ x. x.id == st.id)
        (λ x. record x { attempt_count = st.attempt_count + 1 }))
  pure tt

unfoldable pub settle_by_hand :
    Services → ℕ → Settlement → String → Bool → Action SettlementError Tables Settlement
settle_by_hand svc now st key false = do get_settlement st.id; fail not_awaiting_manual_payout
settle_by_hand svc now st key true = do
  accounts ← resolve_accounts st.tenant_id st.crypto_asset st.fiat_currency
  post_once (payout_txn accounts st key "settlement:manual")
  complete_session_settlement now st
  get_settlement st.id

-- `ManualSettle`; `audit` is the JSON text of who paid.
unfoldable pub manual_settle : Services → ℕ → ℕ → String → Action SettlementError Tables Settlement
manual_settle svc now settlement_id audit = do
  st ← get_settlement settlement_id
  require (equal_status st.status awaiting_manual_payout) not_awaiting_manual_payout
  id ← draw_id
  let key = str_append (key_of "settlement_payout:session_" svc st.session_id) ":manual"
  moved ←
      transition_and_publish svc now st awaiting_manual_payout settled "settlement.completed"
        (record_payment svc now id st key audit)
  settle_by_hand svc now st key moved
