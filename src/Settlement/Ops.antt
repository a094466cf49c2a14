-- ===== src/Settlement/Ops.antt =====
-- What operators do with a payout (internal/settlement/ops.go), and the sweep that pages them
-- (timeout_job.go).
use payment_engine_v.Base.{
  ℕ, ◌+◌, ltb, ℤ, String, str_append, Bool, true, false, ◌&&◌, ◌||◌, Option, none, some, List, [],
  ◌∷◌, ◌==◌, if◌then◌else◌, update_returning,
}
use payment_engine_v.Db.{ok, Action, pure, fail, query, ◌>>=◌, ◌>>◌}
use payment_engine_v.Ledger.Accounts.{Key}
use payment_engine_v.Session.Cas.{retry_to_settling, transition_to_reversal_resolved}
use payment_engine_v.Session.Tables.{
  settling as session_settling, settlement_failed as session_failed_status, Status as SessionStatus,
}
use payment_engine_v.Settlement.Tables.{
  equal_status, Status, Settlement, Attempt, failed_bucket3, settling, settlement_failed,
  awaiting_manual_payout, pending_dispatch, reversed, reversal_resolved, Reversal, CaseState,
  unresolved, resolved, Tables,
}
use payment_engine_v.Settlement.Services.{Services}
use payment_engine_v.Settlement.Calls.{
  SettlementError, database_failed, not_retryable, reversal_not_found, reversal_already_resolved,
  session_call, require, post_once, Accounts, resolve_accounts, account, two_entries,
  get_settlement, found_row,
}
use payment_engine_v.Settlement.Transition.{any_row, is_in, update_settlement}
use payment_engine_v.Settlement.Attempts.{
  update_attempts, is_dispatched, reversal_key, reversal_txn, key_of,
}
use payment_engine_v.Settlement.Dispatch.{confirmation_timeout}

-- Where the settlement and its session are, if the payout can be retried.
pub record Origin : Type 0 where
  pub from : Status
  pub session_from : SessionStatus

abbrev is_set : Option ℕ → Bool
is_set none = false
is_set (some _) = true

unfoldable pub origin_of : Status → Bool → Option Origin
origin_of settlement_failed confirmed =
    some (record { from = settlement_failed; session_from = session_failed_status })
origin_of awaiting_manual_payout confirmed =
    some (record { from = awaiting_manual_payout; session_from = session_settling })
origin_of settling confirmed =
    if confirmed then some (record { from = settling; session_from = session_settling }) else none
origin_of _ confirmed = none

abbrev with_note : Option String → String → Option String
with_note none note = some note
with_note (some r) note = some (str_append r (str_append "; " note))

unfoldable pub reverse_attempts :
    Services → Settlement → Accounts → List Attempt → Action SettlementError Tables Unit
reverse_attempts svc st accounts [] = pure tt
reverse_attempts svc st accounts (a ∷ rows) = do
  post_once (
      reversal_txn accounts st (reversal_key svc st.session_id a.attempt_number) "session"
        st.session_id)
  reverse_attempts svc st accounts rows

unfoldable pub reverse_all :
    Services → Settlement → List Attempt → Action SettlementError Tables Unit
reverse_all svc st [] = pure tt
reverse_all svc st (a ∷ rows) = do
  accounts ← resolve_accounts st.tenant_id st.crypto_asset st.fiat_currency
  reverse_attempts svc st accounts (a ∷ rows)

-- `resolveConfirmedFailedAttempts`
unfoldable pub resolve_confirmed_failed_attempts :
    Services → ℕ → Settlement → ℕ → Action SettlementError Tables Unit
resolve_confirmed_failed_attempts svc now st admin = do
  rows ← query database_failed (
      update_attempts (λ a. a.settlement_id == st.id && is_dispatched a.status)
        (λ a. record a {
          status = failed_bucket3;
          resolved_at = some now;
          failure_reason =
              with_note a.failure_reason
                (str_append "confirmed failed by admin " (svc.id_text admin));
        }))
  reverse_all svc st rows

unfoldable pub close_attempts :
    Services → ℕ → Settlement → ℕ → Status → Action SettlementError Tables Unit
close_attempts svc now st admin settling = resolve_confirmed_failed_attempts svc now st admin
close_attempts svc now st admin _ = pure tt

unfoldable pub requeue :
    Services
    → ℕ
    → Settlement
    → ℕ
    → Option String
    → Option Origin
    → Action SettlementError Tables Settlement
requeue svc now st admin destination none = fail not_retryable
requeue svc now st admin destination (some o) = do
  close_attempts svc now st admin o.from
  moved ← query database_failed (
      update_settlement (is_in st.id o.from) (λ x. record x {
        status = pending_dispatch;
        ops_paged_at = none;
        pending_destination = destination;
        updated_at = now;
      }))
  require moved not_retryable
  session_call (retry_to_settling st.session_id o.session_from now)
  get_settlement st.id

-- `RetryPayout`; a nil destination is `none`.
unfoldable pub retry_payout :
    Services → ℕ → ℕ → ℕ → Option String → Bool → Action SettlementError Tables Settlement
retry_payout svc now settlement_id admin destination confirmed_failed = do
  st ← get_settlement settlement_id
  requeue svc now st admin destination
      (origin_of st.status (is_set st.ops_paged_at && confirmed_failed))

-- `AccountRef`
pub record AccountRef : Type 0 where
  pub key : Key
  pub unit_type : String
  pub name : String

abbrev find_reversal : ℕ → List Reversal → Option Reversal
find_reversal id [] = none
find_reversal id (r ∷ rows) = if r.id == id then some r else find_reversal id rows

abbrev is_unresolved : CaseState → Bool
is_unresolved unresolved = true
is_unresolved resolved = false

unfoldable pub close_reversal : ℕ → Action SettlementError Tables Bool
close_reversal id = query database_failed (λ s.
    let (rows, table) =
      update_returning (λ r. r.id == id && is_unresolved r.status)
        (λ r. record r { status = resolved }) s.reversals in
    (ok (any_row rows), record s { reversals = table }))

-- `ResolveReversal`; who resolved the case and the note are left out.
unfoldable pub resolve_reversal :
    Services → ℕ → ℕ → AccountRef → AccountRef → ℤ → Action SettlementError Tables Unit
resolve_reversal svc now id debit_ref credit_ref amount = do
  r ← query database_failed (λ s. (found_row reversal_not_found (find_reversal id s.reversals), s))
  require (is_unresolved r.status) reversal_already_resolved
  debit_id ← account debit_ref.key debit_ref.unit_type debit_ref.name
  credit_id ← account credit_ref.key credit_ref.unit_type credit_ref.name
  post_once (record {
    idempotency_key = key_of "manual_adjustment:reversal_" svc id;
    txn_type = "manual_adjustment";
    reference_type = "settlement_reversal";
    reference_id = id;
    created_by = "settlement";
    entries =
        two_entries debit_id debit_ref.key.asset_code credit_id credit_ref.key.asset_code amount;
  })
  closed ← close_reversal id
  require closed reversal_already_resolved
  query database_failed (
      update_settlement (is_in r.settlement_id reversed)
        (λ x. record x { status = reversal_resolved; updated_at = now }))
  session_call (transition_to_reversal_resolved r.session_id now)
  pure tt

abbrev has_overdue : ℕ → ℕ → List Attempt → Bool
has_overdue clock settlement_id [] = false
has_overdue clock settlement_id (a ∷ rows) =
    (a.settlement_id == settlement_id
      && is_dispatched a.status
      && ltb (a.dispatched_at + confirmation_timeout) clock)
    || has_overdue clock settlement_id rows

abbrev is_overdue : ℕ → List Attempt → Settlement → Bool
is_overdue clock attempts x =
    equal_status x.status settling
    && (if is_set x.ops_paged_at then false else true)
    && ltb (x.updated_at + confirmation_timeout) clock
    && has_overdue clock x.id attempts

-- `pageOpsForTimedOutConfirmations`
unfoldable pub page_ops_for_timed_out_confirmations : ℕ → ℕ → Action SettlementError Tables Unit
page_ops_for_timed_out_confirmations clock now = do
  query database_failed (λ s.
      update_settlement (is_overdue clock s.attempts) (λ x. record x { ops_paged_at = some now }) s)
  pure tt
