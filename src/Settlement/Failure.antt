-- ===== src/Settlement/Failure.antt =====
-- What becomes of a failed attempt (internal/settlement/dispatch.go: `handleAttemptFailure`,
-- `failSettlement`; manual.go: `handToManualPayout`). `redispatch` is the next attempt.
use payment_engine_v.Base.{
  ℕ, leb, String, Bool, true, false, ◌||◌, Option, none, some, if◌then◌else◌,
}
use payment_engine_v.Db.{Result, ok, err, Action, pure, ◌>>=◌, ◌>>◌}
use payment_engine_v.Session.Cas.{transition_to_settlement_failed}
use payment_engine_v.Settlement.Tables.{
  Settlement, Attempt, AttemptStatus, settling, settlement_failed, awaiting_manual_payout, Tables,
}
use payment_engine_v.Settlement.Services.{Services}
use payment_engine_v.Settlement.Calls.{
  SettlementError, session_call, try, resolve_accounts, post_once, get_settlement, release_for,
}
use payment_engine_v.Settlement.Transition.{any_row, transition_and_publish, set_paged}
use payment_engine_v.Settlement.Attempts.{
  mark_attempt, tried_provider_names, resolve_destination, reversal_key, reversal_txn,
}

-- MaxAutoRetryAttempts
abbrev pub max_auto_retry_attempts : ℕ
max_auto_retry_attempts = 3

unfoldable pub park :
    Services → ℕ → Settlement → Result Unit Unit → Action SettlementError Tables Bool
park svc now st (err _) = pure false
park svc now st (ok _) = do
  transition_and_publish svc now st settling awaiting_manual_payout
      "settlement.awaiting_manual_payout" (set_paged st.id now)
  pure true

unfoldable pub ask_by_hand :
    Services → ℕ → Settlement → String → Option String → Action SettlementError Tables Bool
ask_by_hand svc now st reason none = pure false
ask_by_hand svc now st reason (some account) = park svc now st (svc.send_message st account reason)

unfoldable pub hand_over :
    Services
    → ℕ
    → Settlement
    → String
    → Result SettlementError (Option String)
    → Action SettlementError Tables Bool
hand_over svc now st reason (err _) = pure false
hand_over svc now st reason (ok raw) = ask_by_hand svc now st reason (svc.bank_account raw)

-- `handToManualPayout`
unfoldable pub hand_to_manual_payout :
    Services → ℕ → Settlement → String → Action SettlementError Tables Bool
hand_to_manual_payout svc now st reason = do
  raw ← try (resolve_destination st)
  hand_over svc now st reason raw

unfoldable pub close_session : ℕ → Settlement → Bool → Action SettlementError Tables Unit
close_session now st false = pure tt
close_session now st true = do
  session_call (transition_to_settlement_failed st.session_id now)
  release_for st.session_id

unfoldable pub fail_unhandled :
    Services → ℕ → Settlement → Bool → Action SettlementError Tables Unit
fail_unhandled svc now st true = pure tt
fail_unhandled svc now st false = do
  moved ←
      transition_and_publish svc now st settling settlement_failed "settlement.failed"
        (set_paged st.id now)
  close_session now st moved

-- `failSettlement`
unfoldable pub fail_settlement :
    Services → ℕ → Settlement → String → Action SettlementError Tables Unit
fail_settlement svc now st reason = do
  handled ← if svc.telegram then hand_to_manual_payout svc now st reason else pure false
  fail_unhandled svc now st handled

unfoldable pub retry_or_fail :
    Services
    → ℕ
    → (Settlement → Action SettlementError Tables Unit)
    → Settlement
    → String
    → Bool
    → Action SettlementError Tables Unit
retry_or_fail svc now redispatch st reason true = fail_settlement svc now st reason
-- the names decide only whether the retry waits
retry_or_fail svc now redispatch st reason false = do tried_provider_names st.id; redispatch st

unfoldable pub compensate :
    Services
    → ℕ
    → (Settlement → Action SettlementError Tables Unit)
    → Attempt
    → String
    → Bool
    → Bool
    → Action SettlementError Tables Unit
compensate svc now redispatch attempt reason terminal false = pure tt
compensate svc now redispatch attempt reason terminal true = do
  st ← get_settlement attempt.settlement_id
  accounts ← resolve_accounts st.tenant_id st.crypto_asset st.fiat_currency
  post_once (
      reversal_txn accounts st (reversal_key svc st.session_id attempt.attempt_number) "session"
        st.session_id)
  retry_or_fail svc now redispatch st reason
      (terminal || leb max_auto_retry_attempts attempt.attempt_number)

-- `handleAttemptFailure`
unfoldable pub handle_attempt_failure :
    Services
    → ℕ
    → (Settlement → Action SettlementError Tables Unit)
    → Attempt
    → AttemptStatus
    → String
    → Bool
    → Action SettlementError Tables Unit
handle_attempt_failure svc now redispatch attempt bucket reason terminal = do
  hit ← mark_attempt attempt.id bucket reason now
  compensate svc now redispatch attempt reason terminal (any_row hit)
