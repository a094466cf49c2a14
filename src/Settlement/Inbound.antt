-- ===== src/Settlement/Inbound.antt =====
-- The worker's tick with the sandbox's confirmations (internal/settlement/dispatch.go, `Run`;
-- sandbox_provider.go), and a press of a Telegram button (manual.go).
use payment_engine_v.Base.{
  ℕ, String, str_eq, Bool, true, false, not, ◌&&◌, Option, none, some, List, [], ◌∷◌, if◌then◌else◌,
}
use payment_engine_v.Db.{Answer, Result, ok, err, Action, pure, fail, query, ◌>>=◌, ◌>>◌}
use payment_engine_v.Settlement.Tables.{Settlement, Attempt, Tables}
use payment_engine_v.Settlement.Services.{Services, Press}
use payment_engine_v.Settlement.Calls.{
  SettlementError, not_found, not_awaiting_manual_payout, telegram_disabled,
  invalid_telegram_secret, database_failed, try, reply, require,
}
use payment_engine_v.Settlement.Attempts.{is_dispatched}
use payment_engine_v.Settlement.Process.{dispatch_batch}
use payment_engine_v.Settlement.Webhook.{handle_payout_succeeded, is_registered, manual_settle}

-- SandboxProviderName
abbrev sandbox_provider_name : String
sandbox_provider_name = "sandbox"

abbrev due_dispatches : List Attempt → List Attempt
due_dispatches [] = []
due_dispatches (a ∷ rows) =
    let rest = due_dispatches rows in
    if str_eq a.provider_name sandbox_provider_name && is_dispatched a.status
    then a ∷ rest
    else rest

unfoldable pub confirm_each : Services → ℕ → List Attempt → Action SettlementError Tables Unit
confirm_each svc now [] = pure tt
confirm_each svc now (a ∷ rows) = do handle_payout_succeeded svc now a; confirm_each svc now rows

-- `confirmSandboxDispatches`
unfoldable pub confirm_sandbox_dispatches : Services → ℕ → Action SettlementError Tables Unit
confirm_sandbox_dispatches svc now = do
  due ← query database_failed (λ s. (ok (due_dispatches s.attempts), s))
  confirm_each svc now due

abbrev pub confirm_after : Services → ℕ → Bool → Tables × List Answer → Tables
confirm_after svc now false (s, answers) = s
confirm_after svc now true (s, answers) = (confirm_sandbox_dispatches svc now s answers).1

-- One tick of the worker's `Run`; errors are logged.
unfoldable pub dispatch_tick : Services → ℕ → ℕ → ℕ → Tables → List Answer → Tables
dispatch_tick svc now fuel rounds s answers =
    confirm_after svc now (is_registered svc sandbox_provider_name)
      (dispatch_batch svc now fuel rounds s answers)

-- What the presser is told is no error.
unfoldable pub answer_press : Result SettlementError Settlement → Action SettlementError Tables Unit
answer_press (ok st) = pure tt
answer_press (err not_found) = pure tt
answer_press (err not_awaiting_manual_payout) = pure tt
answer_press (err e) = fail e

unfoldable pub settle_pressed :
    Services → ℕ → String → Option ℕ → Action SettlementError Tables Unit
settle_pressed svc now by none = pure tt
settle_pressed svc now by (some id) = do
  settled ← try (manual_settle svc now id by)
  answer_press settled

abbrev is_chat : String → Option String → Bool
is_chat chat none = false
is_chat chat (some c) = str_eq c chat

unfoldable pub take_press : Services → ℕ → Option Press → Action SettlementError Tables Unit
take_press svc now none = pure tt
take_press svc now (some p) =
    if is_chat svc.telegram_chat p.chat
    then settle_pressed svc now p.by (svc.settle_target p.button)
    else pure tt

-- `HandleTelegramUpdate`
unfoldable pub handle_telegram_update :
    Services → ℕ → String → String → Action SettlementError Tables Unit
handle_telegram_update svc now secret body = do
  require (svc.telegram && not (str_eq svc.telegram_secret "")) telegram_disabled
  require (str_eq secret svc.telegram_secret) invalid_telegram_secret
  press ← reply (svc.parse_update body)
  take_press svc now press
