-- ===== src/Settlement/Dispatch.antt =====
-- The dispatch pipeline (internal/settlement/dispatch.go: `dispatchAttempt`). The retries of one payout are
-- recursion on fuel; `now` is the clock of one call.
use payment_engine_v.Base.{
  ℕ, zero, suc, ◌+◌, ◌*◌, String, str_eq, Bool, true, false, ◌||◌, Option, none, some, List, [],
  ◌∷◌, if◌then◌else◌, head_row,
}
use payment_engine_v.Db.{Result, ok, err, Action, pure, fail, ◌>>=◌, ◌>>◌}
use payment_engine_v.Ledger.Post.{LedgerError, already_posted}
use payment_engine_v.Settlement.Tables.{
  Settlement, Attempt, dispatched, settling, failed_bucket1, failed_bucket4, PayoutRequest, Tables,
}
use payment_engine_v.Settlement.Services.{
  Services, Provider, PayoutResult, Outcome, accepted, rejected_retryable, rejected_terminal,
  uncertain,
}
use payment_engine_v.Settlement.Calls.{
  SettlementError, ledger_failed, out_of_fuel, draw_id, reply, claim, resolve_accounts,
  call_provider,
}
use payment_engine_v.Settlement.Transition.{
  transition_and_publish, set_deadline, set_deadline_and_page, set_attempt_count, clear_destination,
}
use payment_engine_v.Settlement.Attempts.{
  insert_attempt, tried_provider_names, resolve_destination, set_reference,
  set_reference_and_reason, payout_key, payout_txn,
}
use payment_engine_v.Settlement.Failure.{fail_settlement, handle_attempt_failure}

-- ConfirmationTimeout, in nanoseconds
abbrev pub confirmation_timeout : ℕ
confirmation_timeout = 10 * 60 * 1000000000

abbrev pub is_enabled : String → List Provider → Bool
is_enabled name [] = false
is_enabled name (p ∷ ps) = if str_eq p.name name then p.is_enabled else is_enabled name ps

abbrev pub enabled_names : List Provider → List String → List String
enabled_names ps [] = []
enabled_names ps (n ∷ ns) =
    let rest = enabled_names ps ns in if is_enabled n ps then n ∷ rest else rest

abbrev pub contains : String → List String → Bool
contains n [] = false
contains n (m ∷ ms) = str_eq m n || contains n ms

abbrev pub first_untried : List String → List String → Option String
first_untried tried [] = none
first_untried tried (n ∷ ns) = if contains n tried then first_untried tried ns else some n

abbrev pub or_else : Option String → Option String → Option String
or_else none b = b
or_else (some a) b = some a

-- The choice of `selectProvider` among a corridor's bindings: the first enabled provider that was not
-- tried, else the first enabled one.
unfoldable pub choose_provider : List Provider → List String → List String → Option String
choose_provider ps bindings tried =
    let enabled = enabled_names ps bindings in
    or_else (first_untried tried enabled) (head_row enabled)

-- `selectProvider`
unfoldable pub select_provider :
    Services → ℕ → List String → Action SettlementError Tables (Option String)
select_provider svc corridor_id tried = do
  bindings ← reply (svc.list_active_providers corridor_id)
  pure (choose_provider svc.providers bindings tried)

abbrev or_empty_object : Option String → String
or_empty_object none = "{}"
or_empty_object (some d) = if str_eq d "" then "{}" else d

abbrev new_attempt : ℕ → Settlement → String → String → ℕ → Option String → Attempt
new_attempt now st name key id destination = record {
  id = id;
  settlement_id = st.id;
  attempt_number = st.attempt_count + 1;
  provider_name = name;
  idempotency_key = key;
  status = dispatched;
  provider_reference = none;
  failure_reason = none;
  provider_payload = or_empty_object destination;
  dispatched_at = now;
  resolved_at = none;
}

-- Between the claim and the call: the destination and the attempt's row.
unfoldable pub prepare_attempt :
    ℕ → Settlement → String → String → Action SettlementError Tables (Option String × Attempt)
prepare_attempt now st name key = do
  destination ← resolve_destination st
  id ← draw_id
  let attempt = new_attempt now st name key id destination
  insert_attempt attempt
  set_attempt_count st.id (st.attempt_count + 1) now
  pure (destination, attempt)

unfoldable pub note_dispatch :
    Services
    → ℕ
    → Settlement
    → Action SettlementError Tables Unit
    → Action SettlementError Tables Unit
note_dispatch svc now st extra = do
  transition_and_publish svc now st settling settling "settlement.dispatched" extra
  pure tt

-- The switch on the provider's outcome.
unfoldable pub route :
    Services
    → ℕ
    → (Settlement → Action SettlementError Tables Unit)
    → Settlement
    → Attempt
    → PayoutResult
    → Outcome
    → Action SettlementError Tables Unit
route svc now redispatch st attempt result accepted = note_dispatch svc now st (do
  set_reference attempt.id result.provider_reference
  set_deadline st.id (now + confirmation_timeout))
route svc now redispatch st attempt result uncertain = note_dispatch svc now st (do
  set_reference_and_reason attempt.id result.provider_reference result.failure_reason
  set_deadline_and_page st.id (now + confirmation_timeout) now)
route svc now redispatch st attempt result rejected_terminal =
    handle_attempt_failure svc now redispatch attempt failed_bucket4 result.failure_reason true
route svc now redispatch st attempt result rejected_retryable =
    handle_attempt_failure svc now redispatch attempt failed_bucket1 result.failure_reason false

abbrev pub request_of : Settlement → String → Option String → PayoutRequest
request_of st key destination = record {
  session_id = st.session_id;
  attempt_number = st.attempt_count + 1;
  attempt_idempotency_key = key;
  fiat_currency = st.fiat_currency;
  amount = st.tenant_payable_amount;
  destination = destination;
}

-- What follows the provider's answer.
unfoldable pub after_call :
    Services
    → ℕ
    → (Settlement → Action SettlementError Tables Unit)
    → Settlement
    → Attempt
    → PayoutResult
    → Action SettlementError Tables Unit
after_call svc now redispatch st attempt result = do
  clear_destination st.id st.pending_destination
  route svc now redispatch
      (record st { attempt_count = st.attempt_count + 1; pending_destination = none }) attempt
      result result.outcome

unfoldable pub send_payout :
    Services
    → ℕ
    → (Settlement → Action SettlementError Tables Unit)
    → Settlement
    → String
    → String
    → Action SettlementError Tables Unit
send_payout svc now redispatch st name key = do
  (destination, attempt) ← prepare_attempt now st name key
  result ← call_provider svc name (request_of st key destination)
  after_call svc now redispatch st attempt result

-- The answer to the claim: a taken key ends the attempt before any call.
unfoldable pub after_claim :
    Services
    → ℕ
    → (Settlement → Action SettlementError Tables Unit)
    → Settlement
    → String
    → String
    → Result LedgerError ℕ
    → Action SettlementError Tables Unit
after_claim svc now redispatch st name key (ok _) = send_payout svc now redispatch st name key
after_claim svc now redispatch st name key (err already_posted) = pure tt
after_claim svc now redispatch st name key (err e) = fail (ledger_failed e)

unfoldable pub with_provider :
    Services
    → ℕ
    → (Settlement → Action SettlementError Tables Unit)
    → Settlement
    → Option String
    → Action SettlementError Tables Unit
with_provider svc now redispatch st none =
    fail_settlement svc now st "no active, enabled settlement provider configured for this corridor"
with_provider svc now redispatch st (some name) = do
  accounts ← resolve_accounts st.tenant_id st.crypto_asset st.fiat_currency
  let key = payout_key svc st.session_id (st.attempt_count + 1)
  claimed ← claim (payout_txn accounts st key "settlement")
  after_claim svc now redispatch st name key claimed

unfoldable pub attempt_with :
    Services
    → ℕ
    → (Settlement → Action SettlementError Tables Unit)
    → Settlement
    → Action SettlementError Tables Unit
attempt_with svc now redispatch st = do
  tried ← tried_provider_names st.id
  name ← select_provider svc st.corridor_id tried
  with_provider svc now redispatch st name

-- `dispatchAttempt`, with its automatic retries.
unfoldable pub dispatch_attempt : Services → ℕ → ℕ → Settlement → Action SettlementError Tables Unit
dispatch_attempt svc now zero st = fail out_of_fuel
dispatch_attempt svc now (suc fuel) st = attempt_with svc now (dispatch_attempt svc now fuel) st
