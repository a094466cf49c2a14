-- ===== src/Settlement/Tests.antt =====
-- Concrete payouts: internal/settlement run on small inputs, and the theorems at them.
use payment_engine_v.Base.{
  ◌≤◌, stored, ◌-ℤ◌, ◌+ℤ◌, arith, ◌==◌, pos, true, false, none, some, List, [], ◌∷◌, ◌≡◌, ◌≢◌, refl,
  inl, if◌then◌else◌, map,
}
use payment_engine_v.Db.{lost, ok, err}
use payment_engine_v.Session.Tables.{Session, deposit_confirmed}
use payment_engine_v.Session.Create.{Request, new_session}
use payment_engine_v.Session.Services.{Lock}
use payment_engine_v.Session.Evolves.{Grown}
use payment_engine_v.Settlement.Tables.{Status, settled, settlement_failed, Settlement, Tables}
use payment_engine_v.Settlement.Services.{
  Services, Provider, accepted, rejected_retryable, payout_succeeded,
}
use payment_engine_v.Settlement.Calls.{out_of_fuel}
use payment_engine_v.Settlement.Dispatch.{choose_provider, dispatch_attempt}
use payment_engine_v.Settlement.Process.{new_settlement}
use payment_engine_v.Settlement.Diagram.{paid_rank, is_paid_out}
use payment_engine_v.Settlement.Advance.{SameOrder}
use payment_engine_v.Settlement.Sound.{IsPaidOnce, is_requested}
use payment_engine_v.Session.Cas.{
  update_session, cas_transition, transition_to_settling, transition_to_settled,
  transition_to_settlement_failed,
}
use payment_engine_v.Session.Create.{get_session}
use payment_engine_v.Ledger.Accounts.{
  get_or_create_account, upsert_account, find_key, has_account_key,
}
use payment_engine_v.Ledger.Post.{
  post, post_body, insert_transaction, has_key, validate, post_entries, insert_entry,
  update_balance, add_balance, validate_balance, validate_entries, asset_sums, add_to_sum,
  first_nonzero, entry_flaw,
}
use payment_engine_v.Db.{pure, fail, query, transaction}
use payment_engine_v.Settlement.Calls.{
  ledger_call, session_call, try, draw_id, reply, require, expect_ledger, ignore_taken, claim,
  post_once, account, resolve_accounts, get_settlement, get_settlement_by_session,
  release_reservation, release_if_any, release_for, call_provider,
}
use payment_engine_v.Settlement.Transition.{
  update_settlement, publish, finish_transition, transition_body, transition_and_publish, set_paged,
  set_deadline, set_attempt_count, clear_destination,
}
use payment_engine_v.Settlement.Attempts.{
  update_attempts, mark_attempt, mark_succeeded, set_reference, set_reference_and_reason,
  insert_row, insert_attempt, tried_provider_names, latest_attempt, find_attempt, last_with_payload,
  destination_from, destination_of, resolve_destination,
}
use payment_engine_v.Settlement.Failure.{
  park, ask_by_hand, hand_over, hand_to_manual_payout, close_session, fail_unhandled,
  fail_settlement, retry_or_fail, compensate, handle_attempt_failure,
}
use payment_engine_v.Settlement.Dispatch.{
  choose_provider, select_provider, prepare_attempt, note_dispatch, route, after_call, send_payout,
  after_claim, with_provider, attempt_with, dispatch_attempt,
}
use payment_engine_v.Settlement.Process.{
  crypto_to_fiat, expect_deposit, session_txn, start_session, process_settlement, oldest_pending,
  claim_next_pending_dispatch, dispatch_batch, handle_deposit_confirmed,
}
use payment_engine_v.Settlement.Webhook.{
  complete_session_settlement, complete_if, settle_marked, handle_payout_succeeded, insert_reversal,
  reverse_moved, handle_payout_returned, page_declined, flag_declined_attempt, apply_event,
  take_event, handle_settlement_webhook, record_payment, settle_by_hand, manual_settle,
}
use payment_engine_v.Settlement.Inbound.{
  confirm_each, confirm_sandbox_dispatches, dispatch_tick, answer_press, settle_pressed, take_press,
  handle_telegram_update,
}
use payment_engine_v.Settlement.Ops.{
  origin_of, reverse_attempts, reverse_all, resolve_confirmed_failed_attempts, close_attempts,
  requeue, retry_payout, close_reversal, resolve_reversal, page_ops_for_timed_out_confirmations,
}
use payment_engine_v.Settlement.Runs.{perform, run}
use payment_engine_v.Settlement.Runs.{deposit_op, tick_op, webhook_op, page_op, Step, run, perform}
use payment_engine_v.Settlement.Once.{run-IsPaidOnce, run-Grown, Filed, paid_out_for_life}
use payment_engine_v.Settlement.Ends.{dispatch_attempt_ends}
use payment_engine_v.Settlement.Choice.{IsChoice, choose_provider-IsChoice}

abbrev two_providers : List Provider
two_providers =
    record { name = "hyparrow"; is_enabled = true }
    ∷ record { name = "paystack"; is_enabled = false }
    ∷ record { name = "monnify"; is_enabled = true }
    ∷ []

abbrev locked : Lock
locked = record { id = 31; rate = pos 1600; asset_price_usd = pos 1; expires_at = 900 }

-- Every provider accepts, and calls back.
abbrev services : Services
services = record {
  bus = true;
  telegram = false;
  providers = two_providers;
  list_active_providers = λ _. ok ("paystack" ∷ "hyparrow" ∷ "monnify" ∷ []);
  get_confirmed_deposit_total = λ _. ok (pos 100000);
  get_lock = λ _. ok locked;
  dispatch =
      λ name r. ok (record { outcome = accepted; provider_reference = "ref"; failure_reason = "" });
  parse_webhook =
      λ name body. ok (record { kind = payout_succeeded; provider_reference = "ref"; reason = "" });
  bank_account = λ _. none;
  send_message = λ _ _ _. ok tt;
  telegram_secret = "";
  telegram_chat = "";
  parse_update = λ _. err tt;
  settle_target = λ _. none;
  mul = λ a b. a;
  id_text = λ n. "s";
  number_text = λ n. if n == 1 then "1" else (if n == 2 then "2" else "3");
}

-- Every provider refuses.
abbrev refusing : Services
refusing = record services {
  dispatch = λ name r.
      ok
        (record { outcome = rejected_retryable; provider_reference = ""; failure_reason = "down" });
}

abbrev request : Request
request = record {
  tenant_id = 2;
  crypto_asset = "USDT";
  crypto_network = "tron";
  fiat_currency = "NGN";
  fiat_amount = pos 16000;
  payout_destination = none;
}

abbrev confirmed : Session
confirmed = record (new_session 1 request 4 100) {
  status = deposit_confirmed;
  rate_lock_id = some 31;
  deposit_reservation_id = some 51;
}

abbrev start : Tables
start = record {
  settlements = [];
  attempts = [];
  reversals = [];
  outbox = [];
  reservations = record { id = 51; is_reserved = true } ∷ [];
  requests = [];
  ledger = record {
    accounts = [];
    transactions = [];
    entries = [];
    balances = [];
    discrepancies = [];
    outbox = [];
  };
  sessions = record { sessions = confirmed ∷ []; outbox = []; cases = [] };
  next_id = 100;
}

start-IsPaidOnce : IsPaidOnce start
unfolding is_requested
start-IsPaidOnce = record { no_repeat = tt; posted = λ key h. cc }

abbrev paying : List Step
paying =
    record { services = services; op = deposit_op 1 200; answers = [] }
    ∷ record { services = services; op = tick_op 300 3 2; answers = [] }
    ∷ record { services = services; op = webhook_op 400 3 "hyparrow" "{}"; answers = [] }
    ∷ record { services = services; op = tick_op 500 3 2; answers = [] }
    ∷ []

abbrev failing : List Step
failing =
    record { services = services; op = deposit_op 1 200; answers = [] }
    ∷ record { services = refusing; op = tick_op 300 3 2; answers = [] }
    ∷ record { services = services; op = page_op 900 900; answers = lost ∷ [] }
    ∷ []

abbrev paid : Settlement
paid = record (new_settlement 100 confirmed 200) { status = settled; attempt_count = 1 }

abbrev one_paid : Tables
one_paid = record start { settlements = paid ∷ [] }

run-IsPaidOnce_example : IsPaidOnce (run paying start)
run-IsPaidOnce_example = run-IsPaidOnce paying start start-IsPaidOnce

run-Grown_example : Grown (confirmed ∷ []) (run paying start).sessions.sessions
run-Grown_example = run-Grown paying start

paid_out_for_life_example :
    (y : Settlement) × Filed y (run paying one_paid).settlements
    × SameOrder paid y
    × (is_paid_out y.status ≡ true)
    × (paid_rank paid.status ≤ paid_rank y.status)
paid_out_for_life_example = paid_out_for_life paying one_paid paid (inl refl) refl

dispatch_attempt_ends_example :
    (dispatch_attempt refusing 300 3 (new_settlement 100 confirmed 200) start []).0
    ≢ err out_of_fuel
dispatch_attempt_ends_example =
    dispatch_attempt_ends refusing 300 3 (new_settlement 100 confirmed 200) start [] (omega arith)
      (omega arith)

choose_provider-IsChoice_example :
    IsChoice two_providers
      ("hyparrow" ∷ [])
      ("paystack" ∷ "hyparrow" ∷ "monnify" ∷ [])
      (choose_provider two_providers ("paystack" ∷ "hyparrow" ∷ "monnify" ∷ []) ("hyparrow" ∷ []))
choose_provider-IsChoice_example =
    choose_provider-IsChoice two_providers ("hyparrow" ∷ [])
      ("paystack" ∷ "hyparrow" ∷ "monnify" ∷ [])

abbrev statuses : Tables → List Status
statuses s = map (λ x. x.status) s.settlements

-- What a run of the operations unfolds.
running : Unit {0}
unfolding route expect_deposit resolve_confirmed_failed_attempts draw_id with_provider post_once
    insert_row insert_reversal claim crypto_to_fiat after_claim confirm_each resolve_reversal
    resolve_accounts update_attempts handle_deposit_confirmed requeue reverse_attempts ask_by_hand
    select_provider expect_ledger insert_attempt settle_pressed close_reversal mark_succeeded
    fail_unhandled retry_payout get_settlement_by_session hand_over
    page_ops_for_timed_out_confirmations attempt_with set_reference_and_reason session_txn
    handle_payout_succeeded update_settlement get_settlement set_attempt_count transition_body
    transition_and_publish destination_from settle_by_hand close_session apply_event
    finish_transition tried_provider_names retry_or_fail handle_attempt_failure mark_attempt
    complete_session_settlement choose_provider process_settlement record_payment
    handle_telegram_update ignore_taken after_call dispatch_attempt session_call complete_if
    dispatch_batch perform destination_of resolve_destination require reverse_moved
    handle_payout_returned flag_declined_attempt compensate park start_session latest_attempt
    account reply origin_of page_declined take_event fail_settlement note_dispatch send_payout
    ledger_call publish hand_to_manual_payout release_if_any set_paged answer_press settle_marked
    call_provider prepare_attempt confirm_sandbox_dispatches set_deadline try find_attempt
    close_attempts last_with_payload claim_next_pending_dispatch manual_settle oldest_pending
    release_reservation release_for take_press dispatch_tick reverse_all set_reference
    handle_settlement_webhook clear_destination run update_session cas_transition
    transition_to_settling transition_to_settled transition_to_settlement_failed get_session
    get_or_create_account upsert_account find_key has_account_key post post_body insert_transaction
    has_key validate post_entries insert_entry update_balance add_balance stored validate_balance
    validate_entries asset_sums add_to_sum first_nonzero entry_flaw pure fail query transaction
running = tt

paying_test : statuses (run paying start) ≡ settled ∷ []
unfolding running ◌-ℤ◌ ◌+ℤ◌
paying_test = refl

-- One request, under the first attempt's key.
paying_asks_once :
    map (λ r. r.attempt_idempotency_key) (run paying start).requests
    ≡ "settlement_payout:session_s:attempt_1" ∷ []
unfolding running ◌-ℤ◌ ◌+ℤ◌
paying_asks_once = refl

-- Three attempts fail, and the settlement is given up.
failing_test : statuses (run failing start) ≡ settlement_failed ∷ []
unfolding running ◌-ℤ◌ ◌+ℤ◌
failing_test = refl

failing_asks_thrice : map (λ r. r.attempt_number) (run failing start).requests ≡ 3 ∷ 2 ∷ 1 ∷ []
unfolding running ◌-ℤ◌ ◌+ℤ◌
failing_asks_thrice = refl
