-- ===== src/Settlement/Ends.antt =====
-- The automatic retries of a payout end (internal/settlement/dispatch.go: `dispatchAttempt`,
-- `handleAttemptFailure`; MaxAutoRetryAttempts): three rounds of fuel are enough for any dispatch.
use payment_engine_v.Base.{
  ℕ, zero, suc, ◌+◌, ◌≤◌, ◌<◌, String, Bool, true, false, Option, none, some, List, ◌≡◌, ◌≢◌, refl,
  arith,
}
use payment_engine_v.Db.{Answer, Result, ok, err, Action}
use payment_engine_v.Ledger.Post.{LedgerError, already_posted}
use payment_engine_v.Settlement.Tables.{Settlement, Attempt, AttemptStatus, Tables}
use payment_engine_v.Settlement.Services.{
  Services, PayoutResult, Outcome, accepted, rejected_retryable, rejected_terminal, uncertain,
}
use payment_engine_v.Settlement.Calls.{SettlementError, out_of_fuel}
use payment_engine_v.Settlement.Failure.{
  max_auto_retry_attempts, retry_or_fail, compensate, handle_attempt_failure,
}
use payment_engine_v.Settlement.Dispatch.{
  select_provider, note_dispatch, route, after_call, send_payout, after_claim, with_provider,
  attempt_with, dispatch_attempt,
}
use payment_engine_v.Settlement.Leads.{
  Leads, Led, Anything, Leads-pure, Leads-fail, Leads-then, Yields-Leads, Leads-given,
}
use payment_engine_v.Settlement.Steady.{
  reply-Leads, claim-Leads, set_reference_and_reason-Leads, set_reference-Leads,
  resolve_accounts-Leads, post_once-Leads, tried_provider_names-Leads, mark_attempt-Leads,
}
use payment_engine_v.Settlement.GiveUp.{
  set_deadline_and_page-Leads, set_deadline-Leads, transition_and_publish-Leads,
  fail_settlement-Leads, clear_destination-Leads,
}
use payment_engine_v.Settlement.Counted.{
  HasCount, HasCount-aside, get_settlement-Leads, Anything-aside, to_anything, from_anything,
  Prepared, prepare_attempt-Yields, call_provider-Leads,
}

-- A dispatch of a settlement at the attempt `n`, whose retries end.
module _ (svc : Services) (now n : ℕ) (redispatch : Settlement → Action SettlementError Tables Unit)
    (next : (st : Settlement)
      → st.attempt_count ≡ n
      → n < max_auto_retry_attempts
      → Leads Anything (redispatch st) Anything) where
  retry_or_fail-Leads :
      (id : ℕ) (st : Settlement) (reason : String) (stop : Bool)
      → st.attempt_count ≡ n
      → (stop ≡ false → n < max_auto_retry_attempts)
      → Leads (HasCount id n) (retry_or_fail svc now redispatch st reason stop) Anything
  unfolding retry_or_fail
  retry_or_fail-Leads id st reason true e h =
      to_anything _ (fail_settlement-Leads (HasCount-aside id n) svc now st reason)
  retry_or_fail-Leads id st reason false e h =
      Leads-then _ _ (tried_provider_names-Leads st.id)
        (λ _. from_anything (redispatch st) (next st e (h refl)))

  compensate-Leads :
      (attempt : Attempt) (reason : String) (terminal hit : Bool)
      → attempt.attempt_number ≡ n
      → Leads
          (HasCount attempt.settlement_id n)
          (compensate svc now redispatch attempt reason terminal hit)
          Anything
  unfolding compensate
  compensate-Leads attempt reason terminal false e = to_anything _ (Leads-pure tt)
  compensate-Leads attempt reason terminal true e =
      get_settlement-Leads attempt.settlement_id n _ (λ st c.
        Leads-then _ _ (resolve_accounts-Leads st.tenant_id st.crypto_asset st.fiat_currency)
          (λ accounts.
            Leads-then _ _ (post_once-Leads _) (λ _.
              retry_or_fail-Leads attempt.settlement_id st reason _ c (λ stop. ground arith))))

  handle_attempt_failure-Leads :
      (attempt : Attempt) (bucket : AttemptStatus) (reason : String) (terminal : Bool)
      → attempt.attempt_number ≡ n
      → Leads
          (HasCount attempt.settlement_id n)
          (handle_attempt_failure svc now redispatch attempt bucket reason terminal)
          Anything
  unfolding handle_attempt_failure
  handle_attempt_failure-Leads attempt bucket reason terminal e =
      Leads-then _ _ (mark_attempt-Leads attempt.id bucket reason now)
        (λ hit. compensate-Leads attempt reason terminal _ e)

  route-Leads :
      (st : Settlement) (attempt : Attempt) (result : PayoutResult) (outcome : Outcome)
      → attempt.attempt_number ≡ n
      → Leads
          (HasCount attempt.settlement_id n)
          (route svc now redispatch st attempt result outcome)
          Anything
  unfolding route note_dispatch
  route-Leads st attempt result accepted e =
      Leads-then _ _
        (transition_and_publish-Leads (HasCount-aside _ n) svc now st _ _ _ _ (
          Leads-then _ _ (set_reference-Leads _ _)
            (λ _. set_deadline-Leads (HasCount-aside _ n) st.id _)))
        (λ _. to_anything _ (Leads-pure tt))
  route-Leads st attempt result uncertain e =
      Leads-then _ _
        (transition_and_publish-Leads (HasCount-aside _ n) svc now st _ _ _ _ (
          Leads-then _ _ (set_reference_and_reason-Leads _ _ _)
            (λ _. set_deadline_and_page-Leads (HasCount-aside _ n) st.id _ now)))
        (λ _. to_anything _ (Leads-pure tt))
  route-Leads st attempt result rejected_terminal e = handle_attempt_failure-Leads attempt _ _ _ e
  route-Leads st attempt result rejected_retryable e = handle_attempt_failure-Leads attempt _ _ _ e

  after_call-Leads :
      (st : Settlement) (attempt : Attempt) (result : PayoutResult)
      → attempt.attempt_number ≡ n
      → Leads
          (HasCount attempt.settlement_id n)
          (after_call svc now redispatch st attempt result)
          Anything
  unfolding after_call
  after_call-Leads st attempt result e =
      Leads-then _ _ (clear_destination-Leads (HasCount-aside _ n) st.id _)
        (λ _. route-Leads _ attempt result _ e)

  send_payout-Leads :
      (st : Settlement) (name key : String)
      → st.attempt_count + 1 ≡ n
      → Leads Anything (send_payout svc now redispatch st name key) Anything
  unfolding send_payout
  send_payout-Leads st name key e =
      Yields-Leads (Prepared n) _ _ (prepare_attempt-Yields n now st name key e)
        (λ (destination, attempt). Leads-given _ (λ number.
          Leads-then _ _ (call_provider-Leads svc name _)
            (λ result. after_call-Leads st attempt result number)))

  after_claim-Leads :
      (st : Settlement) (name key : String) (claimed : Result LedgerError ℕ)
      → st.attempt_count + 1 ≡ n
      → Leads Anything (after_claim svc now redispatch st name key claimed) Anything
  unfolding after_claim
  after_claim-Leads st name key (ok _) e = send_payout-Leads st name key e
  after_claim-Leads st name key (err already_posted) e = Leads-pure tt
  after_claim-Leads st name key (err _) e = Leads-fail _ tt

  with_provider-Leads :
      (st : Settlement) (name : Option String)
      → st.attempt_count + 1 ≡ n
      → Leads Anything (with_provider svc now redispatch st name) Anything
  unfolding with_provider
  with_provider-Leads st none e = fail_settlement-Leads Anything-aside svc now st _
  with_provider-Leads st (some name) e =
      Leads-then _ _ (resolve_accounts-Leads st.tenant_id st.crypto_asset st.fiat_currency)
        (λ accounts.
          Leads-then _ _ (claim-Leads _) (λ claimed. after_claim-Leads st name _ claimed e))

  attempt_with-Leads :
      (st : Settlement)
      → st.attempt_count + 1 ≡ n
      → Leads Anything (attempt_with svc now redispatch st) Anything
  unfolding attempt_with select_provider
  attempt_with-Leads st e = Leads-then _ _ (tried_provider_names-Leads st.id) (λ tried.
      Leads-then _ _ (Leads-then _ _ (reply-Leads _) (λ bindings. Leads-pure _))
        (λ name. with_provider-Leads st name e))

-- The fuel for a settlement at an attempt.
abbrev IsEnough : ℕ → ℕ → Type 0
IsEnough fuel attempt_count = (1 ≤ fuel) × (max_auto_retry_attempts ≤ fuel + attempt_count)

dispatch_attempt-Leads :
    (svc : Services) (now fuel : ℕ) (st : Settlement)
    → IsEnough fuel st.attempt_count
    → Leads Anything (dispatch_attempt svc now fuel st) Anything
unfolding dispatch_attempt
dispatch_attempt-Leads svc now zero st h = ground arith
dispatch_attempt-Leads svc now (suc fuel) st h =
    attempt_with-Leads svc now (st.attempt_count + 1) (dispatch_attempt svc now fuel)
      (λ st' e more. dispatch_attempt-Leads svc now fuel st' (ground arith)) st refl

Led-fuel :
    {A : Type 0} (q : Result SettlementError A × Tables × List Answer)
    → Led Anything q
    → q.0 ≢ err out_of_fuel
Led-fuel (ok a, t, rest) h e = cc
Led-fuel (err out_of_fuel, t, rest) h e = h
Led-fuel (err _, t, rest) h e = cc

-- The automatic retries of a payout end: with fuel for one attempt at least, and for the attempts
-- up to the third, `dispatchAttempt` never runs out of it, whatever the database, the providers
-- and the other modules answer. Three rounds are enough for any settlement.
pub dispatch_attempt_ends :
    (svc : Services) (now fuel : ℕ) (st : Settlement) (s : Tables) (answers : List Answer)
    → 1 ≤ fuel
    → max_auto_retry_attempts ≤ fuel + st.attempt_count
    → (dispatch_attempt svc now fuel st s answers).0 ≢ err out_of_fuel
dispatch_attempt_ends svc now fuel st s answers h k =
    Led-fuel (dispatch_attempt svc now fuel st s answers)
      ((dispatch_attempt-Leads svc now fuel st (h, k)).at s answers tt)
