-- ===== src/Settlement/Payouts.antt =====
-- A payout is asked for under a key that the ledger has just taken (internal/settlement/dispatch.go):
-- the dispatch and its retries are sound.
use payment_engine_v.Base.{ℕ, String, Bool, true, false, Option, none, some}
use payment_engine_v.Db.{Result, ok, err, Action}
use payment_engine_v.Db.Keeps.{Keeps, Keeps-pure, Keeps-bind}
use payment_engine_v.Settlement.Tables.{Settlement, Attempt, AttemptStatus, Tables}
use payment_engine_v.Settlement.Services.{
  Services, PayoutResult, Outcome, accepted, rejected_retryable, rejected_terminal, uncertain,
}
use payment_engine_v.Settlement.Calls.{session_call, SettlementError}
use payment_engine_v.Settlement.Failure.{
  park, ask_by_hand, hand_over, hand_to_manual_payout, close_session, fail_unhandled,
  fail_settlement, retry_or_fail, compensate, handle_attempt_failure,
}
use payment_engine_v.Settlement.Dispatch.{note_dispatch, route, after_call}
use payment_engine_v.Settlement.Diagram
use payment_engine_v.Settlement.Diagram.{here, one_move}
use payment_engine_v.Settlement.Sound.{sound}
use payment_engine_v.Settlement.Rules.{session_call-Sound}
use payment_engine_v.Settlement.Writes.{set_paged-Sound, writes, transition_and_publish-Sound}
use payment_engine_v.Session.Moves.{cas_transition-evolves}
use payment_engine_v.Session.Cas.{transition_to_settlement_failed}
use payment_engine_v.Session.Diagram.{one_step, give_up as session_gives_up}

-- Giving a payout up: to an operator's hand, or for good.
module _ (svc : Services) (now : ℕ) where
  park-Sound : (st : Settlement) (sent : Result Unit Unit) → Keeps sound (park svc now st sent)
  unfolding park
  park-Sound st (err _) = Keeps-pure false
  park-Sound st (ok _) =
      Keeps-bind _ _
        (transition_and_publish-Sound svc now st _ _ _ _ (one_move Diagram.park)
          (set_paged-Sound st.id now))
        (λ _. Keeps-pure true)

  ask_by_hand-Sound :
      (st : Settlement) (reason : String) (account : Option String)
      → Keeps sound (ask_by_hand svc now st reason account)
  unfolding ask_by_hand
  ask_by_hand-Sound st reason none = Keeps-pure false
  ask_by_hand-Sound st reason (some account) = park-Sound st _

  hand_over-Sound :
      (st : Settlement) (reason : String) (raw : Result SettlementError (Option String))
      → Keeps sound (hand_over svc now st reason raw)
  unfolding hand_over
  hand_over-Sound st reason (err _) = Keeps-pure false
  hand_over-Sound st reason (ok raw) = ask_by_hand-Sound st reason _

  hand_to_manual_payout-Sound :
      (st : Settlement) (reason : String) → Keeps sound (hand_to_manual_payout svc now st reason)
  unfolding hand_to_manual_payout
  hand_to_manual_payout-Sound st reason = search (writes, hand_over-Sound) depth 6

  settlement_failed-Sound :
      (id : ℕ) → Keeps sound (session_call (transition_to_settlement_failed id now))
  unfolding transition_to_settlement_failed
  settlement_failed-Sound id =
      session_call-Sound _ (cas_transition-evolves id _ _ now (one_step session_gives_up))

  close_session-Sound : (st : Settlement) (moved : Bool) → Keeps sound (close_session now st moved)
  unfolding close_session
  close_session-Sound st false = Keeps-pure tt
  close_session-Sound st true = search (writes, settlement_failed-Sound) depth 6

  fail_unhandled-Sound :
      (st : Settlement) (handled : Bool) → Keeps sound (fail_unhandled svc now st handled)
  unfolding fail_unhandled
  fail_unhandled-Sound st true = Keeps-pure tt
  fail_unhandled-Sound st false =
      Keeps-bind _ _
        (transition_and_publish-Sound svc now st _ _ _ _ (one_move Diagram.give_up)
          (set_paged-Sound st.id now))
        (close_session-Sound st)

  pub fail_settlement-Sound :
      (st : Settlement) (reason : String) → Keeps sound (fail_settlement svc now st reason)
  unfolding fail_settlement
  fail_settlement-Sound st reason =
      search (writes, hand_to_manual_payout-Sound, fail_unhandled-Sound) depth 6

-- A failed attempt, where the next one is sound.
module _ (svc : Services) (now : ℕ) (redispatch : Settlement → Action SettlementError Tables Unit)
    (next : (st : Settlement) → Keeps sound (redispatch st)) where
  retry_or_fail-Sound :
      (st : Settlement) (reason : String) (stop : Bool)
      → Keeps sound (retry_or_fail svc now redispatch st reason stop)
  unfolding retry_or_fail
  retry_or_fail-Sound st reason true = fail_settlement-Sound svc now st reason
  retry_or_fail-Sound st reason false = search (writes, next) depth 6

  compensate-Sound :
      (attempt : Attempt) (reason : String) (terminal hit : Bool)
      → Keeps sound (compensate svc now redispatch attempt reason terminal hit)
  unfolding compensate
  compensate-Sound attempt reason terminal false = Keeps-pure tt
  compensate-Sound attempt reason terminal true = search (writes, retry_or_fail-Sound) depth 8

  pub handle_attempt_failure-Sound :
      (attempt : Attempt) (bucket : AttemptStatus) (reason : String) (terminal : Bool)
      → Keeps sound (handle_attempt_failure svc now redispatch attempt bucket reason terminal)
  unfolding handle_attempt_failure
  handle_attempt_failure-Sound attempt bucket reason terminal =
      search (writes, compensate-Sound) depth 6

  route-Sound :
      (st : Settlement) (attempt : Attempt) (result : PayoutResult) (outcome : Outcome)
      → Keeps sound (route svc now redispatch st attempt result outcome)
  unfolding route note_dispatch
  route-Sound st attempt result accepted =
      Keeps-bind _ _ (transition_and_publish-Sound svc now st _ _ _ _ here (search writes depth 6))
        (λ _. Keeps-pure tt)
  route-Sound st attempt result uncertain =
      Keeps-bind _ _ (transition_and_publish-Sound svc now st _ _ _ _ here (search writes depth 6))
        (λ _. Keeps-pure tt)
  route-Sound st attempt result rejected_terminal = handle_attempt_failure-Sound attempt _ _ _
  route-Sound st attempt result rejected_retryable = handle_attempt_failure-Sound attempt _ _ _

  pub after_call-Sound :
      (st : Settlement) (attempt : Attempt) (result : PayoutResult)
      → Keeps sound (after_call svc now redispatch st attempt result)
  unfolding after_call
  after_call-Sound st attempt result = search (writes, route-Sound) depth 6
