-- ===== src/Settlement/Callbacks.antt =====
-- The providers' callbacks and the payments by hand (internal/settlement/webhook.go, manual.go) are
-- sound.
use payment_engine_v.Base.{ℕ, String, Bool, true, false, refl}
use payment_engine_v.Db.Keeps.{Keeps, Keeps-pure, Keeps-query, Keeps-bind, Keeps-if}
use payment_engine_v.Session.Cas.{transition_to_settled, transition_to_reversed}
use payment_engine_v.Session.Diagram.{one_step, pay as session_pays, return as session_returns}
use payment_engine_v.Session.Moves.{cas_transition-evolves}
use payment_engine_v.Settlement.Tables.{AttemptStatus, Settlement, Attempt}
use payment_engine_v.Settlement.Services.{
  Services, WebhookEvent, WebhookKind, ignored, payout_succeeded, payout_failed, payout_returned,
  payout_reversed, payout_declined,
}
use payment_engine_v.Settlement.Calls.{session_call}
use payment_engine_v.Settlement.Failure.{handle_attempt_failure}
use payment_engine_v.Settlement.Dispatch.{dispatch_attempt}
use payment_engine_v.Settlement.Webhook.{
  complete_session_settlement, complete_if, settle_marked, handle_payout_succeeded, insert_reversal,
  reverse_moved, handle_payout_returned, page_declined, flag_declined_attempt, apply_event,
  take_event, handle_settlement_webhook, record_payment, settle_by_hand, manual_settle,
}
use payment_engine_v.Settlement.Diagram
use payment_engine_v.Settlement.Diagram.{here, one_move}
use payment_engine_v.Settlement.Sound.{sound, Sound-elsewhere}
use payment_engine_v.Settlement.Rules.{
  require-Sound, draw_id-Sound, get_settlement-Sound, parts, session_call-Sound,
}
use payment_engine_v.Settlement.Writes.{
  insert_attempt-Sound, writes, transition_and_publish-Sound, update_settlement-Sound,
  update_attempts-Sound, IsAdvance-aside,
}
use payment_engine_v.Settlement.Payouts.{handle_attempt_failure-Sound}
use payment_engine_v.Settlement.Asked.{dispatch_attempt-Sound}

pub settled_session-Sound : (id now : ℕ) → Keeps sound (session_call (transition_to_settled id now))
unfolding transition_to_settled
settled_session-Sound id now =
    session_call-Sound _ (cas_transition-evolves id _ _ now (one_step session_pays))

pub reversed_session-Sound :
    (id now : ℕ) → Keeps sound (session_call (transition_to_reversed id now))
unfolding transition_to_reversed
reversed_session-Sound id now =
    session_call-Sound _ (cas_transition-evolves id _ _ now (one_step session_returns))

pub complete_session-Sound :
    (now : ℕ) (st : Settlement) → Keeps sound (complete_session_settlement now st)
unfolding complete_session_settlement
complete_session-Sound now st = search (parts, settled_session-Sound) depth 6

pub complete_if-Sound :
    (now : ℕ) (st : Settlement) (moved : Bool) → Keeps sound (complete_if now st moved)
unfolding complete_if
complete_if-Sound now st false = Keeps-pure tt
complete_if-Sound now st true = complete_session-Sound now st

pub settle_marked-Sound :
    (svc : Services) (now : ℕ) (attempt : Attempt) (hit : Bool)
    → Keeps sound (settle_marked svc now attempt hit)
unfolding settle_marked
settle_marked-Sound svc now attempt false = Keeps-pure tt
settle_marked-Sound svc now attempt true = Keeps-bind _ _ (get_settlement-Sound _) (λ st.
    Keeps-bind _ _
      (transition_and_publish-Sound svc now st _ _ _ _ (one_move Diagram.pay) (Keeps-pure tt))
      (complete_if-Sound now st))

pub handle_payout_succeeded-Sound :
    (svc : Services) (now : ℕ) (attempt : Attempt)
    → Keeps sound (handle_payout_succeeded svc now attempt)
unfolding handle_payout_succeeded
handle_payout_succeeded-Sound svc now attempt = search (writes, settle_marked-Sound) depth 6

pub insert_reversal-Sound :
    (id : ℕ) (st : Settlement) (reason : String) → Keeps sound (insert_reversal id st reason)
unfolding insert_reversal
insert_reversal-Sound id st reason = Keeps-query _ _ (λ s. Sound-elsewhere refl refl refl refl)

pub reverse_moved-Sound :
    (svc : Services) (now : ℕ) (st : Settlement) (moved : Bool)
    → Keeps sound (reverse_moved svc now st moved)
unfolding reverse_moved
reverse_moved-Sound svc now st false = Keeps-pure tt
reverse_moved-Sound svc now st true = search (parts, reversed_session-Sound) depth 8

pub handle_payout_returned-Sound :
    (svc : Services) (now : ℕ) (attempt : Attempt) (reason : String)
    → Keeps sound (handle_payout_returned svc now attempt reason)
unfolding handle_payout_returned
handle_payout_returned-Sound svc now attempt reason = Keeps-bind _ _ (get_settlement-Sound _) (λ st.
    Keeps-bind _ _ draw_id-Sound (λ id.
      Keeps-bind _ _
        (transition_and_publish-Sound svc now st _ _ _ _ (one_move Diagram.return)
          (insert_reversal-Sound id st reason))
        (reverse_moved-Sound svc now st)))

pub page_declined-Sound :
    (now : ℕ) (attempt : Attempt) (hit : Bool) → Keeps sound (page_declined now attempt hit)
unfolding page_declined
page_declined-Sound now attempt false = Keeps-pure tt
page_declined-Sound now attempt true =
    Keeps-bind _ _ (update_settlement-Sound _ _ _ (λ x met. IsAdvance-aside x _ _ _ _ _))
      (λ _. search parts depth 6)

pub flag_declined_attempt-Sound :
    (now : ℕ) (attempt : Attempt) (reason : String)
    → Keeps sound (flag_declined_attempt now attempt reason)
unfolding flag_declined_attempt
flag_declined_attempt-Sound now attempt reason =
    Keeps-bind _ _ (update_attempts-Sound _ _ _) (λ hit. page_declined-Sound now attempt _)

module _ (svc : Services) (now fuel : ℕ) where
  pub failure-Sound :
      (attempt : Attempt) (bucket : AttemptStatus) (reason : String)
      → Keeps sound (
          handle_attempt_failure svc now
            (dispatch_attempt svc now fuel)
            attempt
            bucket
            reason
            false)
  failure-Sound attempt bucket reason =
      handle_attempt_failure-Sound svc now (dispatch_attempt svc now fuel)
        (dispatch_attempt-Sound svc now fuel) attempt bucket reason false

  pub apply_event-Sound :
      (attempt : Attempt) (reason : String) (kind : WebhookKind)
      → Keeps sound (apply_event svc now fuel attempt reason kind)
  unfolding apply_event
  apply_event-Sound attempt reason ignored = Keeps-pure tt
  apply_event-Sound attempt reason payout_succeeded = handle_payout_succeeded-Sound svc now attempt
  apply_event-Sound attempt reason payout_failed = failure-Sound attempt _ reason
  apply_event-Sound attempt reason payout_returned =
      handle_payout_returned-Sound svc now attempt reason
  apply_event-Sound attempt reason payout_reversed =
      Keeps-if _ _ _ (handle_payout_returned-Sound svc now attempt reason)
        (failure-Sound attempt _ reason)
  apply_event-Sound attempt reason payout_declined = flag_declined_attempt-Sound now attempt reason

  pub take_event-Sound :
      (provider : String) (event : WebhookEvent) (kind : WebhookKind)
      → Keeps sound (take_event svc now fuel provider event kind)
  unfolding take_event
  take_event-Sound provider event ignored = Keeps-pure tt
  take_event-Sound provider event _ = search (writes, apply_event-Sound) depth 6

  pub handle_settlement_webhook-Sound :
      (provider callback : String)
      → Keeps sound (handle_settlement_webhook svc now fuel provider callback)
  unfolding handle_settlement_webhook
  handle_settlement_webhook-Sound provider callback = search (parts, take_event-Sound) depth 6

pub record_payment-Sound :
    (svc : Services) (now id : ℕ) (st : Settlement) (key audit : String)
    → Keeps sound (record_payment svc now id st key audit)
unfolding record_payment
record_payment-Sound svc now id st key audit = Keeps-bind _ _ (insert_attempt-Sound _) (λ _.
    Keeps-bind _ _ (update_settlement-Sound _ _ _ (λ x met. IsAdvance-aside x _ _ _ _ _))
      (λ _. Keeps-pure tt))

pub settle_by_hand-Sound :
    (svc : Services) (now : ℕ) (st : Settlement) (key : String) (moved : Bool)
    → Keeps sound (settle_by_hand svc now st key moved)
unfolding settle_by_hand
settle_by_hand-Sound svc now st key false = search parts depth 6
settle_by_hand-Sound svc now st key true = search (parts, complete_session-Sound) depth 8

pub manual_settle-Sound :
    (svc : Services) (now settlement_id : ℕ) (audit : String)
    → Keeps sound (manual_settle svc now settlement_id audit)
unfolding manual_settle
manual_settle-Sound svc now settlement_id audit = Keeps-bind _ _ (get_settlement-Sound _) (λ st.
    Keeps-bind _ _ (require-Sound _ _) (λ _. Keeps-bind _ _ draw_id-Sound (λ id.
      Keeps-bind _ _
        (transition_and_publish-Sound svc now st _ _ _ _ (one_move Diagram.pay_by_hand)
          (record_payment-Sound svc now id st _ audit))
        (settle_by_hand-Sound svc now st _))))
