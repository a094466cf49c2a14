-- ===== src/Session/Tests.antt =====
-- Examples for internal/session: a tenant that pays USDT for naira.
use payment_engine_v.Base.{
  pos, ℕ, true, none, some, List, [], ◌∷◌, ◌≡◌, refl, arith, ◌+◌, ◌≤◌, ◌⊎◌, inl, map,
}
use payment_engine_v.Db.{query, Answer, done, refused, lost, ok, err, transaction, ◌>>=◌, ◌>>◌}
use payment_engine_v.Db.Ends.{Ends}
use payment_engine_v.Session.Tables.{
  Status, screening, compliance_hold, expired, deposit_confirmed, settling, settled,
  settlement_failed, reversed, hold, approved, Instructions, Session, Tables, session_ttl,
}
use payment_engine_v.Session.Services.{Corridor, found, Lock, Services}
use payment_engine_v.Session.Cas.{
  resolve_failed, SessionError, update_session, cas_transition, transition_to_hold,
  transition_to_rejected, transition_to_settling, retry_to_settling, transition_to_settled,
  transition_to_reversed,
}
use payment_engine_v.Session.Create.{
  expect, require, expect_corridor, get_session, publish, pending_body, transition_to_pending,
  Request, new_session, insert_session, decide_session, admit, create_session, resolve_case,
  completed, precision, quote_deadline, tightened, crypto_amount, expect_case, approve_hold,
  resolve_compliance_hold,
}
use payment_engine_v.Session.Handlers.{
  move_by_reservation, announce, transition_by_reservation, handle_deposit_detected,
  handle_deposit_confirmed,
}
use payment_engine_v.Session.Ttl.{
  expire_pre_deposit, expire_timed_out_holds, mark_rows, publish_breaches, mark_body,
  mark_sla_breaches, sweep_once,
}
use payment_engine_v.Session.Diagram.{paid_rank, ◌⟶*◌, is_paid}
use payment_engine_v.Session.Evolves.{SameTerms}
use payment_engine_v.Session.Runs.{
  Op, create_op, detected_op, confirmed_op, settle_op, settled_op, reversed_op, sweep_op, run,
  perform, Stored, session_for_life, paid_for_life, closed_for_life,
}
use payment_engine_v.Session.Offer.{OfferMade, transition_to_pending-Ends}
use payment_engine_v.Session.Deadline.{IsBy, completed_deadline}
use payment_engine_v.Session.Exclusive.{race, cas_transition_once, funded, expiry-funded}
use payment_engine_v.Session.Sla.{
  marked, breach_count, IsTallied, mark_sla_breaches-Ends, mark_sla_breaches-IsTallied,
}
use payment_engine_v.Session.Admission.{IsAdmitted, create_session-IsAdmitted, approved_hold_stuck}

abbrev usdt_ngn : Corridor
usdt_ngn = record { id = 4; crypto_asset = "USDT"; fiat_currency = "NGN" }

abbrev quoted : Lock
quoted = record { id = 31; rate = pos 1600; asset_price_usd = pos 1; expires_at = 900 }

abbrev address : Instructions
address = record {
  reservation_id = 51;
  tenant_id = 2;
  provider_name = "wallet";
  crypto_asset = "USDT";
  crypto_network = "tron";
  address = "T1";
  address_tag = "";
  amount = "";
  expires_at = some 800;
}

abbrev services : Services
services = record {
  get_corridor = λ _ _ _. found usdt_ngn;
  get_corridor_by_id = λ _. ok usdt_ngn;
  is_valid_destination = λ _ _. true;
  check_entitlement = λ _ _. ok true;
  list_compliance_providers = λ _. ok ("manual" ∷ []);
  screen_session = λ _ _ _ _ _. ok (record { id = 21; status = approved });
  lock_rate = λ _ _. ok quoted;
  get_deposit_instructions = λ _ _ _. ok address;
  div = λ a _. a;
  round_up = λ _ a. a;
  decimal_text = λ _. "10";
}

-- The same, where no rate can be locked, and where screening holds.
abbrev no_rate : Services
no_rate = record services { lock_rate = λ _ _. err tt }

abbrev holding : Services
holding = record services { screen_session = λ _ _ _ _ _. ok (record { id = 21; status = hold }) }

abbrev request : Request
request = record {
  tenant_id = 2;
  crypto_asset = "USDT";
  crypto_network = "tron";
  fiat_currency = "NGN";
  fiat_amount = pos 16000;
  payout_destination = none;
}

abbrev empty : Tables
empty = record { sessions = []; outbox = []; cases = [] }

abbrev payout : Session
payout = record (new_session 1 request 4 100) { status = settling }

abbrev settling_now : Tables
settling_now = record empty { sessions = payout ∷ [] }

abbrev held_one : Session
held_one = record (new_session 1 request 4 100) {
  status = compliance_hold;
  compliance_case_id = some 21;
}

abbrev one_held : Tables
one_held = record {
  sessions = held_one ∷ [];
  outbox = [];
  cases = record { id = 21; status = hold; hold_expires_at = some 9000 } ∷ [];
}

-- What a run of the operations unfolds.
running : Unit {0}
unfolding run perform create_session admit expect_corridor require expect insert_session
    decide_session transition_to_hold transition_to_rejected transition_to_pending get_session
    pending_body update_session publish completed quote_deadline tightened crypto_amount precision
    transaction handle_deposit_detected handle_deposit_confirmed transition_by_reservation
    move_by_reservation announce transition_to_settling transition_to_settled transition_to_reversed
    retry_to_settling cas_transition sweep_once expire_pre_deposit expire_timed_out_holds
    mark_sla_breaches mark_body mark_rows publish_breaches resolve_compliance_hold resolve_case
    expect_case approve_hold ◌>>=◌
running = tt

abbrev lifecycle : List (Op × List Answer)
lifecycle =
    (create_op 1 request 100, [])
    ∷ (detected_op 51 200, [])
    ∷ (confirmed_op 51 300, [])
    ∷ (settle_op 1 400, [])
    ∷ (settled_op 1 500, [])
    ∷ (settle_op 1 600, [])
    ∷ (reversed_op 1 700, done ∷ [])
    ∷ []

abbrev statuses : List Session → List Status
statuses xs = map (λ x. x.status) xs

-- From the request to a returned payout; the second attempt to settle does nothing.
lifecycle_end : statuses (run services true lifecycle empty).sessions ≡ reversed ∷ []
unfolding running
lifecycle_end = refl

-- A confirmation that comes before the detection moves the session all the same.
confirmed_first :
    statuses
      (run services true
        ((create_op 1 request 100, []) ∷ (confirmed_op 51 300, []) ∷ (detected_op 51 400, []) ∷ [])
        empty).sessions
    ≡ deposit_confirmed ∷ []
unfolding running
confirmed_first = refl

held_by_screening :
    statuses (run holding true ((create_op 1 request 100, []) ∷ []) empty).sessions
    ≡ compliance_hold ∷ []
unfolding running
held_by_screening = refl

session_for_life_example :
    (y : Session) × Stored y (run services true lifecycle settling_now).sessions
    × SameTerms payout y
    × (payout.status ⟶* y.status)
session_for_life_example = session_for_life services true lifecycle settling_now payout (inl refl)

abbrev paid_one : Session
paid_one = record payout { status = settled }

paid_for_life_example :
    (y : Session) × Stored y
      (run services true lifecycle (record empty { sessions = paid_one ∷ [] })).sessions
    × (y.id ≡ 1)
    × (is_paid y.status ≡ true)
    × (paid_rank paid_one.status ≤ paid_rank y.status)
paid_for_life_example =
    paid_for_life services true lifecycle (record empty { sessions = paid_one ∷ [] }) paid_one
      (inl refl) refl

abbrev expired_one : Session
expired_one = record payout { status = expired }

closed_for_life_example :
    (y : Session) × Stored y
      (run services true lifecycle (record empty { sessions = expired_one ∷ [] })).sessions
    × (y.id ≡ 1)
    × (y.status ≡ expired)
closed_for_life_example =
    closed_for_life services true lifecycle (record empty { sessions = expired_one ∷ [] })
      expired_one (inl refl) refl

abbrev screened : Tables
screened = record empty { sessions = new_session 1 request 4 100 ∷ [] }

transition_to_pending-Ends_example :
    Ends
      (λ _. OfferMade services true 1 2 usdt_ngn screening 110 screened)
      screened
      (transition_to_pending services true 1 2 usdt_ngn screening 110 screened
        (done ∷ done ∷ lost ∷ []))
transition_to_pending-Ends_example =
    transition_to_pending-Ends services true 1 2 usdt_ngn screening 110 screened
      (done ∷ done ∷ lost ∷ [])

completed_deadline_example :
    (d : ℕ) × ((completed services 100 quoted (pos 10) address).expires_at ≡ some d)
    × (d ≤ 100 + session_ttl)
    × (d ≤ 900)
    × IsBy d (some 800)
    × ((d ≡ 100 + session_ttl) ⊎ (d ≡ 900) ⊎ (address.expires_at ≡ some d))
completed_deadline_example = completed_deadline services 100 quoted (pos 10) address

cas_transition_once_example :
    let t = (cas_transition 1 settling settled 500 settling_now (lost ∷ [])).1 in
    race 1 settling ((settlement_failed, 501, []) ∷ (settled, 502, lost ∷ []) ∷ []) t ≡ (0, t)
cas_transition_once_example =
    cas_transition_once 1 settling settled 500 settling_now lost
      ((settlement_failed, 501, []) ∷ (settled, 502, lost ∷ []) ∷ []) refl (λ e. cc)

abbrev late : ℕ
late = 9000000000000

expiry-funded_example :
    let (_, t, _) = (expire_pre_deposit late 200 >> expire_timed_out_holds 200) settling_now [] in
    funded t.sessions ≡ funded settling_now.sessions
expiry-funded_example = expiry-funded late 200 settling_now []

-- It is expired.
expires_screened : statuses (expire_pre_deposit late 200 screened []).1.sessions ≡ expired ∷ []
unfolding expire_pre_deposit query
expires_screened = refl

mark_sla_breaches-Ends_example :
    Ends
      (λ _ t. t ≡ marked true late 200 settling_now)
      settling_now
      (mark_sla_breaches true late 200 settling_now (done ∷ done ∷ refused ∷ []))
mark_sla_breaches-Ends_example =
    mark_sla_breaches-Ends true late 200 settling_now (done ∷ done ∷ refused ∷ [])

mark_sla_breaches-IsTallied_example : IsTallied (mark_sla_breaches true late 200 settling_now []).1
mark_sla_breaches-IsTallied_example =
    mark_sla_breaches-IsTallied late 200 settling_now [] (λ id. ground arith)

-- One breach is published by the first sweep, none by the second.
one_breach :
    breach_count 1
      (run services true
        ((sweep_op late 200, []) ∷ (sweep_op late 300, []) ∷ [])
        settling_now).outbox
    ≡ 1
unfolding running
one_breach = refl

create_session-IsAdmitted_example :
    ((e : SessionError) × (create_session services true 1 request 100 empty []
        ≡ (err e, empty, [])))
    ⊎ ((corr : Corridor) × IsAdmitted services request corr)
create_session-IsAdmitted_example = create_session-IsAdmitted services true 1 request 100 empty []

approved_hold_stuck_example :
    let t = (resolve_compliance_hold no_rate true 1 true 200 one_held []).1 in
    (t.sessions ≡ one_held.sessions)
    × (resolve_compliance_hold services true 1 true 300 t [] ≡ (err resolve_failed, t, []))
approved_hold_stuck_example =
    approved_hold_stuck no_rate services true true 1 200 300 one_held held_one 21 usdt_ngn refl refl
      refl refl
