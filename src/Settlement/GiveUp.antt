-- ===== src/Settlement/GiveUp.antt =====
-- The writes to settlements, and a payout given up (internal/settlement/dispatch.go, manual.go), keep
-- a promise about the settlements' attempt counts.
use payment_engine_v.Base.{ℕ, String, Bool, true, false, Option, none, some, ◌≡◌, refl}
use payment_engine_v.Db.{Result, ok, err, Action, query}
use payment_engine_v.Settlement.Tables.{Settlement, Status, Tables}
use payment_engine_v.Settlement.Services.{Services}
use payment_engine_v.Settlement.Calls.{SettlementError, account}
use payment_engine_v.Settlement.Transition.{
  set_deadline_and_page, update_settlement, transition_body, transition_and_publish, set_paged,
  set_deadline, clear_destination,
}
use payment_engine_v.Settlement.Failure.{
  park, ask_by_hand, hand_over, hand_to_manual_payout, close_session, fail_unhandled,
  fail_settlement,
}
use payment_engine_v.Settlement.Leads.{
  IsOfSource, Promise, Leads, Leads-query, Leads-pure, Leads-if, Leads-transaction, Leads-then,
}
use payment_engine_v.Settlement.Steady.{
  IsAside, session_call-Leads, release_for-Leads, try_destination-Leads, finish_transition-Leads,
}

-- The writes to settlements, where the promise allows them.
module _ {P : Promise} (allows : IsAside P) where
  update_settlement-Leads :
      (e : SettlementError) (p : Settlement → Bool) (f : Settlement → Settlement)
      → IsOfSource e
      → ((x : Settlement) → (f x).id ≡ x.id)
      → ((x : Settlement) → (f x).attempt_count ≡ x.attempt_count)
      → Leads P (query e (update_settlement p f)) P
  unfolding update_settlement
  update_settlement-Leads e p f h i c =
      Leads-query {P = P} {Q = P} e (update_settlement p f) h
        (λ s x. allows p f i c s.settlements x)

  set_paged-Leads : (id now : ℕ) → Leads P (set_paged id now) P
  unfolding set_paged
  set_paged-Leads id now =
      Leads-then _ _ (update_settlement-Leads _ _ _ tt (λ x. refl) (λ x. refl)) (λ _. Leads-pure tt)

  pub set_deadline-Leads : (id deadline : ℕ) → Leads P (set_deadline id deadline) P
  unfolding set_deadline
  set_deadline-Leads id deadline =
      Leads-then _ _ (update_settlement-Leads _ _ _ tt (λ x. refl) (λ x. refl)) (λ _. Leads-pure tt)

  pub set_deadline_and_page-Leads :
      (id deadline now : ℕ) → Leads P (set_deadline_and_page id deadline now) P
  unfolding set_deadline_and_page
  set_deadline_and_page-Leads id deadline now =
      Leads-then _ _ (update_settlement-Leads _ _ _ tt (λ x. refl) (λ x. refl)) (λ _. Leads-pure tt)

  pub clear_destination-Leads : (id : ℕ) (d : Option String) → Leads P (clear_destination id d) P
  unfolding clear_destination
  clear_destination-Leads id none = Leads-pure tt
  clear_destination-Leads id (some d) =
      Leads-then _ _ (update_settlement-Leads _ _ _ tt (λ x. refl) (λ x. refl)) (λ _. Leads-pure tt)

  pub transition_and_publish-Leads :
      (svc : Services) (now : ℕ) (st : Settlement) (from to : Status) (event_type : String)
      (extra : Action SettlementError Tables Unit)
      → Leads P extra P
      → Leads P (transition_and_publish svc now st from to event_type extra) P
  unfolding transition_and_publish transition_body
  transition_and_publish-Leads svc now st from to event_type extra h =
      Leads-transaction _ _ _ tt tt (
        Leads-then _ _ (update_settlement-Leads _ _ _ tt (λ x. refl) (λ x. refl))
          (λ moved. finish_transition-Leads svc st event_type extra moved h))

  park-Leads :
      (svc : Services) (now : ℕ) (st : Settlement) (sent : Result Unit Unit)
      → Leads P (park svc now st sent) P
  unfolding park
  park-Leads svc now st (err _) = Leads-pure false
  park-Leads svc now st (ok _) =
      Leads-then _ _ (transition_and_publish-Leads svc now st _ _ _ _ (set_paged-Leads st.id now))
        (λ _. Leads-pure true)

  ask_by_hand-Leads :
      (svc : Services) (now : ℕ) (st : Settlement) (reason : String) (account : Option String)
      → Leads P (ask_by_hand svc now st reason account) P
  unfolding ask_by_hand
  ask_by_hand-Leads svc now st reason none = Leads-pure false
  ask_by_hand-Leads svc now st reason (some account) = park-Leads svc now st _

  hand_over-Leads :
      (svc : Services) (now : ℕ) (st : Settlement) (reason : String)
      (raw : Result SettlementError (Option String))
      → Leads P (hand_over svc now st reason raw) P
  unfolding hand_over
  hand_over-Leads svc now st reason (err _) = Leads-pure false
  hand_over-Leads svc now st reason (ok raw) = ask_by_hand-Leads svc now st reason _

  hand_to_manual_payout-Leads :
      (svc : Services) (now : ℕ) (st : Settlement) (reason : String)
      → Leads P (hand_to_manual_payout svc now st reason) P
  unfolding hand_to_manual_payout
  hand_to_manual_payout-Leads svc now st reason =
      Leads-then _ _ (try_destination-Leads st) (hand_over-Leads svc now st reason)

  close_session-Leads :
      (now : ℕ) (st : Settlement) (moved : Bool) → Leads P (close_session now st moved) P
  unfolding close_session
  close_session-Leads now st false = Leads-pure tt
  close_session-Leads now st true =
      Leads-then _ _ (session_call-Leads _) (λ _. release_for-Leads st.session_id)

  fail_unhandled-Leads :
      (svc : Services) (now : ℕ) (st : Settlement) (handled : Bool)
      → Leads P (fail_unhandled svc now st handled) P
  unfolding fail_unhandled
  fail_unhandled-Leads svc now st true = Leads-pure tt
  fail_unhandled-Leads svc now st false =
      Leads-then _ _ (transition_and_publish-Leads svc now st _ _ _ _ (set_paged-Leads st.id now))
        (close_session-Leads now st)

  pub fail_settlement-Leads :
      (svc : Services) (now : ℕ) (st : Settlement) (reason : String)
      → Leads P (fail_settlement svc now st reason) P
  unfolding fail_settlement
  fail_settlement-Leads svc now st reason =
      Leads-then _ _
        (Leads-if _ _ _ (hand_to_manual_payout-Leads svc now st reason) (Leads-pure false))
        (fail_unhandled-Leads svc now st)
