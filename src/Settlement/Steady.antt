-- ===== src/Settlement/Steady.antt =====
-- The parts of a payout (internal/settlement/dispatch.go, manual.go) keep a promise about the
-- settlements' attempt counts, and fail with errors of the source alone.
use payment_engine_v.Base.{
  ℕ, String, Bool, true, false, Option, none, some, List, ◌≡◌, inl, inr, Bool-cases,
  update_returning,
}
use payment_engine_v.Db.{Answer, Result, ok, err, Action, query}
use payment_engine_v.Ledger
use payment_engine_v.Ledger.Tables.{Transaction}
use payment_engine_v.Ledger.Post.{LedgerError, already_posted}
use payment_engine_v.Ledger.Accounts.{Key}
use payment_engine_v.Session
use payment_engine_v.Session.Cas.{SessionError}
use payment_engine_v.Session.Services.{Reply}
use payment_engine_v.Settlement.Tables.{Settlement, Attempt, AttemptStatus, Published, Tables}
use payment_engine_v.Settlement.Services.{Services}
use payment_engine_v.Settlement.Calls.{
  SettlementError, ledger_call, session_call, session_return, try, draw_id, reply, expect_ledger,
  ignore_taken, claim, post_once, account, resolve_accounts, release_reservation, release_if_any,
  release_for,
}
use payment_engine_v.Settlement.Transition.{publish, finish_transition}
use payment_engine_v.Settlement.Attempts.{
  has_clash, update_attempts, mark_attempt, set_reference, set_reference_and_reason,
  tried_provider_names, destination_from, destination_of, resolve_destination, insert_row,
  insert_attempt,
}
use payment_engine_v.Settlement.Aside.{resolve_destination-aside}
use payment_engine_v.Settlement.Leads.{
  IsOfSource, Promise, Leads, Led, Leads-query, Leads-pure, Leads-fail, Leads-if, Leads-transaction,
  Leads-then,
}

-- The updates that a promise allows: those that keep each row's id and attempt count.
abbrev pub IsAside : Promise → Type 0
IsAside P =
    (p : Settlement → Bool) (f : Settlement → Settlement)
    → ((x : Settlement) → (f x).id ≡ x.id)
    → ((x : Settlement) → (f x).attempt_count ≡ x.attempt_count)
    → (xs : List Settlement) → P xs
    → P (update_returning p f xs).1

pub ruleset leads_rules = (Leads-pure, Leads-if, Leads-then)

pub session_return-Led :
    {A : Type 0} (P : Promise) (s : Tables)
    (q : Result SessionError A × Session.Tables.Tables × List Answer)
    → P s.settlements
    → Led P (session_return s q)
session_return-Led P s (ok a, t, rest) h = h
session_return-Led P s (err e, t, rest) h = tt

module _ {P : Promise} where
  pub session_call-Leads :
      {A : Type 0} (m : Action SessionError Session.Tables.Tables A) → Leads P (session_call m) P
  unfolding session_call
  session_call-Leads m = record {
    at = λ s answers h. session_return-Led P s (m s.sessions answers) h;
  }

  pub ledger_call-Leads :
      {A : Type 0} (m : Action LedgerError Ledger.Tables.Tables A) → Leads P (ledger_call m) P
  unfolding ledger_call
  ledger_call-Leads m = record { at = λ s answers h. h }

  pub draw_id-Leads : Leads P draw_id P
  unfolding draw_id
  draw_id-Leads = record { at = λ s answers h. h }

  pub reply-Leads : {A : Type 0} (r : Reply A) → Leads P (reply r) P
  unfolding reply
  reply-Leads (ok a) = Leads-pure a
  reply-Leads (err _) = Leads-fail _ tt

  pub expect_ledger-Leads : {A : Type 0} (r : Result LedgerError A) → Leads P (expect_ledger r) P
  unfolding expect_ledger
  expect_ledger-Leads (ok a) = Leads-pure a
  expect_ledger-Leads (err e) = Leads-fail _ tt

  pub ignore_taken-Leads : (r : Result LedgerError ℕ) → Leads P (ignore_taken r) P
  unfolding ignore_taken
  ignore_taken-Leads (ok _) = Leads-pure tt
  ignore_taken-Leads (err already_posted) = Leads-pure tt
  ignore_taken-Leads (err _) = Leads-fail _ tt

  pub account-Leads : (k : Key) (unit_type name : String) → Leads P (account k unit_type name) P
  unfolding account
  account-Leads k unit_type name =
      search (leads_rules, draw_id-Leads, ledger_call-Leads, expect_ledger-Leads) depth 6

  pub claim-Leads : (txn : Transaction) → Leads P (claim txn) P
  unfolding claim
  claim-Leads txn = search (leads_rules, draw_id-Leads, ledger_call-Leads) depth 6

  pub post_once-Leads : (txn : Transaction) → Leads P (post_once txn) P
  unfolding post_once
  post_once-Leads txn = search (leads_rules, claim-Leads, ignore_taken-Leads) depth 6

  pub resolve_accounts-Leads :
      (tenant_id : ℕ) (crypto fiat : String) → Leads P (resolve_accounts tenant_id crypto fiat) P
  unfolding resolve_accounts
  resolve_accounts-Leads tenant_id crypto fiat = search (leads_rules, account-Leads) depth 12

  pub release_if_any-Leads : (id : Option ℕ) → Leads P (release_if_any id) P
  unfolding release_if_any release_reservation
  release_if_any-Leads none = Leads-pure tt
  release_if_any-Leads (some id) = Leads-query _ _ tt (λ s h. h)

  pub release_for-Leads : (session_id : ℕ) → Leads P (release_for session_id) P
  unfolding release_for
  release_for-Leads session_id =
      search (leads_rules, session_call-Leads, release_if_any-Leads) depth 6

  pub tried_provider_names-Leads : (id : ℕ) → Leads P (tried_provider_names id) P
  unfolding tried_provider_names
  tried_provider_names-Leads id = Leads-query _ _ tt (λ s h. h)

  pub update_attempts-Leads :
      (e : SettlementError) (p : Attempt → Bool) (f : Attempt → Attempt)
      → IsOfSource e
      → Leads P (query e (update_attempts p f)) P
  unfolding update_attempts
  update_attempts-Leads e p f h = Leads-query _ _ h (λ s x. x)

  pub mark_attempt-Leads :
      (id : ℕ) (bucket : AttemptStatus) (reason : String) (now : ℕ)
      → Leads P (mark_attempt id bucket reason now) P
  unfolding mark_attempt
  mark_attempt-Leads id bucket reason now = update_attempts-Leads _ _ _ tt

  pub set_reference-Leads : (id : ℕ) (reference : String) → Leads P (set_reference id reference) P
  unfolding set_reference
  set_reference-Leads id reference =
      Leads-then _ _ (update_attempts-Leads _ _ _ tt) (λ _. Leads-pure tt)

  pub set_reference_and_reason-Leads :
      (id : ℕ) (reference reason : String)
      → Leads P (set_reference_and_reason id reference reason) P
  unfolding set_reference_and_reason
  set_reference_and_reason-Leads id reference reason =
      Leads-then _ _ (update_attempts-Leads _ _ _ tt) (λ _. Leads-pure tt)

  pub insert_attempt-Leads : (a : Attempt) → Leads P (insert_attempt a) P
  unfolding insert_attempt insert_row
  insert_attempt-Leads a = Leads-query _ _ tt (λ s h. elim (Bool-cases (has_clash a s.attempts)) [
    | inl clash ↦ rw (clash, insert_row) tt
    | inr free ↦ rw (free, insert_row) h
  ])

  pub publish-Leads : (bus : Bool) (e : Published) → Leads P (publish bus e) P
  unfolding publish
  publish-Leads false e = Leads-pure tt
  publish-Leads true e = Leads-query _ _ tt (λ s h. h)

  pub destination_from-Leads :
      (st : Settlement) (a : Option Attempt) → Leads P (destination_from st a) P
  unfolding destination_from
  destination_from-Leads st (some a) = Leads-pure _
  destination_from-Leads st none = Leads-then _ _ (session_call-Leads _) (λ sess. Leads-pure _)

  pub destination_of-Leads : (st : Settlement) (d : Option String) → Leads P (destination_of st d) P
  unfolding destination_of
  destination_of-Leads st (some d) = Leads-pure _
  destination_of-Leads st none =
      Leads-then _ _ (Leads-query _ _ tt (λ s h. h)) (destination_from-Leads st)

  pub resolve_destination-Leads : (st : Settlement) → Leads P (resolve_destination st) P
  unfolding resolve_destination
  resolve_destination-Leads st = destination_of-Leads st _

  -- A method that leaves the settlements alone, and whose error is looked at.
  pub try_destination-Leads : (st : Settlement) → Leads P (try (resolve_destination st)) P
  unfolding try
  try_destination-Leads st = record {
    at = λ s answers h. rw ((resolve_destination-aside st).at s answers).1 h;
  }

  pub finish_transition-Leads :
      (svc : Services) (st : Settlement) (event_type : String)
      (extra : Action SettlementError Tables Unit) (moved : Bool)
      → Leads P extra P
      → Leads P (finish_transition svc st event_type extra moved) P
  unfolding finish_transition
  finish_transition-Leads svc st event_type extra false h = Leads-pure _
  finish_transition-Leads svc st event_type extra true h =
      search (leads_rules, publish-Leads) depth 6
