-- ===== src/Session/Admission.antt =====
-- Who gets a session, and what becomes of an approved hold (internal/session/session.go,
-- `CreateSession` and `ResolveComplianceHold`).
use payment_engine_v.Base.{
  ℕ, Bool, true, false, not, some, List, [], ◌≡◌, refl, arith, ap, ◌⊎◌, inl, inr, update_returning,
  update_again, if◌then◌else◌, Bool-cases, Option-cases, head_row,
}
use payment_engine_v.Db.{Answer, ok, err, Action, query, ◌>>=◌}
use payment_engine_v.Db.{Result-cases, continue}
use payment_engine_v.Session.Tables.{compliance_hold, refused_case, approved, Session, Tables}
use payment_engine_v.Session.Services.{Corridor, Found, found, not_found, lookup_failed, Services}
use payment_engine_v.Session.Cas.{
  resolve_failed, SessionError, transition_to_rejected, not_entitled, invalid_destination,
  entitlement_failed,
}
use payment_engine_v.Session.Create.{
  expect, require, expect_corridor, get_session, transition_to_pending, Request, admit,
  create_session, resolve_case, find_session, held_case, is_held, expect_case, approve_hold,
  resolve_compliance_hold,
}

-- The checks that a request passes before its session is written.
pub record IsAdmitted (svc : Services) (r : Request) (corr : Corridor) : Type 0 where
  pub supported : svc.get_corridor r.crypto_asset r.crypto_network r.fiat_currency ≡ found corr
  pub payable : svc.is_valid_destination corr r.payout_destination ≡ true
  pub entitled : svc.check_entitlement r.tenant_id corr.id ≡ ok true

abbrev AdmitEnd : Services → Request → Tables → List Answer → Type 0
AdmitEnd svc r s answers =
    ((e : SessionError) × (admit svc r s answers ≡ (err e, s, answers)))
    ⊎ ((corr : Corridor) × IsAdmitted svc r corr × (admit svc r s answers ≡ (ok corr, s, answers)))

admit_found :
    (svc : Services) (r : Request) (s : Tables) (answers : List Answer) (f : Found)
    → svc.get_corridor r.crypto_asset r.crypto_network r.fiat_currency ≡ f
    → AdmitEnd svc r s answers
unfolding admit expect_corridor expect require ◌>>=◌
admit_found svc r s answers not_found p = rw p (inl (_, refl))
admit_found svc r s answers lookup_failed p = rw p (inl (_, refl))
admit_found svc r s answers (found corr) p =
    elim (Bool-cases (svc.is_valid_destination corr r.payout_destination)) [
      | inr bad ↦ inl (invalid_destination, rw (p, bad) refl)
      | inl good ↦ elim (Result-cases (svc.check_entitlement r.tenant_id corr.id)) [
        | inr (e, q) ↦ inl (entitlement_failed, rw (p, good, q) refl)
        | inl (false, q) ↦ inl (not_entitled, rw (p, good, q) refl)
        | inl (true, q) ↦
            inr (corr, record { supported = p; payable = good; entitled = q }, rw (p, good, q) refl)
      ]
    ]

-- Whatever the database and the other modules answer, `CreateSession` changes the tables only for a
-- request whose corridor is supported, whose destination is valid for that corridor and whose tenant
-- is entitled to it; any other request fails and leaves the tables as they were.
pub create_session-IsAdmitted :
    (svc : Services) (bus : Bool) (new_id : ℕ) (r : Request) (now : ℕ) (s : Tables)
    (answers : List Answer)
    → ((e : SessionError) × (create_session svc bus new_id r now s answers ≡ (err e, s, answers)))
      ⊎ ((corr : Corridor) × IsAdmitted svc r corr)
unfolding create_session ◌>>=◌
create_session-IsAdmitted svc bus new_id r now s answers =
    elim (admit_found svc r s answers _ refl) [
      | inl (e, p) ↦ inl (e, rw p refl)
      | inr (corr, a, _) ↦ inr (corr, a)
    ]

resolve_again :
    (case_id : ℕ) (is_approved : Bool) (s : Tables)
    → let t = record s {
      cases = (update_returning (is_held case_id) (λ k. record k { status = approved }) s.cases).1;
    } in
      query resolve_failed (resolve_case case_id is_approved) t [] ≡ (err resolve_failed, t, [])
unfolding query resolve_case
resolve_again case_id is_approved s =
    rw
      (update_again (is_held case_id) (λ k. record k { status = approved })
        (λ k. record k { status = if is_approved then approved else refused_case })
        (λ k. ground arith) s.cases)
      refl

-- Where the database answers and an analyst approves a held session, but no rate can be locked: the
-- session stays in `compliance_hold`, and every later attempt to resolve it, to approve or to reject
-- it, fails and changes nothing, even if a rate can be locked by then.
pub approved_hold_stuck :
    (svc svc' : Services) (bus is_approved : Bool) (id now now' : ℕ) (s : Tables) (x : Session)
    (case_id : ℕ) (corr : Corridor)
    → find_session id s.sessions ≡ some x
    → held_case x ≡ some case_id
    → svc.get_corridor_by_id x.corridor_id ≡ ok corr
    → svc.lock_rate corr.crypto_asset corr.fiat_currency ≡ err tt
    → let t = (resolve_compliance_hold svc bus id true now s []).1 in
      (t.sessions ≡ s.sessions)
      × (resolve_compliance_hold svc' bus id is_approved now' t [] ≡ (err resolve_failed, t, []))
unfolding resolve_compliance_hold get_session expect_case resolve_case approve_hold
    transition_to_pending expect ◌>>=◌
approved_hold_stuck svc svc' bus is_approved id now now' s x case_id corr p q c l =
    let after : Unit → Action SessionError Tables Session = λ _.
      if not is_approved
      then transition_to_rejected id compliance_hold now'
      else approve_hold svc' bus id x now' in
    let again = ap (λ o. continue o after) (resolve_again case_id is_approved s) in
    elim (Option-cases (
      head_row
        (update_returning (is_held case_id) (λ k. record k { status = approved }) s.cases).0)) [
          | inl n ↦ rw (p, q, n, p, q) (refl, again)
          | inr (k, n) ↦ rw (p, q, n, c, p, l) (refl, rw (p, q) again)
        ]
