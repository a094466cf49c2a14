-- ===== src/Session/Steps.antt =====
-- Every operation of internal/session, and any sequence of them with the calls of other modules in
-- between, moves sessions along the state machine.
use payment_engine_v.Base.{
  ℕ, Bool, true, Option, none, some, List, [], ◌∷◌, ◌≡◌, refl, arith, inl, inr, Bool-cases,
}
use payment_engine_v.Db.{query}
use payment_engine_v.Db.Keeps.{Keeps-pure, Keeps, Keeps-query, Keeps-bind}
use payment_engine_v.Session.Tables.{
  Status, screening, compliance_hold, pending, expired, deposit_detected, deposit_confirmed,
  HoldCase, Session, SessionEvent, same_status,
}
use payment_engine_v.Session.Cas.{database_failed}
use payment_engine_v.Session.Handlers.{
  may_move, move_by_reservation, announce, transition_by_reservation, handle_deposit_detected,
  handle_deposit_confirmed,
}
use payment_engine_v.Session.Ttl.{
  is_stale, expire_pre_deposit, is_timed_out, expire_timed_out_holds, mark_rows, publish_breaches,
  mark_body, mark_sla_breaches, sweep_once,
}
use payment_engine_v.Session.Diagram
use payment_engine_v.Session.Diagram.{
  ◌⟶◌, ◌⟶*◌, here, then, ⟶*-trans, one_step, same_status_lem, is_unfunded, is_paid, is_closed,
  paid_stays, closed_stays,
}
use payment_engine_v.Session.Evolves.{moved_to, Grown-update, evolves}
use payment_engine_v.Session.Moves.{moves, publish-evolves}

move_by_reservation-evolves :
    (reservation_id : ℕ) (from to : Status) (now : ℕ)
    → ((x : Session) → may_move reservation_id from to x ≡ true → x.status ⟶ to)
    → Keeps evolves (query database_failed (move_by_reservation reservation_id from to now))
unfolding move_by_reservation
move_by_reservation-evolves reservation_id from to now h = Keeps-query _ _ (λ s.
    Grown-update _ _ (λ x met. moved_to (ground arith) refl refl (one_step (h x met))) s.sessions)

announce-evolves :
    (bus : Bool) (reservation_id : ℕ) (event : ℕ → ℕ → SessionEvent) (moved : Option Session)
    → Keeps evolves (announce bus reservation_id event moved)
unfolding announce
announce-evolves bus reservation_id event none = Keeps-pure tt
announce-evolves bus reservation_id event (some x) = publish-evolves bus _

detected_from :
    (r : ℕ) (x : Session)
    → may_move r pending deposit_detected x ≡ true
    → x.status ⟶ deposit_detected
detected_from r x h = rw (same_status_lem x.status pending (ground arith)) Diagram.detect

confirmed_from :
    (r : ℕ) (x : Session)
    → may_move r deposit_detected deposit_confirmed x ≡ true
    → x.status ⟶ deposit_confirmed
confirmed_from r x h = elim (Bool-cases (same_status x.status pending)) [
  | inl p ↦ rw (same_status_lem x.status pending p) Diagram.confirm_pending
  | inr q ↦ rw (same_status_lem x.status deposit_detected (ground arith)) Diagram.confirm
]

pub handle_deposit_detected-evolves :
    (bus : Bool) (r now : ℕ) → Keeps evolves (handle_deposit_detected bus r now)
unfolding handle_deposit_detected transition_by_reservation
handle_deposit_detected-evolves bus r now =
    Keeps-bind _ _ (move_by_reservation-evolves _ _ _ _ (detected_from r)) (announce-evolves _ _ _)

pub handle_deposit_confirmed-evolves :
    (bus : Bool) (r now : ℕ) → Keeps evolves (handle_deposit_confirmed bus r now)
unfolding handle_deposit_confirmed transition_by_reservation
handle_deposit_confirmed-evolves bus r now =
    Keeps-bind _ _ (move_by_reservation-evolves _ _ _ _ (confirmed_from r)) (announce-evolves _ _ _)

stale_expires : (clock now : ℕ) (x : Session) → is_stale clock now x ≡ true → x.status ⟶ expired
stale_expires clock now x h = elim (Bool-cases (same_status x.status pending)) [
  | inl p ↦ rw (same_status_lem x.status pending p) Diagram.expire_pending
  | inr q ↦ rw (same_status_lem x.status screening (ground arith)) Diagram.expire_screening
]

hold_expires :
    (cases : List HoldCase) (now : ℕ) (x : Session)
    → is_timed_out cases now x ≡ true
    → x.status ⟶ expired
hold_expires cases now x h =
    rw (same_status_lem x.status compliance_hold (ground arith)) Diagram.expire_hold

expire_pre_deposit-evolves : (clock now : ℕ) → Keeps evolves (expire_pre_deposit clock now)
unfolding expire_pre_deposit
expire_pre_deposit-evolves clock now = Keeps-query _ _ (λ s.
    Grown-update _ _
      (λ x met. moved_to (ground arith) refl refl (one_step (stale_expires clock now x met)))
      s.sessions)

expire_timed_out_holds-evolves : (now : ℕ) → Keeps evolves (expire_timed_out_holds now)
unfolding expire_timed_out_holds
expire_timed_out_holds-evolves now = Keeps-query _ _ (λ s.
    Grown-update _ _
      (λ x met. moved_to (ground arith) refl refl (one_step (hold_expires s.cases now x met)))
      s.sessions)

mark_rows-evolves : (clock now : ℕ) → Keeps evolves (query database_failed (mark_rows clock now))
unfolding mark_rows
mark_rows-evolves clock now =
    Keeps-query _ _
      (λ s. Grown-update _ _ (λ x met. moved_to (ground arith) refl refl here) s.sessions)

publish_breaches-evolves :
    (bus : Bool) (rows : List Session) → Keeps evolves (publish_breaches bus rows)
unfolding publish_breaches
publish_breaches-evolves bus [] = Keeps-pure tt
publish_breaches-evolves bus (x ∷ rows) =
    Keeps-bind _ _ (publish-evolves bus _) (λ _. publish_breaches-evolves bus rows)

mark_body-evolves : (bus : Bool) (clock now : ℕ) → Keeps evolves (mark_body bus clock now)
unfolding mark_body
mark_body-evolves bus clock now =
    search (moves, mark_rows-evolves, publish_breaches-evolves) depth 8

pub sweep_once-evolves : (bus : Bool) (clock now : ℕ) → Keeps evolves (sweep_once bus clock now)
unfolding sweep_once mark_sla_breaches
sweep_once-evolves bus clock now =
    search (moves, expire_pre_deposit-evolves, expire_timed_out_holds-evolves, mark_body-evolves)
      depth 8
