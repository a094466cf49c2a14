-- ===== src/Session/Moves.antt =====
-- Every operation of internal/session moves sessions along the state machine, whatever the database
-- and the other modules answer.
use payment_engine_v.Base.{ℕ, Bool, true, false, Option, none, some, refl, arith}
use payment_engine_v.Db.{ok, err, query}
use payment_engine_v.Db.Keeps.{
  Keeps-pure, Keeps-fail, keeps_rules, Preorder, Keeps, Keeps-query, Keeps-bind, Keeps-transaction,
  Keeps-if,
}
use payment_engine_v.Session.Tables.{
  Status, screening, compliance_hold, rejected, pending, CaseStatus, hold, refused_case, approved,
  unexpected, Instructions, Session, Published,
}
use payment_engine_v.Session.Services.{
  Corridor, Found, found, not_found, lookup_failed, Lock, Reply, Services,
}
use payment_engine_v.Session.Cas.{
  resolve_failed, transition_failed, database_failed, SessionError, is_at, update_session,
  cas_transition, transition_to_hold, transition_to_rejected,
}
use payment_engine_v.Session.Create.{
  expect, require, expect_corridor, get_session, publish, pending_body, transition_to_pending,
  Request, new_session, insert_session, decide_session, admit, create_session, resolve_case,
  expect_case, approve_hold, resolve_compliance_hold,
}
use payment_engine_v.Session.Diagram
use payment_engine_v.Session.Diagram.{◌⟶◌, ◌⟶*◌, here, then, one_step, same_status_lem}
use payment_engine_v.Session.Evolves.{
  moved_to, added, Grown-refl, evolves, update_session-evolves, is_at_status,
}

pub cas_transition-evolves :
    (id : ℕ) (from to : Status) (now : ℕ)
    → from ⟶* to
    → Keeps evolves (cas_transition id from to now)
unfolding cas_transition
cas_transition-evolves id from to now path =
    update_session-evolves _ _ (is_at id from) _
      (λ x h. moved_to (ground arith) (is_at_status id from x h) refl path)

pub transition_to_hold-evolves :
    (id case_id now : ℕ) → Keeps evolves (transition_to_hold id case_id now)
unfolding transition_to_hold
transition_to_hold-evolves id case_id now =
    update_session-evolves _ _ (is_at id screening) _
      (λ x h. moved_to (ground arith) (is_at_status id screening x h) refl (one_step Diagram.hold))

pub transition_to_rejected-evolves :
    (id : ℕ) (from : Status) (now : ℕ)
    → from ⟶ rejected
    → Keeps evolves (transition_to_rejected id from now)
unfolding transition_to_rejected
transition_to_rejected-evolves id from now e =
    update_session-evolves _ _ (is_at id from) _
      (λ x h. moved_to (ground arith) (is_at_status id from x h) refl (one_step e))

pub publish-evolves : (bus : Bool) (e : Published) → Keeps evolves (publish bus e)
unfolding publish
publish-evolves false e = Keeps-pure tt
publish-evolves true e = Keeps-query _ _ (λ s. Grown-refl s.sessions)

pub expect-evolves : {A : Type 0} (e : SessionError) (r : Reply A) → Keeps evolves (expect e r)
unfolding expect
expect-evolves e (ok a) = Keeps-pure a
expect-evolves e (err _) = Keeps-fail e

pub require-evolves : (b : Bool) (e : SessionError) → Keeps evolves (require b e)
unfolding require
require-evolves true e = Keeps-pure tt
require-evolves false e = Keeps-fail e

pub expect_corridor-evolves : (f : Found) → Keeps evolves (expect_corridor f)
unfolding expect_corridor
expect_corridor-evolves (found c) = Keeps-pure c
expect_corridor-evolves not_found = Keeps-fail _
expect_corridor-evolves lookup_failed = Keeps-fail _

pub expect_case-evolves : (c : Option ℕ) → Keeps evolves (expect_case c)
unfolding expect_case
expect_case-evolves none = Keeps-fail _
expect_case-evolves (some c) = Keeps-pure c

pub get_session-evolves : (id : ℕ) → Keeps evolves (get_session id)
unfolding get_session
get_session-evolves id = Keeps-query _ _ (λ s. Grown-refl s.sessions)

pub resolve_case-evolves :
    (case_id : ℕ) (is_approved : Bool)
    → Keeps evolves (query resolve_failed (resolve_case case_id is_approved))
unfolding resolve_case
resolve_case-evolves case_id is_approved = Keeps-query _ _ (λ s. Grown-refl s.sessions)

pub insert_session-evolves :
    (id : ℕ) (r : Request) (corridor_id now : ℕ)
    → Keeps evolves (query database_failed (insert_session (new_session id r corridor_id now)))
unfolding insert_session
insert_session-evolves id r corridor_id now =
    Keeps-query _ _ (λ s. added here (Grown-refl s.sessions))

pub ruleset moves = (
  keeps_rules, transition_to_hold-evolves, transition_to_rejected-evolves, publish-evolves,
  expect-evolves, require-evolves, expect_corridor-evolves, expect_case-evolves,
  get_session-evolves, resolve_case-evolves, insert_session-evolves,
)

set_pending-evolves :
    (id : ℕ) (from : Status) (lock : Lock) (i : Instructions) (now : ℕ)
    → from ⟶ pending
    → Keeps evolves (
        query transition_failed (
          update_session transition_failed (is_at id from) (λ x. record x {
            status = pending;
            rate_lock_id = some lock.id;
            deposit_reservation_id = some i.reservation_id;
            deposit_instructions = some i;
            updated_at = now;
          })))
set_pending-evolves id from lock i now e =
    update_session-evolves _ _ (is_at id from) _
      (λ x h. moved_to (ground arith) (is_at_status id from x h) refl (one_step e))

pending_body-evolves :
    (bus : Bool) (id tenant_id : ℕ) (corr : Corridor) (from : Status) (lock : Lock)
    (i : Instructions) (now : ℕ)
    → from ⟶ pending
    → Keeps evolves (pending_body bus id tenant_id corr from lock i now)
unfolding pending_body
pending_body-evolves bus id tenant_id corr from lock i now e = search (moves, set_pending-evolves)

pub transition_to_pending-evolves :
    (svc : Services) (bus : Bool) (id tenant_id : ℕ) (corr : Corridor) (from : Status) (now : ℕ)
    → from ⟶ pending
    → Keeps evolves (transition_to_pending svc bus id tenant_id corr from now)
unfolding transition_to_pending
transition_to_pending-evolves svc bus id tenant_id corr from now e =
    search (moves, pending_body-evolves) depth 8

decide_session-evolves :
    (svc : Services) (bus : Bool) (id tenant_id : ℕ) (corr : Corridor) (case_id now : ℕ)
    (decision : CaseStatus)
    → Keeps evolves (decide_session svc bus id tenant_id corr case_id now decision)
unfolding decide_session
decide_session-evolves svc bus id tenant_id corr case_id now hold =
    transition_to_hold-evolves id case_id now
decide_session-evolves svc bus id tenant_id corr case_id now refused_case =
    transition_to_rejected-evolves id screening now Diagram.reject
decide_session-evolves svc bus id tenant_id corr case_id now approved =
    transition_to_pending-evolves svc bus id tenant_id corr screening now Diagram.approve
decide_session-evolves svc bus id tenant_id corr case_id now unexpected = Keeps-fail _

admit-evolves : (svc : Services) (r : Request) → Keeps evolves (admit svc r)
unfolding admit
admit-evolves svc r = search moves depth 10

pub create_session-evolves :
    (svc : Services) (bus : Bool) (new_id : ℕ) (r : Request) (now : ℕ)
    → Keeps evolves (create_session svc bus new_id r now)
unfolding create_session
create_session-evolves svc bus new_id r now =
    search (moves, admit-evolves, decide_session-evolves) depth 12

approve_hold-evolves :
    (svc : Services) (bus : Bool) (id : ℕ) (x : Session) (now : ℕ)
    → Keeps evolves (approve_hold svc bus id x now)
unfolding approve_hold
approve_hold-evolves svc bus id x now = Keeps-bind _ _ (expect-evolves _ _) (λ corr.
    transition_to_pending-evolves svc bus id x.tenant_id corr compliance_hold now
      Diagram.approve_hold)

pub resolve_compliance_hold-evolves :
    (svc : Services) (bus : Bool) (id : ℕ) (is_approved : Bool) (now : ℕ)
    → Keeps evolves (resolve_compliance_hold svc bus id is_approved now)
unfolding resolve_compliance_hold
resolve_compliance_hold-evolves svc bus id is_approved now =
    search (moves, approve_hold-evolves, Diagram.reject_hold) depth 12
