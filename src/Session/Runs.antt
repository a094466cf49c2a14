-- ===== src/Session/Runs.antt =====
-- Sequences of the operations of internal/session, each with its own answers of the database, and
-- of changes of the compliance cases in between.
use payment_engine_v.Base.{◌≤◌, ℕ, Bool, true, List, [], ◌∷◌, ◌≡◌, refl, sym, ◌⊎◌, inl, inr}
use payment_engine_v.Db.{Answer, Action}
use payment_engine_v.Session.Tables.{
  deposit_confirmed, settling, settled, settlement_failed, reversed, reversal_resolved, HoldCase,
  Session, Tables,
}
use payment_engine_v.Session.Services.{Services}
use payment_engine_v.Session.Cas.{
  SessionError, transition_to_settling, retry_to_settling, transition_to_settled,
  transition_to_settlement_failed, transition_to_reversed, transition_to_reversal_resolved,
}
use payment_engine_v.Session.Create.{Request, create_session, resolve_compliance_hold}
use payment_engine_v.Session.Handlers.{handle_deposit_detected, handle_deposit_confirmed}
use payment_engine_v.Session.Ttl.{sweep_once}
use payment_engine_v.Session.Diagram
use payment_engine_v.Session.Diagram.{
  ◌⟶◌, ◌⟶*◌, here, then, ⟶*-trans, one_step, same_status_lem, is_unfunded, is_paid, is_closed,
  paid_stays, paid_rank, paid_rank-le, closed_stays,
}
use payment_engine_v.Session.Evolves.{
  SameTerms, IsSuccessor, Grown, nil, keep, added, Grown-refl, Grown-trans,
}
use payment_engine_v.Session.Moves.{
  cas_transition-evolves, create_session-evolves, resolve_compliance_hold-evolves,
}
use payment_engine_v.Session.Steps.{
  handle_deposit_detected-evolves, handle_deposit_confirmed-evolves, sweep_once-evolves,
}

pub data Op : Type 0 where
  create_op : (new_id : ℕ) → Request → (now : ℕ) → Op
  resolve_op : (id : ℕ) (is_approved : Bool) (now : ℕ) → Op
  detected_op confirmed_op : (reservation_id now : ℕ) → Op
  settle_op retry_failed_op retry_paged_op settled_op failed_op reversed_op resolved_op :
      (id now : ℕ) → Op
  sweep_op : (clock now : ℕ) → Op
  cases_op : List HoldCase → Op

-- The tables after an operation that returns or fails.
abbrev after : {A : Type 0} → Action SessionError Tables A → List Answer → Tables → Tables
after m answers s = (m s answers).1

module _ (svc : Services) (bus : Bool) where
  unfoldable pub perform : Op → List Answer → Tables → Tables
  perform (create_op new_id r now) = after (create_session svc bus new_id r now)
  perform (resolve_op id b now) = after (resolve_compliance_hold svc bus id b now)
  perform (detected_op r now) = after (handle_deposit_detected bus r now)
  perform (confirmed_op r now) = after (handle_deposit_confirmed bus r now)
  perform (settle_op id now) = after (transition_to_settling id now)
  perform (retry_failed_op id now) = after (retry_to_settling id settlement_failed now)
  perform (retry_paged_op id now) = after (retry_to_settling id settling now)
  perform (settled_op id now) = after (transition_to_settled id now)
  perform (failed_op id now) = after (transition_to_settlement_failed id now)
  perform (reversed_op id now) = after (transition_to_reversed id now)
  perform (resolved_op id now) = after (transition_to_reversal_resolved id now)
  perform (sweep_op clock now) = after (sweep_once bus clock now)
  perform (cases_op cases) = λ answers s. record s { cases = cases }

  unfoldable pub run : List (Op × List Answer) → Tables → Tables
  run [] s = s
  run ((op, answers) ∷ ops) s = run ops (perform op answers s)

  pub perform-Grown :
      (op : Op) (answers : List Answer) (s : Tables)
      → Grown s.sessions (perform op answers s).sessions
  unfolding perform transition_to_settling retry_to_settling transition_to_settled
      transition_to_settlement_failed transition_to_reversed transition_to_reversal_resolved
  perform-Grown (create_op i r n) answers s = (create_session-evolves svc bus i r n).at s answers
  perform-Grown (resolve_op id b n) answers s =
      (resolve_compliance_hold-evolves svc bus id b n).at s answers
  perform-Grown (detected_op r n) answers s = (handle_deposit_detected-evolves bus r n).at s answers
  perform-Grown (confirmed_op r n) answers s =
      (handle_deposit_confirmed-evolves bus r n).at s answers
  perform-Grown (settle_op id n) answers s =
      (cas_transition-evolves id deposit_confirmed settling n (one_step Diagram.settle)).at s
        answers
  perform-Grown (retry_failed_op id n) answers s =
      (cas_transition-evolves id settlement_failed settling n (one_step Diagram.retry)).at s answers
  perform-Grown (retry_paged_op id n) answers s =
      (cas_transition-evolves id settling settling n here).at s answers
  perform-Grown (settled_op id n) answers s =
      (cas_transition-evolves id settling settled n (one_step Diagram.pay)).at s answers
  perform-Grown (failed_op id n) answers s =
      (cas_transition-evolves id settling settlement_failed n (one_step Diagram.give_up)).at s
        answers
  perform-Grown (reversed_op id n) answers s =
      (cas_transition-evolves id settled reversed n (one_step Diagram.return)).at s answers
  perform-Grown (resolved_op id n) answers s =
      (cas_transition-evolves id reversed reversal_resolved n (one_step Diagram.resolve)).at s
        answers
  perform-Grown (sweep_op clock n) answers s = (sweep_once-evolves bus clock n).at s answers
  perform-Grown (cases_op cases) answers s = Grown-refl s.sessions

  run-Grown : (ops : List (Op × List Answer)) (s : Tables) → Grown s.sessions (run ops s).sessions
  unfolding run
  run-Grown [] s = Grown-refl s.sessions
  run-Grown ((op, answers) ∷ ops) s =
      Grown-trans (perform-Grown op answers s) (run-Grown ops (perform op answers s))

abbrev pub Stored : Session → List Session → Type 0
Stored x [] = ⊥
Stored x (y ∷ ys) = (y ≡ x) ⊎ Stored x ys

IsSuccessor-of :
    {xs ys : List Session} (x : Session)
    → Grown xs ys
    → Stored x xs
    → (y : Session) × Stored y ys × IsSuccessor x y
IsSuccessor-of x nil i = elim i [ ]
IsSuccessor-of x (keep {y = y} p g) (inl e) = (y, inl refl, rw (sym e) p)
IsSuccessor-of x (keep p g) (inr i) = let (y, at, q) = IsSuccessor-of x g i in (y, inr at, q)
IsSuccessor-of x (added b g) i = let (y, at, q) = IsSuccessor-of x g i in (y, inr at, q)

-- After any sequence of operations, with any answers of the database and of the other modules, a
-- stored session is still stored, with the terms it was created with, at a status that a path of
-- Session/Diagram.antt leads to. That machine has no way from `reversed` back to `settling`, which
-- docs/ARCHITECTURE.md (section 9) gives to the operators, and one from `pending` to
-- `deposit_confirmed`, which the document does not have.
pub session_for_life :
    (svc : Services) (bus : Bool) (ops : List (Op × List Answer)) (s : Tables) (x : Session)
    → Stored x s.sessions
    → (y : Session) × Stored y (run svc bus ops s).sessions × SameTerms x y × (x.status ⟶* y.status)
session_for_life svc bus ops s x i =
    let (y, at, q) = IsSuccessor-of x (run-Grown svc bus ops s) i in (y, at, q.terms, q.moved)

-- After any sequence of operations, a session that was paid out (`settled`, `reversed` or
-- `reversal_resolved`) is at the same of these three statuses or a later one: none moves it back to
-- `settling`, and once it is reversed none makes it `settled` again. So no operation takes the way
-- from `reversed` back to `settling` that docs/ARCHITECTURE.md (section 9) gives to the operators.
pub paid_for_life :
    (svc : Services) (bus : Bool) (ops : List (Op × List Answer)) (s : Tables) (x : Session)
    → Stored x s.sessions
    → is_paid x.status ≡ true
    → (y : Session) × Stored y (run svc bus ops s).sessions
      × (y.id ≡ x.id)
      × (is_paid y.status ≡ true)
      × (paid_rank x.status ≤ paid_rank y.status)
paid_for_life svc bus ops s x i h =
    let (y, at, q) = IsSuccessor-of x (run-Grown svc bus ops s) i in
    (y, at, q.terms.id, paid_stays q.moved h, paid_rank-le q.moved)

-- A session that is `rejected`, `expired` or `reversal_resolved` has the same status after any
-- sequence of operations.
pub closed_for_life :
    (svc : Services) (bus : Bool) (ops : List (Op × List Answer)) (s : Tables) (x : Session)
    → Stored x s.sessions
    → is_closed x.status ≡ true
    → (y : Session) × Stored y (run svc bus ops s).sessions × (y.id ≡ x.id) × (y.status ≡ x.status)
closed_for_life svc bus ops s x i h =
    let (y, at, q) = IsSuccessor-of x (run-Grown svc bus ops s) i in
    (y, at, q.terms.id, closed_stays q.moved h)
