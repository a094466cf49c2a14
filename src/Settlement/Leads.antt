-- ===== src/Settlement/Leads.antt =====
-- Methods of internal/settlement that leave a promise about the settlements behind when they
-- succeed, and that end in an error of the source when they fail: the model's fuel did not run out.
use payment_engine_v.Base.{Bool, true, false, List, if◌then◌else◌}
use payment_engine_v.Db.{
  Answer, done, refused, lost, Result, ok, err, Exit, commit, rollback, Action, pure, fail, query,
  answered, next_answer, later_answers, committed, close_tx, begun, transaction, continue, ◌>>=◌,
}
use payment_engine_v.Settlement.Tables.{Settlement, Tables}
use payment_engine_v.Settlement.Calls.{SettlementError, out_of_fuel}

abbrev pub Promise : Type 1
Promise = List Settlement → Type 0

abbrev pub IsOfSource : SettlementError → Type 0
IsOfSource out_of_fuel = ⊥
IsOfSource _ = Unit

abbrev pub Led : {A : Type 0} → Promise → Result SettlementError A × Tables × List Answer → Type 0
Led Q (ok a, t, _) = Q t.settlements
Led Q (err e, t, _) = IsOfSource e

pub record Leads {A : Type 0} (P : Promise) (m : Action SettlementError Tables A) (Q : Promise)
    : Type 0 where
  pub at : (s : Tables) (answers : List Answer) → P s.settlements → Led Q (m s answers)

-- Nothing is promised.
abbrev pub Anything : Promise
Anything _ = Unit

abbrev LedOne : {A : Type 0} → Promise → Result SettlementError A × Tables → Type 0
LedOne Q (ok a, t) = Q t.settlements
LedOne Q (err e, t) = IsOfSource e

-- One call to the database, by its answer.
answered-Led :
    {A : Type 0} (Q : Promise) (a : Answer) (e : SettlementError)
    (q : Result SettlementError A × Tables) (s : Tables) (rest : List Answer)
    → IsOfSource e
    → LedOne Q q
    → Led Q (answered a e q s rest)
answered-Led Q done e (ok a, t) s rest p h = h
answered-Led Q done e (err x, t) s rest p h = h
answered-Led Q refused e (r, t) s rest p h = p
answered-Led Q lost e (r, t) s rest p h = p

committed-Led :
    {A : Type 0} (P : Promise) (a : Answer) (e : SettlementError) (x : A) (t s : Tables)
    (rest : List Answer)
    → IsOfSource e
    → P t.settlements
    → Led P (committed a e x t s rest)
committed-Led P done e x t s rest p h = h
committed-Led P refused e x t s rest p h = p
committed-Led P lost e x t s rest p h = p

close-Led :
    {A : Type 0} (P : Promise) (e : SettlementError) (s : Tables)
    (q : Result SettlementError (Exit A) × Tables × List Answer)
    → IsOfSource e
    → P s.settlements
    → Led P q
    → Led P (close_tx e s q)
close-Led P e s (err x, t, rest) p h k = k
close-Led P e s (ok (rollback a), t, rest) p h k = h
close-Led P e s (ok (commit a), t, rest) p h k =
    committed-Led P (next_answer rest) e a t s (later_answers rest) p k

weaken-Led :
    {A : Type 0} {Q' : Promise} (Q : Promise) (q : Result SettlementError A × Tables × List Answer)
    → ((xs : List Settlement) → Q xs → Q' xs)
    → Led Q q
    → Led Q' q
weaken-Led Q (ok a, t, rest) g h = g t.settlements h
weaken-Led Q (err e, t, rest) g h = h

continue-Led :
    {A B : Type 0} {R : Promise} (Q : Promise) (q : Result SettlementError A × Tables × List Answer)
    (f : A → Action SettlementError Tables B)
    → Led Q q
    → ((a : A) → Leads Q (f a) R)
    → Led R (continue q f)
continue-Led Q (ok a, t, rest) f h k = (k a).at t rest h
continue-Led Q (err e, t, rest) f h k = h

module _ {A : Type 0} {P Q : Promise} where
  pub Leads-query :
      (e : SettlementError) (f : Tables → Result SettlementError A × Tables)
      → IsOfSource e
      → ((s : Tables) → P s.settlements → LedOne Q (f s))
      → Leads P (query e f) Q
  unfolding query
  Leads-query e f p h = record {
    at = λ s answers x.
        answered-Led Q (next_answer answers) e (f s) s (later_answers answers) p (h s x);
  }

  pub Leads-fail : (e : SettlementError) → IsOfSource e → Leads P (fail {A = A} e) Q
  unfolding fail
  Leads-fail e p = record { at = λ s answers x. p }

module _ {A : Type 0} {P : Promise} where
  pub Leads-pure : (a : A) → Leads P (pure a) P
  unfolding pure
  Leads-pure a = record { at = λ s answers x. x }

  pub Leads-if :
      {Q : Promise} (b : Bool) (m n : Action SettlementError Tables A)
      → Leads P m Q
      → Leads P n Q
      → Leads P (if b then m else n) Q
  Leads-if true m n h k = h
  Leads-if false m n h k = k

  begun-Led :
      (a : Answer) (b c : SettlementError) (m : Action SettlementError Tables (Exit A)) (s : Tables)
      (rest : List Answer)
      → IsOfSource b
      → IsOfSource c
      → P s.settlements
      → Leads P m P
      → Led P (begun a b c m s rest)
  begun-Led done b c m s rest p q x h = close-Led P c s (m s rest) q x (h.at s rest x)
  begun-Led refused b c m s rest p q x h = p
  begun-Led lost b c m s rest p q x h = p

  pub Leads-transaction :
      (b c : SettlementError) (m : Action SettlementError Tables (Exit A))
      → IsOfSource b
      → IsOfSource c
      → Leads P m P
      → Leads P (transaction b c m) P
  unfolding transaction
  Leads-transaction b c m p q h = record {
    at = λ s answers x. begun-Led (next_answer answers) b c m s (later_answers answers) p q x h;
  }

module _ {A : Type 0} {P Q P' Q' : Promise} where
  pub Leads-weaken :
      (m : Action SettlementError Tables A)
      → ((xs : List Settlement) → P' xs → P xs)
      → ((xs : List Settlement) → Q xs → Q' xs)
      → Leads P m Q
      → Leads P' m Q'
  Leads-weaken m f g h = record {
    at = λ s answers x. weaken-Led Q (m s answers) g (h.at s answers (f s.settlements x));
  }

module _ {A B : Type 0} {P Q R : Promise} where
  pub Leads-bind :
      (m : Action SettlementError Tables A) (f : A → Action SettlementError Tables B)
      → Leads P m Q
      → ((a : A) → Leads Q (f a) R)
      → Leads P (m >>= f) R
  unfolding ◌>>=◌
  Leads-bind m f h k = record {
    at = λ s answers x. continue-Led Q (m s answers) f (h.at s answers x) k;
  }

-- A first step that keeps the promise.
pub Leads-then :
    {A B : Type 0} {P R : Promise} (m : Action SettlementError Tables A)
    (f : A → Action SettlementError Tables B)
    → Leads P m P
    → ((a : A) → Leads P (f a) R)
    → Leads P (m >>= f) R
Leads-then m f h k = Leads-bind m f h k

-- With a promise about the result too.
abbrev YieldsEnd :
    {A : Type 0} → (A → Promise) → Result SettlementError A × Tables × List Answer → Type 0
YieldsEnd Q (ok a, t, _) = Q a t.settlements
YieldsEnd Q (err e, t, _) = IsOfSource e

pub record Yields {A : Type 0} (P : Promise) (m : Action SettlementError Tables A) (Q : A → Promise)
    : Type 0 where
  pub at : (s : Tables) (answers : List Answer) → P s.settlements → YieldsEnd Q (m s answers)

pub Yields-pure :
    {A : Type 0} {P : Promise} (Q : A → Promise) (a : A)
    → ((xs : List Settlement) → P xs → Q a xs)
    → Yields P (pure a) Q
unfolding pure
Yields-pure Q a h = record { at = λ s answers x. h s.settlements x }

continue-YieldsEnd :
    {A B : Type 0} (Q : Promise) {R : B → Promise}
    (q : Result SettlementError A × Tables × List Answer) (f : A → Action SettlementError Tables B)
    → Led Q q
    → ((a : A) → Yields Q (f a) R)
    → YieldsEnd R (continue q f)
continue-YieldsEnd Q (ok a, t, rest) f h k = (k a).at t rest h
continue-YieldsEnd Q (err e, t, rest) f h k = h

pub Leads-Yields :
    {A B : Type 0} {P : Promise} (Q : Promise) {R : B → Promise}
    (m : Action SettlementError Tables A) (f : A → Action SettlementError Tables B)
    → Leads P m Q
    → ((a : A) → Yields Q (f a) R)
    → Yields P (m >>= f) R
unfolding ◌>>=◌
Leads-Yields Q m f h k = record {
  at = λ s answers x. continue-YieldsEnd Q (m s answers) f (h.at s answers x) k;
}

YieldsEnd-continue :
    {A B : Type 0} (Q : A → Promise) {R : Promise}
    (q : Result SettlementError A × Tables × List Answer) (f : A → Action SettlementError Tables B)
    → YieldsEnd Q q
    → ((a : A) → Leads (Q a) (f a) R)
    → Led R (continue q f)
YieldsEnd-continue Q (ok a, t, rest) f h k = (k a).at t rest h
YieldsEnd-continue Q (err e, t, rest) f h k = h

pub Yields-Leads :
    {A B : Type 0} {P R : Promise} (Q : A → Promise) (m : Action SettlementError Tables A)
    (f : A → Action SettlementError Tables B)
    → Yields P m Q
    → ((a : A) → Leads (Q a) (f a) R)
    → Leads P (m >>= f) R
unfolding ◌>>=◌
Yields-Leads Q m f h k = record {
  at = λ s answers x. YieldsEnd-continue Q (m s answers) f (h.at s answers x) k;
}

-- A fact in the promise is known.
pub Leads-given :
    {A : Type 0} {P Q : Promise} {C : Type 0} (m : Action SettlementError Tables A)
    → (C → Leads P m Q)
    → Leads (λ xs. C × P xs) m Q
Leads-given m h = record { at = λ s answers x. (h x.0).at s answers x.1 }
