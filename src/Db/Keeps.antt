-- ===== src/Db/Keeps.antt =====
-- Relations between the tables before and after a method, kept whatever the database answers: one
-- rule for each way to build a method.
use payment_engine_v.Base.{List, Bool, true, false, if◌then◌else◌}
use payment_engine_v.Db.{
  Answer, done, refused, lost, Result, ok, err, Exit, commit, rollback, Action, pure, fail, query,
  answered, next_answer, later_answers, committed, close_tx, begun, transaction, continue, ◌>>=◌,
}

pub record Preorder (S : Type 0) : Type 1 where
  pub rel : S → S → Type 0
  pub reflexive : (s : S) → rel s s
  pub transitive : (s t u : S) → rel s t → rel t u → rel s u

-- `m` relates the tables before it to those after it, whether it returns or fails.
pub record Keeps {E S A : Type 0} (r : Preorder S) (m : Action E S A) : Type 0 where
  pub at : (s : S) (answers : List Answer) → r.rel s (m s answers).1

-- One call to the database, by its answer.
module _ {E S A : Type 0} (r : Preorder S) where
  answered_rel :
      (a : Answer) (e : E) (q : Result E A × S) (s : S) (rest : List Answer)
      → r.rel s q.1
      → r.rel s (answered a e q s rest).1
  answered_rel done e q s rest h = h
  answered_rel refused e q s rest h = r.reflexive s
  answered_rel lost e q s rest h = h

  committed_rel :
      (a : Answer) (e : E) (x : A) (t s : S) (rest : List Answer)
      → r.rel s t
      → r.rel s (committed a e x t s rest).1
  committed_rel done e x t s rest h = h
  committed_rel refused e x t s rest h = r.reflexive s
  committed_rel lost e x t s rest h = h

  close_rel :
      (e : E) (s : S) (q : Result E (Exit A) × S × List Answer)
      → r.rel s q.1
      → r.rel s (close_tx e s q).1
  close_rel e s (err x, t, rest) h = r.reflexive s
  close_rel e s (ok (rollback a), t, rest) h = r.reflexive s
  close_rel e s (ok (commit a), t, rest) h =
      committed_rel (next_answer rest) e a t s (later_answers rest) h

  begun_rel :
      (a : Answer) (b c : E) (m : Action E S (Exit A)) (s : S) (rest : List Answer)
      → Keeps r m
      → r.rel s (begun a b c m s rest).1
  begun_rel done b c m s rest h = close_rel c s (m s rest) (h.at s rest)
  begun_rel refused b c m s rest h = r.reflexive s
  begun_rel lost b c m s rest h = r.reflexive s

module _ {E S A B : Type 0} (r : Preorder S) where
  pub continue_rel :
      (s : S) (q : Result E A × S × List Answer) (f : A → Action E S B)
      → r.rel s q.1
      → ((a : A) → Keeps r (f a))
      → r.rel s (continue q f).1
  continue_rel s (ok a, t, rest) f h k = r.transitive s t (f a t rest).1 h ((k a).at t rest)
  continue_rel s (err e, t, rest) f h k = h

module _ {E S A : Type 0} {r : Preorder S} where
  pub Keeps-pure : (a : A) → Keeps r (pure {E = E} a)
  unfolding pure
  Keeps-pure a = record { at = λ s answers. r.reflexive s }

  pub Keeps-fail : (e : E) → Keeps r (fail {A = A} e)
  unfolding fail
  Keeps-fail e = record { at = λ s answers. r.reflexive s }

  pub Keeps-query :
      (e : E) (f : S → Result E A × S) → ((s : S) → r.rel s (f s).1) → Keeps r (query e f)
  unfolding query
  Keeps-query e f h = record {
    at = λ s answers. answered_rel r (next_answer answers) e (f s) s (later_answers answers) (h s);
  }

  pub Keeps-if :
      (b : Bool) (m n : Action E S A) → Keeps r m → Keeps r n → Keeps r (if b then m else n)
  Keeps-if true m n km kn = km
  Keeps-if false m n km kn = kn

  pub Keeps-transaction :
      (b c : E) (m : Action E S (Exit A)) → Keeps r m → Keeps r (transaction b c m)
  unfolding transaction
  Keeps-transaction b c m h = record {
    at = λ s answers. begun_rel r (next_answer answers) b c m s (later_answers answers) h;
  }

module _ {E S A B : Type 0} {r : Preorder S} where
  pub Keeps-bind :
      (m : Action E S A) (f : A → Action E S B)
      → Keeps r m
      → ((a : A) → Keeps r (f a))
      → Keeps r (m >>= f)
  unfolding ◌>>=◌
  Keeps-bind m f h k = record {
    at = λ s answers. continue_rel r s (m s answers) f (h.at s answers) k;
  }

pub ruleset keeps_rules = (Keeps-pure, Keeps-fail, Keeps-if, Keeps-transaction, Keeps-bind)
