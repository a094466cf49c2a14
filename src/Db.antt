-- ===== src/Db.antt =====
-- Calls to Postgres through pgx (internal/platform/db, a connection pool): the statements are
-- functions on the tables, and the server's answers are given in advance, one for each call.
pub mod Keeps
pub mod Ends
use payment_engine_v.Base.{List, [], ◌∷◌, ◌≡◌, refl, ◌⊎◌, inl, inr}

-- What the caller sees of one call: `done`, it ran; `refused`, it failed with no effect (a broken
-- connection, a constraint, a serialisation failure); `lost`, it took effect and its answer was
-- lost, so that the caller sees an error.
pub data Answer : Type 0 where
  done refused lost : Answer

-- Go's `(A, error)`.
pub data Result (E A : Type 0) : Type 0 where
  ok : A → Result E A
  err : E → Result E A

-- The end of a transaction's body: `commit`, or a return that leaves the deferred Rollback to run.
pub data Exit (A : Type 0) : Type 0 where
  commit rollback : A → Exit A

abbrev pub next_answer : List Answer → Answer
next_answer [] = Answer.done
next_answer (a ∷ rest) = a

abbrev pub later_answers : List Answer → List Answer
later_answers [] = []
later_answers (a ∷ rest) = rest

-- A method with access to the tables `S`, which may fail with `E`.
abbrev pub Action : Type 0 → Type 0 → Type 0 → Type 0
Action E S A = S → List Answer → Result E A × S × List Answer

module _ {E S A : Type 0} where
  unfoldable pub pure : A → Action E S A
  pure a s answers = (ok a, s, answers)

  unfoldable pub fail : E → Action E S A
  fail e s answers = (err e, s, answers)

  abbrev pub answered : Answer → E → Result E A × S → S → List Answer → Result E A × S × List Answer
  answered done e (r, s') s rest = (r, s', rest)
  answered refused e (r, s') s rest = (err e, s, rest)
  answered lost e (r, s') s rest = (err e, s', rest)

  -- One statement: its rows or its own error where it runs, `e` where the call fails.
  unfoldable pub query : E → (S → Result E A × S) → Action E S A
  query e f s answers = answered (next_answer answers) e (f s) s (later_answers answers)

  abbrev pub committed : Answer → E → A → S → S → List Answer → Result E A × S × List Answer
  committed done e a s' s rest = (ok a, s', rest)
  committed refused e a s' s rest = (err e, s, rest)
  committed lost e a s' s rest = (err e, s', rest)

  abbrev pub close_tx : E → S → Result E (Exit A) × S × List Answer → Result E A × S × List Answer
  close_tx e s (err x, s', rest) = (err x, s, rest)
  close_tx e s (ok (rollback a), s', rest) = (ok a, s, rest)
  close_tx e s (ok (commit a), s', rest) =
      committed (next_answer rest) e a s' s (later_answers rest)

  abbrev pub begun :
      Answer → E → E → Action E S (Exit A) → S → List Answer → Result E A × S × List Answer
  begun done b c body s rest = close_tx c s (body s rest)
  begun _ b c body s rest = (err b, s, rest)

  -- `pool.Begin`, the body, `tx.Commit`, with `tx.Rollback` deferred: an error or a return before
  -- the commit leaves the tables as they were. `b` and `c` are the errors of Begin and Commit.
  unfoldable pub transaction : E → E → Action E S (Exit A) → Action E S A
  transaction b c body s answers = begun (next_answer answers) b c body s (later_answers answers)

module _ {E S A B : Type 0} where
  abbrev pub continue :
      Result E A × S × List Answer → (A → Action E S B) → Result E B × S × List Answer
  continue (ok a, s, rest) f = f a s rest
  continue (err e, s, rest) f = (err e, s, rest)

  infixl 5 ◌>>=◌ ◌>>◌
  -- Opening this opens `pure`, `fail` and `query` too.
  unfoldable pub ◌>>=◌ : Action E S A → (A → Action E S B) → Action E S B
  unfolding pure fail query
  ◌>>=◌ m f s answers = continue (m s answers) f

  abbrev pub ◌>>◌ : Action E S A → Action E S B → Action E S B
  m >> n = m >>= λ _. n

module _ {E A : Type 0} where
  pub Result-cases : (r : Result E A) → ((a : A) × (r ≡ ok a)) ⊎ ((e : E) × (r ≡ err e))
  Result-cases (ok a) = inl (a, refl)
  Result-cases (err e) = inr (e, refl)
