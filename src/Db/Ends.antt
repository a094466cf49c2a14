-- ===== src/Db/Ends.antt =====
-- How a database transaction ends: with its body's effect, or with none.
use payment_engine_v.Base.{List, [], ◌∷◌, ◌≡◌, refl, ◌⊎◌, inl, inr}
use payment_engine_v.Db.{
  Answer, done, refused, lost, Result, ok, err, Exit, commit, rollback, Action, transaction,
  close_tx, begun, next_answer, later_answers, continue, ◌>>=◌,
}

module _ {E S A : Type 0} where
  -- `P` holds of the body's result and of the tables that it leaves: its own where it commits, those
  -- from before where it rolls back.
  abbrev pub BodyEnds : (A → S → Type 0) → S → Result E (Exit A) × S × List Answer → Type 0
  BodyEnds P s (ok (commit a), t, _) = P a t
  BodyEnds P s (ok (rollback a), t, _) = P a s
  BodyEnds P s (err _, t, _) = Unit

  -- `P` holds after a success; after an error the tables are as before, unless it is the answer to
  -- the commit that was lost.
  abbrev pub Ends : (A → S → Type 0) → S → Result E A × S × List Answer → Type 0
  Ends P s (ok a, t, _) = P a t
  Ends P s (err _, t, _) = (t ≡ s) ⊎ ((a : A) × P a t)

  close-Ends :
      (P : A → S → Type 0) (c : E) (s : S) (r : Result E (Exit A) × S × List Answer)
      → BodyEnds P s r
      → Ends P s (close_tx c s r)
  close-Ends P c s (ok (commit a), t, []) h = h
  close-Ends P c s (ok (commit a), t, done ∷ rest) h = h
  close-Ends P c s (ok (commit a), t, refused ∷ rest) h = inl refl
  close-Ends P c s (ok (commit a), t, lost ∷ rest) h = inr (a, h)
  close-Ends P c s (ok (rollback a), t, rest) h = h
  close-Ends P c s (err e, t, rest) h = inl refl

  begun-Ends :
      (P : A → S → Type 0) (a : Answer) (b c : E) (body : Action E S (Exit A)) (s : S)
      (rest : List Answer)
      → BodyEnds P s (body s rest)
      → Ends P s (begun a b c body s rest)
  begun-Ends P done b c body s rest h = close-Ends P c s (body s rest) h
  begun-Ends P refused b c body s rest h = inl refl
  begun-Ends P lost b c body s rest h = inl refl

  pub transaction-Ends :
      (P : A → S → Type 0) (b c : E) (body : Action E S (Exit A)) (s : S) (answers : List Answer)
      → ((rest : List Answer) → BodyEnds P s (body s rest))
      → Ends P s (transaction b c body s answers)
  unfolding transaction
  transaction-Ends P b c body s answers h =
      begun-Ends P (next_answer answers) b c body s (later_answers answers)
        (h (later_answers answers))

  pub Ends-map :
      (P Q : A → S → Type 0) (s : S) (r : Result E A × S × List Answer)
      → ((a : A) (t : S) → P a t → Q a t)
      → Ends P s r
      → Ends Q s r
  Ends-map P Q s (ok a, t, rest) k h = k a t h
  Ends-map P Q s (err e, t, rest) k (inl p) = inl p
  Ends-map P Q s (err e, t, rest) k (inr (a, h)) = inr (a, k a t h)

  -- What holds before the transaction and after its effect holds after the call.
  pub Ends-keeps :
      {P : A → S → Type 0} {s : S} (Q : S → Type 0) (r : Result E A × S × List Answer)
      → Q s
      → ((a : A) (t : S) → P a t → Q t)
      → Ends P s r
      → Q r.1
  Ends-keeps Q (ok a, t, rest) q k h = k a t h
  Ends-keeps Q (err e, t, rest) q k (inl p) = rw p q
  Ends-keeps Q (err e, t, rest) q k (inr (a, h)) = k a t h

module _ {E S A B : Type 0} where
  continue-Ends :
      (P : B → S → Type 0) (s : S) (q : Result E A × S × List Answer) (f : A → Action E S B)
      → q.1 ≡ s
      → ((a : A) (rest : List Answer) → q.0 ≡ ok a → Ends P s (f a s rest))
      → Ends P s (continue q f)
  continue-Ends P s (ok a, t, rest) f p k = rw p (k a rest refl)
  continue-Ends P s (err e, t, rest) f p k = inl p

  -- A step that only reads, before a method that ends so.
  pub bind-Ends :
      (P : B → S → Type 0) (m : Action E S A) (f : A → Action E S B) (s : S) (answers : List Answer)
      → (m s answers).1 ≡ s
      → ((a : A) (rest : List Answer) → (m s answers).0 ≡ ok a → Ends P s (f a s rest))
      → Ends P s ((m >>= f) s answers)
  unfolding ◌>>=◌
  bind-Ends P m f s answers p k = continue-Ends P s (m s answers) f p k
