-- ===== src/Base/Rows.antt =====
-- Tables as lists of rows: UPDATE … WHERE … RETURNING, and relations between two states of a table.
use mathlib.Core.Path.{◌≡◌, refl}
use mathlib.Core.Logic.{inl, inr}
use mathlib.Core.Bool.{Bool, true, false}
use mathlib.Core.Option.{Option, none, some}
use mathlib.Core.List.{List, [], ◌∷◌}
use payment_engine_v.Base.Tests.{if◌then◌else◌, Bool-cases}

-- The updated rows that RETURNING yields, and the table; `p` is the WHERE clause, `f` the SET.
abbrev pub update_returning : {A : Type 0} → (A → Bool) → (A → A) → List A → List A × List A
update_returning p f [] = ([], [])
update_returning p f (x ∷ xs) =
    let (hit, rest) = update_returning p f xs in
    if p x then (f x ∷ hit, f x ∷ rest) else (hit, x ∷ rest)

abbrev pub head_row : {A : Type 0} → List A → Option A
head_row [] = none
head_row (x ∷ xs) = some x

-- Row by row, one state of a table relates to the next.
abbrev pub Pointwise : {A : Type 0} → (A → A → Type 0) → List A → List A → Type 0
Pointwise R [] [] = Unit
Pointwise R [] (y ∷ ys) = ⊥
Pointwise R (x ∷ xs) [] = ⊥
Pointwise R (x ∷ xs) (y ∷ ys) = R x y × Pointwise R xs ys

pub Pointwise-refl :
    {A : Type 0} (R : A → A → Type 0) → ((x : A) → R x x) → (xs : List A) → Pointwise R xs xs
Pointwise-refl R r [] = tt
Pointwise-refl R r (x ∷ xs) = (r x, Pointwise-refl R r xs)

pub Pointwise-trans :
    {A : Type 0} (R : A → A → Type 0)
    → ((x y z : A) → R x y → R y z → R x z)
    → (xs ys zs : List A) → Pointwise R xs ys
    → Pointwise R ys zs
    → Pointwise R xs zs
Pointwise-trans R t [] [] [] p q = tt
Pointwise-trans R t [] [] (z ∷ zs) p q = absurd q
Pointwise-trans R t [] (y ∷ ys) zs p q = absurd p
Pointwise-trans R t (x ∷ xs) [] zs p q = absurd p
Pointwise-trans R t (x ∷ xs) (y ∷ ys) [] p q = absurd q
Pointwise-trans R t (x ∷ xs) (y ∷ ys) (z ∷ zs) p q =
    (t x y z p.0 q.0, Pointwise-trans R t xs ys zs p.1 q.1)

-- An update relates every row to its new state if it does so for the rows that it meets.
pub Pointwise-update :
    {A : Type 0} (R : A → A → Type 0) (p : A → Bool) (f : A → A)
    → ((x : A) → R x x)
    → ((x : A) → p x ≡ true → R x (f x))
    → (xs : List A) → Pointwise R xs (update_returning p f xs).1
Pointwise-update R p f r h [] = tt
Pointwise-update R p f r h (x ∷ xs) = elim (Bool-cases (p x)) [
  | inl met ↦ rw met (h x met, Pointwise-update R p f r h xs)
  | inr other ↦ rw other (r x, Pointwise-update R p f r h xs)
]

-- An update whose rows no longer meet it does nothing the second time.
pub update_again :
    {A : Type 0} (p : A → Bool) (f g : A → A)
    → ((x : A) → p (f x) ≡ false)
    → (xs : List A)
    → update_returning p g (update_returning p f xs).1 ≡ ([], (update_returning p f xs).1)
update_again p f g h [] = refl
update_again p f g h (x ∷ xs) = elim (Bool-cases (p x)) [
  | inl met ↦ rw (met, h x, update_again p f g h xs) refl
  | inr other ↦ rw (other, other, update_again p f g h xs) refl
]

-- The rows that do not meet the update stay, in their order.
abbrev pub without : {A : Type 0} → (A → Bool) → List A → List A
without p [] = []
without p (x ∷ xs) = let rest = without p xs in if p x then rest else x ∷ rest
