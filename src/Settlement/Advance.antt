-- ===== src/Settlement/Advance.antt =====
-- How the settlements table changes (internal/settlement): rows move along the state machine and
-- keep what they were created with, rows are added, none is lost.
use payment_engine_v.Base.{
  ℕ, Bool, true, List, [], ◌∷◌, ◌≡◌, arith, update_returning, Bool-cases, inl, inr,
}
use payment_engine_v.Settlement.Tables.{Status, pending_dispatch, Settlement}
use payment_engine_v.Settlement.Transition.{is_in}
use payment_engine_v.Settlement.Diagram.{◌⇒*◌, here, ⇒*-trans, equal_status_lem}

-- What a settlement keeps for life.
pub record SameOrder (x y : Settlement) : Type 0 where
  pub id : y.id ≡ x.id
  pub session_id : y.session_id ≡ x.session_id
  pub tenant_id : y.tenant_id ≡ x.tenant_id
  pub corridor_id : y.corridor_id ≡ x.corridor_id
  pub created_at : y.created_at ≡ x.created_at

pub record IsAdvance (x y : Settlement) : Type 0 where
  pub order : SameOrder x y
  pub moved : x.status ⇒* y.status

-- A later state of the table: each row has its successor, in order, among rows that were added
-- since, which began in `pending_dispatch`.
pub data Advanced : List Settlement → List Settlement → Type 0 where
  nil : Advanced [] []
  keep :
      {x y : Settlement} {xs ys : List Settlement}
      → IsAdvance x y
      → Advanced xs ys
      → Advanced (x ∷ xs) (y ∷ ys)
  added :
      {y : Settlement} {xs ys : List Settlement}
      → pending_dispatch ⇒* y.status
      → Advanced xs ys
      → Advanced xs (y ∷ ys)

IsAdvance-refl : (x : Settlement) → IsAdvance x x
IsAdvance-refl x = record { order = ground arith; moved = here }

pub IsAdvance-trans : {x y z : Settlement} → IsAdvance x y → IsAdvance y z → IsAdvance x z
IsAdvance-trans p q = record {
  order = ground (arith, p.order, q.order);
  moved = ⇒*-trans p.moved q.moved;
}

pub Advanced-refl : (xs : List Settlement) → Advanced xs xs
Advanced-refl [] = nil
Advanced-refl (x ∷ xs) = keep (IsAdvance-refl x) (Advanced-refl xs)

pub Advanced-trans : {xs ys zs : List Settlement} → Advanced xs ys → Advanced ys zs → Advanced xs zs
Advanced-trans g nil = g
Advanced-trans g (added s h) = added s (Advanced-trans g h)
Advanced-trans (keep p g) (keep q h) = keep (IsAdvance-trans p q) (Advanced-trans g h)
Advanced-trans (added s g) (keep q h) = added (⇒*-trans s q.moved) (Advanced-trans g h)

pub Advanced-update :
    (p : Settlement → Bool) (f : Settlement → Settlement)
    → ((x : Settlement) → p x ≡ true → IsAdvance x (f x))
    → (xs : List Settlement) → Advanced xs (update_returning p f xs).1
Advanced-update p f h [] = nil
Advanced-update p f h (x ∷ xs) = elim (Bool-cases (p x)) [
  | inl met ↦ rw met (keep (h x met) (Advanced-update p f h xs))
  | inr other ↦ rw other (keep (IsAdvance-refl x) (Advanced-update p f h xs))
]

-- A row whose status moves as the machine allows, with its order kept.
pub advanced_to :
    {x y : Settlement} {from to : Status}
    → SameOrder x y
    → x.status ≡ from
    → y.status ≡ to
    → from ⇒* to
    → IsAdvance x y
advanced_to order p q path = record { order = order; moved = rw (p, q) path }

pub is_in_status :
    (id : ℕ) (from : Status) (x : Settlement) → is_in id from x ≡ true → x.status ≡ from
is_in_status id from x h = equal_status_lem x.status from (ground arith)
