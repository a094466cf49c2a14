-- ===== src/Base/Decimals.antt =====
-- What a NUMERIC(36, 18) column makes of an amount.
use Prim.Native.Nat.{ℕ, suc, ◌+◌, ◌*◌, ◌/◌, ◌%◌}
use mathlib.Core.Path.{◌≡◌, ap}
use native.Mathlib.Omega.{arith}
use payment_engine_v.Base.Int.{ℤ, pos, negsuc, pos_part, neg_part, sub_ℕ, ◌+ℤ◌, ◌-ℤ◌}

-- To 18 decimals, which are 10000 units, a half away from zero.
unfoldable pub stored : ℤ → ℤ
stored (pos n) = pos ((n + 5000) / 10000 * 10000)
stored (negsuc n) = sub_ℕ 0 ((suc n + 5000) / 10000 * 10000)

-- An amount of at most 18 decimals.
pub record IsExact (v : ℤ) : Type 0 where
  pub above : pos_part v % 10000 ≡ 0
  pub below : neg_part v % 10000 ≡ 0

whole_lem : (n : ℕ) → n % 10000 ≡ 0 → (n + 5000) / 10000 * 10000 ≡ n
whole_lem n h = omega (arith, h)

-- The column keeps it.
pub stored_lem : (v : ℤ) → IsExact v → stored v ≡ v
unfolding stored
stored_lem (pos n) h = ap pos (whole_lem n h.above)
stored_lem (negsuc n) h = rw (whole_lem (suc n) h.below) (ground arith)

pub IsExact-sum : (a b : ℤ) → IsExact a → IsExact b → IsExact (a +ℤ b)
unfolding ◌+ℤ◌
IsExact-sum a b h k = record {
  above = ground (arith, h.above, h.below, k.above, k.below);
  below = ground (arith, h.above, h.below, k.above, k.below);
}

pub IsExact-neg : (a : ℤ) → IsExact a → IsExact (pos 0 -ℤ a)
unfolding ◌-ℤ◌
IsExact-neg a h = record {
  above = ground (arith, h.above, h.below);
  below = ground (arith, h.above, h.below);
}
