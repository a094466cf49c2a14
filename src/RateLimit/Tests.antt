-- ===== src/RateLimit/Tests.antt =====
-- Concrete calls of internal/platform/ratelimit, and the theorem at them.
use payment_engine_v.Base.{
  ◌<◌, ◌/◌, ℕ, ◌+◌, ◌*◌, ◌-◌, ◌≤◌, leb, pos, true, List, [], ◌∷◌, ◌≡◌, refl, arith,
}
use payment_engine_v.RateLimit.Limiter.{
  new_limiter, allow, allow_one, admit, rotate, lookup_bucket, put_bucket, Floats,
}
use payment_engine_v.RateLimit.Bounds.{IsRounded}
use payment_engine_v.RateLimit.Calls.{Call, admitted, admitted-le}

-- An arithmetic of thousandths, that rounds down.
abbrev thousandths : Floats
thousandths = record {
  Float = ℕ;
  of_int = λ n. n * 1000;
  minus = λ a b. a - b;
  over = λ a b. a * 1000 / b;
  times = λ a b. a * b / 1000;
  plus = λ a b. a + b;
  is_ge = λ a b. leb b a;
}

le_leb : (a b : ℕ) → a ≤ b → leb a b ≡ true
le_leb a b h = ground arith

leb_le : (a b : ℕ) → leb a b ≡ true → a ≤ b
leb_le a b h = ground arith

fraction-le : (m n : ℕ) → m < n → m * 1000 * 1000 / (n * 1000) ≤ 1 * 1000
fraction-le m n h = grind arith

thousandths-IsRounded : IsRounded thousandths
thousandths-IsRounded = record {
  ordered = λ m n h. le_leb (m * 1000) (n * 1000) (omega arith);
  transitive = λ a b c p q. le_leb c a (omega (arith, leb_le b a p, leb_le c b q));
  fraction = λ m n h. (le_leb _ _ (omega arith), le_leb _ _ (fraction-le m n h));
  complement = λ q low high. (le_leb _ _ (omega arith), le_leb _ _ (omega arith));
  part = λ n w low high. le_leb _ _ (omega arith);
  sum = λ a n h. le_leb _ _ (omega arith);
}

abbrev burst : List Call
burst =
    record { key = "a"; limit = pos 2; now = 100 }
    ∷ record { key = "b"; limit = pos 1; now = 110 }
    ∷ record { key = "a"; limit = pos 2; now = 120 }
    ∷ record { key = "a"; limit = pos 2; now = 130 }
    ∷ []

burst_test : admitted thousandths "a" burst (new_limiter 60) ≡ 2
unfolding admitted allow allow_one admit rotate lookup_bucket put_bucket
burst_test = refl

admitted-le_example : admitted thousandths "a" burst (new_limiter 60) ≤ 2 * 2
unfolding lookup_bucket
admitted-le_example =
    admitted-le thousandths "a" 1 100 burst (new_limiter 60) thousandths-IsRounded (omega arith)
      ((λ _. refl), ((λ e. cc), ((λ _. refl), ((λ _. refl), tt))))
      (omega arith, (omega arith, (omega arith, tt)))
      (omega arith, (omega arith, (omega arith, tt))) tt
