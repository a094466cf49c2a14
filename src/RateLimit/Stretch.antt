-- ===== src/RateLimit/Stretch.antt =====
-- A stretch of calls of Limiter.Allow no longer than the window (internal/platform/ratelimit).
use payment_engine_v.Base.{ℕ, ◌+◌, ◌≤◌, ◌<◌, List, [], ◌∷◌, ◌≡◌, refl, arith, inl, inr, All}
use payment_engine_v.RateLimit.Limiter.{Bucket, Floats, fresh, rotate, allow_one}
use payment_engine_v.RateLimit.Bounds.{
  IsRounded, IsOrdered, admitted_from, within_two, rotate_within, rotate_next, turned, le_cases,
}

pub All-below : (a b : ℕ) (times : List ℕ) → a ≤ b → All (λ u. u < a) times → All (λ u. u < b) times
All-below a b [] h all = tt
All-below a b (u ∷ times) h all = (omega (arith, h, all.0), All-below a b times h all.1)

rotate_idle :
    (window now : ℕ) (b : Bucket)
    → b.window_start + window + window ≤ now
    → rotate window now b ≡ fresh now
unfolding rotate
rotate_idle window now b h = ground arith

module _ (floats : Floats) (window limit : ℕ) where
  -- A bucket counts like the one that it turns into.
  admitted_turned :
      (u : ℕ) (times : List ℕ) (b c : Bucket)
      → rotate window u b ≡ c
      → rotate window u c ≡ c
      → admitted_from floats window limit (u ∷ times) b
        ≡ admitted_from floats window limit (u ∷ times) c
  unfolding admitted_from allow_one
  admitted_turned u times b c p q = rw (p, q) refl

  -- From a window that the first call stands in.
  from_here :
      (t u : ℕ) (times : List ℕ) (d : Bucket)
      → IsRounded floats
      → 0 < window
      → t ≤ u
      → IsOrdered u times
      → All (λ x. x < t + window) (u ∷ times)
      → d.window_start ≤ u
      → u < d.window_start + window
      → d.curr_count ≤ limit
      → admitted_from floats window limit (u ∷ times) d ≤ limit + limit
  from_here t u times d rounded w before o h p q k = omega (
    arith,
    within_two floats window limit (u ∷ times) d rounded w (p, o)
        (All-below (t + window) (d.window_start + window + window) (u ∷ times)
          (omega (arith, before, q)) h)
        k,
  )

  pub within_stretch :
      (t : ℕ) (times : List ℕ) (b : Bucket)
      → IsRounded floats
      → 0 < window
      → b.window_start ≤ t
      → IsOrdered t times
      → All (λ u. u < t + window) times
      → b.curr_count ≤ limit
      → admitted_from floats window limit times b ≤ limit + limit
  unfolding admitted_from
  within_stretch t [] b rounded w s o h c = ground arith
  within_stretch t (u ∷ times) b rounded w s o h c =
      elim (le_cases (b.window_start + window + window) u) [
        | inl idle ↦
            rw
              (admitted_turned u times b (fresh u) (rotate_idle window u b idle)
                (rotate_within window u (fresh u) (omega arith) (omega (arith, w))))
              (from_here t u times (fresh u) rounded w o.0 o.1 h (omega arith) (omega (arith, w))
                (omega arith))
        | inr recent ↦ elim (le_cases (b.window_start + window) u) [
          | inl over ↦
              rw
                (admitted_turned u times b (turned window b) (rotate_next window u b over recent)
                  (rotate_within window u (turned window b) over recent))
                (from_here t u times (turned window b) rounded w o.0 o.1 h over recent
                  (omega arith))
          | inr inside ↦ from_here t u times b rounded w o.0 o.1 h (omega (arith, s, o.0)) inside c
        ]
      ]
