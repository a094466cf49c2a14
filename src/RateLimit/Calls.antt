-- ===== src/RateLimit/Calls.antt =====
-- The calls of Limiter.Allow for many keys (internal/platform/ratelimit).
use payment_engine_v.Base.{
  ap, ℕ, zero, suc, ◌+◌, ◌*◌, ◌≤◌, ◌<◌, ℤ, pos, negsuc, String, str_eq, true, false, Option, none,
  some, List, [], ◌∷◌, ◌≡◌, ◌∙◌, refl, arith, inl, inr, Bool-cases, All, eq_iff, eq_refl,
  if◌then◌else◌,
}
use payment_engine_v.RateLimit.Limiter.{
  Bucket, Limiter, Floats, lookup_bucket, put_bucket, fresh, or_fresh, allow_one, allow,
}
use payment_engine_v.RateLimit.Bounds.{IsRounded, IsOrdered, one_if, admitted_from}
use payment_engine_v.RateLimit.Stretch.{within_stretch, All-below}

pub record Call : Type 0 where
  pub key : String
  pub limit : ℤ
  pub now : ℕ

-- The verdicts for one key, counted.
unfoldable pub admitted : Floats → String → List Call → Limiter → ℕ
admitted floats key [] l = 0
admitted floats key (c ∷ calls) l =
    let (verdict, l') = allow floats c.key c.limit c.now l in
    (if str_eq c.key key then one_if verdict else 0) + admitted floats key calls l'

abbrev times_of : String → List Call → List ℕ
times_of key [] = []
times_of key (c ∷ calls) =
    let rest = times_of key calls in if str_eq c.key key then c.now ∷ rest else rest

-- Every call for the key has the limit.
abbrev HasLimit : String → ℕ → List Call → Type 0
HasLimit key n [] = Unit
HasLimit key n (c ∷ calls) = (str_eq c.key key ≡ true → c.limit ≡ pos n) × HasLimit key n calls

-- The bucket that the first of the calls finds.
abbrev start : Option Bucket → List ℕ → Bucket
start none [] = fresh 0
start none (u ∷ times) = fresh u
start (some b) times = b

start_first : (o : Option Bucket) (u : ℕ) (times : List ℕ) → start o (u ∷ times) ≡ or_fresh u o
start_first none u times = refl
start_first (some b) u times = refl

lookup-put :
    (key : String) (b : Bucket) (rows : List (String × Bucket))
    → lookup_bucket key (put_bucket key b rows) ≡ some b
unfolding lookup_bucket put_bucket
lookup-put key b [] = rw (eq_refl key) refl
lookup-put key b ((k, c) ∷ rows) = elim (Bool-cases (str_eq k key)) [
  | inl same ↦ rw (same, same) refl
  | inr other ↦ rw (other, other) (lookup-put key b rows)
]

lookup-put_other :
    (key other : String) (b : Bucket) (rows : List (String × Bucket))
    → str_eq other key ≡ false
    → lookup_bucket key (put_bucket other b rows) ≡ lookup_bucket key rows
unfolding lookup_bucket put_bucket
lookup-put_other key other b [] h = rw h refl
lookup-put_other key other b ((k, c) ∷ rows) h =
    ground (arith, h, lookup-put_other key other b rows h, eq_iff k other)

-- Calls for other keys leave the bucket and the window alone.
allow_other :
    (floats : Floats) (key other : String) (limit : ℤ) (now : ℕ) (l : Limiter)
    → str_eq other key ≡ false
    → (lookup_bucket key (allow floats other limit now l).1.buckets ≡ lookup_bucket key l.buckets)
      × ((allow floats other limit now l).1.window ≡ l.window)
unfolding allow
allow_other floats key other (negsuc _) now l h = (refl, refl)
allow_other floats key other (pos zero) now l h = (refl, refl)
allow_other floats key other (pos (suc n)) now l h =
    (lookup-put_other key other _ l.buckets h, refl)

zero_plus : (a b : ℕ) → a ≡ b → 0 + a ≡ b
zero_plus a b h = omega (arith, h)

module _ (floats : Floats) (key : String) (n : ℕ) where
  -- The calls after one that left `b`.
  after_first :
      (times : List ℕ) (l : Limiter) (b : Bucket) (m : ℕ)
      → m
        ≡ admitted_from floats l.window
            (suc n)
            times
            (start (lookup_bucket key (put_bucket key b l.buckets)) times)
      → m ≡ admitted_from floats l.window (suc n) times b
  after_first times l b m e = e ∙ rw (lookup-put key b l.buckets) refl

  admitted-admitted_from :
      (calls : List Call) (l : Limiter)
      → HasLimit key (suc n) calls
      → admitted floats key calls l
        ≡ admitted_from floats l.window
            (suc n)
            (times_of key calls)
            (start (lookup_bucket key l.buckets) (times_of key calls))
  unfolding admitted admitted_from allow
  admitted-admitted_from [] l h = refl
  admitted-admitted_from (c ∷ calls) l h = elim (Bool-cases (str_eq c.key key)) [
    | inl same ↦
        rw
          (
            same,
            h.0 same,
            (eq_iff c.key key).0 same,
            start_first (lookup_bucket key l.buckets) c.now (times_of key calls),
          )
          (let q =
              allow_one floats l.window (suc n) c.now
                (or_fresh c.now (lookup_bucket key l.buckets)) in
            let l' = record l { buckets = put_bucket key q.1 l.buckets } in
            ap (λ z. one_if q.0 + z)
              (after_first (times_of key calls) l q.1 (admitted floats key calls l')
                (admitted-admitted_from calls l' h.1)))
    | inr other ↦
        let (frame, same_window) = allow_other floats key c.key c.limit c.now l other in
        rw other (
          zero_plus _ _ (
            admitted-admitted_from calls (allow floats c.key c.limit c.now l).1 h.1
            ∙ rw (frame, same_window) refl))
  ]

-- What the limiter holds of a key: no more than the limit in the present window, which began before.
abbrev IsWithin : ℕ → ℕ → Option Bucket → Type 0
IsWithin limit t none = Unit
IsWithin limit t (some b) = (b.window_start ≤ t) × (b.curr_count ≤ limit)

start_bound :
    (floats : Floats) (window limit t : ℕ) (o : Option Bucket) (times : List ℕ)
    → IsRounded floats
    → 0 < window
    → IsWithin limit t o
    → IsOrdered t times
    → All (λ u. u < t + window) times
    → admitted_from floats window limit times (start o times) ≤ limit + limit
unfolding admitted_from
start_bound floats window limit t none [] m w i o h = omega arith
start_bound floats window limit t none (u ∷ times) m w i o h =
    within_stretch floats window limit u (u ∷ times) (fresh u) m w (omega arith) (omega arith, o.1)
      (All-below (t + window) (u + window) (u ∷ times) (omega (arith, o.0)) h) (omega arith)
start_bound floats window limit t (some b) times m w i o h =
    within_stretch floats window limit t times b m w i.0 o h i.1

-- In any stretch of time no longer than the window, calls of `Allow` for a key and a positive limit
-- are admitted at most twice the limit, whatever calls are made for other keys: where the times do
-- not decrease, the key's present window held no more than the limit before, and the machine's
-- float64 rounds as IEEE 754 asks (`IsRounded`).
pub admitted-le :
    (floats : Floats) (key : String) (n t : ℕ) (calls : List Call) (l : Limiter)
    → IsRounded floats
    → 0 < l.window
    → HasLimit key (suc n) calls
    → IsOrdered t (times_of key calls)
    → All (λ u. u < t + l.window) (times_of key calls)
    → IsWithin (suc n) t (lookup_bucket key l.buckets)
    → admitted floats key calls l ≤ 2 * suc n
admitted-le floats key n t calls l m w limits o h i = omega (
  arith,
  admitted-admitted_from floats key n calls l limits,
  start_bound floats l.window (suc n) t (lookup_bucket key l.buckets) (times_of key calls) m w i o
      h,
)
