-- ===== src/RateLimit/Bounds.antt =====
-- How many requests the limiter admits (internal/platform/ratelimit).
use payment_engine_v.Base.{
  leb, ◌-◌, ◌⊎◌, ℕ, suc, ◌+◌, ◌≤◌, ◌<◌, Bool, true, false, List, [], ◌∷◌, ◌≡◌, refl, arith, inl,
  inr, Bool-cases, All,
}
use payment_engine_v.RateLimit.Limiter.{estimate, Bucket, Floats, rotate, admit, allow_one}

-- What IEEE 754 gives of conversions and correctly rounded operations on numbers that are no NaN.
pub record IsRounded (f : Floats) : Type 0 where
  pub ordered : (m n : ℕ) → m ≤ n → f.is_ge (f.of_int n) (f.of_int m) ≡ true
  pub transitive : (a b c : f.Float) → f.is_ge a b ≡ true → f.is_ge b c ≡ true → f.is_ge a c ≡ true
  -- a proper fraction lies between 0 and 1,
  pub fraction :
      (m n : ℕ)
      → m < n
      → (f.is_ge (f.over (f.of_int m) (f.of_int n)) (f.of_int 0) ≡ true)
        × (f.is_ge (f.of_int 1) (f.over (f.of_int m) (f.of_int n)) ≡ true)
  -- so does its difference to 1,
  pub complement :
      (q : f.Float)
      → f.is_ge q (f.of_int 0) ≡ true
      → f.is_ge (f.of_int 1) q ≡ true
      → (f.is_ge (f.minus (f.of_int 1) q) (f.of_int 0) ≡ true)
        × (f.is_ge (f.of_int 1) (f.minus (f.of_int 1) q) ≡ true)
  -- a part of a count is not negative,
  pub part :
      (n : ℕ) (w : f.Float)
      → f.is_ge w (f.of_int 0) ≡ true
      → f.is_ge (f.of_int 1) w ≡ true
      → f.is_ge (f.times (f.of_int n) w) (f.of_int 0) ≡ true
  -- and a term that is not negative does not lower a sum.
  pub sum :
      (a : f.Float) (n : ℕ)
      → f.is_ge a (f.of_int 0) ≡ true
      → f.is_ge (f.plus a (f.of_int n)) (f.of_int n) ≡ true

-- Within a window the estimate is no less than the present count.
estimate-ge :
    (f : Floats) (prev curr elapsed window limit : ℕ)
    → IsRounded f
    → elapsed < window
    → limit ≤ curr
    → f.is_ge (estimate f prev curr elapsed window) (f.of_int limit) ≡ true
estimate-ge f prev curr elapsed window limit r h k =
    let (low, high) = r.fraction elapsed window h in
    let (least, most) = r.complement _ low high in
    r.transitive _ _ _ (r.sum _ curr (r.part prev _ least most)) (r.ordered limit curr k)

-- The times of the calls, from `t` on, none before the last.
abbrev pub IsOrdered : ℕ → List ℕ → Type 0
IsOrdered t [] = Unit
IsOrdered t (u ∷ times) = (t ≤ u) × IsOrdered u times

abbrev pub one_if : Bool → ℕ
one_if true = 1
one_if false = 0

IsOrdered-earlier : (s t : ℕ) (times : List ℕ) → s ≤ t → IsOrdered t times → IsOrdered s times
IsOrdered-earlier s t [] h o = tt
IsOrdered-earlier s t (u ∷ times) h o = (omega (arith, h, o.0), o.1)

pub rotate_within :
    (window now : ℕ) (b : Bucket)
    → b.window_start ≤ now
    → now < b.window_start + window
    → rotate window now b ≡ b
unfolding rotate
rotate_within window now b h k = ground arith

pub le_cases : (a b : ℕ) → (a ≤ b) ⊎ (b < a)
le_cases a b = elim (Bool-cases (leb a b)) [
  | inl h ↦ inl (ground arith)
  | inr h ↦ inr (ground arith)
]

-- The bucket at the start of the next window.
abbrev pub turned : ℕ → Bucket → Bucket
turned window b = record {
  window_start = b.window_start + window;
  prev_count = b.curr_count;
  curr_count = 0;
}

pub rotate_next :
    (window now : ℕ) (b : Bucket)
    → b.window_start + window ≤ now
    → now < b.window_start + window + window
    → rotate window now b ≡ turned window b
unfolding rotate
rotate_next window now b h k = ground arith

module _ (floats : Floats) (window limit : ℕ) where
  -- How many of the calls on one bucket are admitted.
  unfoldable pub admitted_from : List ℕ → Bucket → ℕ
  admitted_from [] b = 0
  admitted_from (now ∷ times) b =
      let (verdict, b') = allow_one floats window limit now b in
      one_if verdict + admitted_from times b'

  abbrev counted : Bucket → Bucket
  counted b = record b { curr_count = suc b.curr_count }

  admit-cases :
      (now : ℕ) (b : Bucket)
      → IsRounded floats
      → now - b.window_start < window
      → (admit floats window limit now b ≡ (false, b))
        ⊎ ((b.curr_count < limit) × (admit floats window limit now b ≡ (true, counted b)))
  unfolding admit
  admit-cases now b rounded inside =
      elim (Bool-cases (
        floats.is_ge (estimate floats b.prev_count b.curr_count (now - b.window_start) window)
          (floats.of_int limit))) [
            | inl full ↦ inl (rw full refl)
            | inr free ↦ inr (
              ground (
                arith,
                free,
                estimate-ge floats b.prev_count b.curr_count (now - b.window_start) window limit
                    rounded inside,
              ),
              rw free refl,
            )
          ]

  within_window :
      (times : List ℕ) (b : Bucket)
      → IsRounded floats
      → IsOrdered b.window_start times
      → All (λ u. u < b.window_start + window) times
      → b.curr_count ≤ limit
      → admitted_from times b + b.curr_count ≤ limit
  unfolding admitted_from allow_one
  within_window [] b rounded o h c = ground arith
  within_window (u ∷ times) b rounded o h c =
      let later = IsOrdered-earlier b.window_start u times o.0 o.1 in
      rw (rotate_within window u b o.0 h.0) (elim (admit-cases u b rounded (omega arith)) [
        | inl e ↦ rw e (omega (arith, within_window times b rounded later h.1 c))
        | inr (less, e) ↦
            rw e (omega (arith, within_window times (counted b) rounded later h.1 less))
      ])

  -- Over the rest of this window and the next.
  pub within_two :
      (times : List ℕ) (b : Bucket)
      → IsRounded floats
      → 0 < window
      → IsOrdered b.window_start times
      → All (λ u. u < b.window_start + window + window) times
      → b.curr_count ≤ limit
      → admitted_from times b + b.curr_count ≤ limit + limit
  unfolding admitted_from allow_one
  within_two [] b rounded w o h c = ground arith
  within_two (u ∷ times) b rounded w o h c = elim (le_cases (b.window_start + window) u) [
    | inr inside ↦
        let later = IsOrdered-earlier b.window_start u times o.0 o.1 in
        rw (rotate_within window u b o.0 inside) (elim (admit-cases u b rounded (omega arith)) [
          | inl e ↦ rw e (omega (arith, within_two times b rounded w later h.1 c))
          | inr (less, e) ↦
              rw e (omega (arith, within_two times (counted b) rounded w later h.1 less))
        ])
    | inl over ↦
        let later = IsOrdered-earlier (b.window_start + window) u times over o.1 in
        rw (rotate_next window u b over h.0)
          (elim (admit-cases u (turned window b) rounded (omega arith)) [
            | inl e ↦ rw e (
                omega
                  (arith, c, within_window times (turned window b) rounded later h.1 (omega arith)))
            | inr (less, e) ↦ rw e (
                omega (
                  arith,
                  c,
                  within_window times (counted (turned window b)) rounded later h.1 less,
                ))
          ])
  ]
