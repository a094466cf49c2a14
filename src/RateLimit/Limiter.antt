-- ===== src/RateLimit/Limiter.antt =====
-- Limiter.Allow and sweep (internal/platform/ratelimit/ratelimit.go). Times and the window are
-- numbers of nanoseconds; the mutex makes each call one step. The arithmetic of float64 is that of
-- the machine, here a record of its operations.
use payment_engine_v.Base.{
  ℕ, zero, suc, ◌+◌, ◌-◌, ◌*◌, ltb, leb, ℤ, pos, negsuc, String, str_eq, Bool, true, false, Option,
  none, some, List, [], ◌∷◌, if◌then◌else◌,
}

pub record Bucket : Type 0 where
  pub window_start : ℕ
  pub prev_count : ℕ
  pub curr_count : ℕ

pub record Limiter : Type 0 where
  pub window : ℕ
  pub buckets : List (String × Bucket)

abbrev pub new_limiter : ℕ → Limiter
new_limiter window = record { window = window; buckets = [] }

-- float64: the conversion from an int, the operators that Allow uses, and `>=`.
pub record Floats : Type 1 where
  pub Float : Type 0
  pub of_int : ℕ → Float
  pub minus : Float → Float → Float
  pub over : Float → Float → Float
  pub times : Float → Float → Float
  pub plus : Float → Float → Float
  pub is_ge : Float → Float → Bool

-- weight, by the elapsed part and the window.
abbrev pub weight : (f : Floats) → ℕ → ℕ → f.Float
weight f elapsed window = f.minus (f.of_int 1) (f.over (f.of_int elapsed) (f.of_int window))

-- estimate, by the counts of the previous and the present window too.
abbrev pub estimate : (f : Floats) → ℕ → ℕ → ℕ → ℕ → f.Float
estimate f prev curr elapsed window =
    f.plus (f.times (f.of_int prev) (weight f elapsed window)) (f.of_int curr)

unfoldable pub lookup_bucket : String → List (String × Bucket) → Option Bucket
lookup_bucket key [] = none
lookup_bucket key ((k, b) ∷ rows) = if str_eq k key then some b else lookup_bucket key rows

unfoldable pub put_bucket : String → Bucket → List (String × Bucket) → List (String × Bucket)
put_bucket key b [] = (key, b) ∷ []
put_bucket key b ((k, c) ∷ rows) =
    let rest = put_bucket key b rows in if str_eq k key then (k, b) ∷ rows else (k, c) ∷ rest

abbrev pub fresh : ℕ → Bucket
fresh now = record { window_start = now; prev_count = 0; curr_count = 0 }

abbrev pub or_fresh : ℕ → Option Bucket → Bucket
or_fresh now none = fresh now
or_fresh now (some b) = b

-- The switch on the time since the window began.
unfoldable pub rotate : ℕ → ℕ → Bucket → Bucket
rotate window now b =
    if leb (2 * window) (now - b.window_start)
    then fresh now
    else (if leb window (now - b.window_start)
        then record {
          window_start = b.window_start + window;
          prev_count = b.curr_count;
          curr_count = 0;
        }
        else b)

-- The verdict on a bucket of the present window.
unfoldable pub admit : Floats → ℕ → ℕ → ℕ → Bucket → Bool × Bucket
admit f window limit now b =
    if f.is_ge (estimate f b.prev_count b.curr_count (now - b.window_start) window) (f.of_int limit)
    then (false, b)
    else (true, record b { curr_count = suc b.curr_count })

unfoldable pub allow_one : Floats → ℕ → ℕ → ℕ → Bucket → Bool × Bucket
allow_one f window limit now b = admit f window limit now (rotate window now b)

-- `Allow`: a limit that is not positive admits all.
unfoldable pub allow : Floats → String → ℤ → ℕ → Limiter → Bool × Limiter
allow f key (negsuc _) now l = (true, l)
allow f key (pos zero) now l = (true, l)
allow f key (pos (suc n)) now l =
    let (admitted, b) =
      allow_one f l.window (suc n) now (or_fresh now (lookup_bucket key l.buckets)) in
    (admitted, record l { buckets = put_bucket key b l.buckets })

abbrev swept : ℕ → List (String × Bucket) → List (String × Bucket)
swept cutoff [] = []
swept cutoff ((k, b) ∷ rows) =
    let rest = swept cutoff rows in if ltb b.window_start cutoff then rest else (k, b) ∷ rest

-- `sweep`
unfoldable pub sweep : ℕ → Limiter → Limiter
sweep now l = record l { buckets = swept (now - 2 * l.window) l.buckets }
