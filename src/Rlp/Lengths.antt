-- ===== src/Rlp/Lengths.antt =====
-- Lengths are written in at most eight bytes, and read back (internal/treasury/wallet/rlp.go).
use payment_engine_v.Base.{
  ℕ, zero, suc, ◌+◌, ◌*◌, ◌/◌, ◌%◌, ◌^◌, ◌≤◌, ◌<◌, ◌≡◌, refl, List, [], ◌∷◌, ◌==◌, length,
  Bool-cases, inl, inr, arith,
}
use payment_engine_v.Rlp.Codec.{big_endian_loop, big_endian_minimal, read_length}

-- 256 to the power of `n`.
abbrev pub bound : ℕ → ℕ
bound zero = 1
bound (suc n) = 256 * bound n

is_zero : (v : ℕ) → v < 1 → v ≡ 0
is_zero v h = omega (arith, h)

last_byte : (v n : ℕ) → v < 256 * n → 256 * n ≤ 2 ^ 64 → (v / 256 * 256 + v % 256) % 2 ^ 64 ≡ v
last_byte v n h b = omega (arith, h, b)

-- The bytes of `v` go before those that are there: a reader meets `v` first.
read_loop :
    (fuel v : ℕ) (buf : List ℕ)
    → v < bound fuel
    → bound fuel ≤ 2 ^ 64
    → read_length 0 (big_endian_loop fuel v buf) ≡ read_length v buf
unfolding big_endian_loop read_length
read_loop zero v buf h b = rw (is_zero v h) refl
read_loop (suc fuel) v buf h b = elim (Bool-cases (v == 0)) [
  | inl p ↦ rw (is_zero v (ground (arith, p))) refl
  | inr q ↦
      rw
        (
          q,
          read_loop fuel (v / 256) (v % 256 ∷ buf) (omega (arith, h)) (omega (arith, b)),
          last_byte v (bound fuel) h b,
        )
        refl
]

loop_length : (fuel v : ℕ) (buf : List ℕ) → length (big_endian_loop fuel v buf) ≤ fuel + length buf
unfolding big_endian_loop
loop_length zero v buf = omega arith
loop_length (suc fuel) v buf = ground (arith, loop_length fuel (v / 256) ((v % 256) ∷ buf))

loop_nonempty : (fuel v : ℕ) (buf : List ℕ) → length buf ≤ length (big_endian_loop fuel v buf)
unfolding big_endian_loop
loop_nonempty zero v buf = omega arith
loop_nonempty (suc fuel) v buf = ground (arith, loop_nonempty fuel (v / 256) ((v % 256) ∷ buf))

small : (v : ℕ) → v < 2 ^ 64 → v % 2 ^ 64 ≡ v
small v h = omega (arith, h)

-- What `bigEndianMinimal` writes is read back as the number.
pub read-big_endian_minimal : (v : ℕ) → v < 2 ^ 64 → read_length 0 (big_endian_minimal v) ≡ v
unfolding big_endian_minimal read_length
read-big_endian_minimal v h = rw (small v h) (read_loop 8 v [] h (omega arith))

-- A number that is not zero has from one to eight bytes.
pub length-big_endian_minimal :
    (v : ℕ)
    → 1 ≤ v
    → v < 2 ^ 64
    → (1 ≤ length (big_endian_minimal v)) × (length (big_endian_minimal v) ≤ 8)
unfolding big_endian_minimal big_endian_loop
length-big_endian_minimal v p h = (
  rw (small v h) (ground (arith, p, loop_nonempty 7 (v / 256) (v % 256 ∷ []))),
  omega (arith, loop_length 8 (v % 2 ^ 64) []),
)
