-- ===== src/Rlp/RoundTrip.antt =====
-- What the encoder writes, the decoder reads (internal/treasury/wallet/rlp.go).
use payment_engine_v.Base.{
  ℕ, zero, suc, ◌+◌, ◌-◌, ◌%◌, ◌^◌, ◌≤◌, ◌<◌, ◌≡◌, refl, ap, true, false, List, [], ◌∷◌, ◌++◌, ◌==◌,
  ltb, length, length-append, map, Bool-cases, inl, inr, arith,
}
use payment_engine_v.Db.{ok}
use payment_engine_v.Rlp.Codec.{
  take, drop, big_endian_minimal, encode_length, is_single, encode_bytes, concat, encode_list,
  read_length, split, split_long, decode_string, decode_items, decode_list, next_item,
}
use payment_engine_v.Rlp.Lengths.{read-big_endian_minimal, length-big_endian_minimal}

take-append : (b rest : List ℕ) → take (length b) (b ++ rest) ≡ b
take-append [] rest = refl
take-append (x ∷ b) rest = ap (λ ys. x ∷ ys) (take-append b rest)

drop-append : (b rest : List ℕ) → drop (length b) (b ++ rest) ≡ rest
drop-append [] rest = refl
drop-append (x ∷ b) rest = drop-append b rest

append_assoc : (a b c : List ℕ) → (a ++ b) ++ c ≡ a ++ (b ++ c)
append_assoc [] b c = refl
append_assoc (x ∷ a) b c = ap (λ ys. x ∷ ys) (append_assoc a b c)

enough : (b rest : List ℕ) → ltb (length (b ++ rest)) (length b) ≡ false
enough b rest = ground (arith, length-append b rest)

split-append : (b rest : List ℕ) → split (length b) (b ++ rest) ≡ ok (b, rest)
split-append b rest = rw (split, enough b rest, take-append b rest, drop-append b rest) refl

decode_short : (l : ℕ) (rest : List ℕ) → l < 56 → decode_string ((128 + l) ∷ rest) ≡ split l rest
unfolding decode_string
decode_short l rest h =
    let a : ltb (128 + l) 128 ≡ false = ground arith in
    let b : ((128 + l) == 192) ≡ false = ground arith in
    let c : ltb (128 + l) 184 ≡ true = ground arith in
    let d : 128 + l - 128 ≡ l = omega arith in rw (a, b, c, d) refl

decode_long :
    (bytes rest : List ℕ)
    → 1 ≤ length bytes
    → length bytes ≤ 8
    → decode_string ((183 + length bytes) ∷ (bytes ++ rest))
      ≡ split_long (1 + length bytes) (read_length 0 bytes) rest
unfolding decode_string
decode_long bytes rest h k =
    let a : ltb (183 + length bytes) 128 ≡ false = ground arith in
    let b : ((183 + length bytes) == 192) ≡ false = ground arith in
    let c : ltb (183 + length bytes) 184 ≡ false = ground arith in
    let e : ltb (183 + length bytes) 192 ≡ true = ground arith in
    let d : 183 + length bytes - 183 ≡ length bytes = omega arith in
    rw (a, b, c, e, d, enough bytes rest, take-append bytes rest, drop-append bytes rest) refl

same_length : (l : ℕ) → (l == l) ≡ true
same_length l = ground arith

small_end : (start l : ℕ) → start + l < 2 ^ 63 → ltb (start + l) (2 ^ 63) ≡ true
small_end start l h = ground (arith, h)

short_prefix : (l o : ℕ) → l < 56 → o ≤ 192 → (o + l % 256) % 256 ≡ o + l
short_prefix l o h k = omega (arith, h, k)

long_prefix : (k o : ℕ) → k ≤ 8 → o ≤ 192 → (o + 55 + k % 256) % 256 ≡ o + 55 + k
long_prefix k o h p = omega (arith, h, p)

length-long :
    (b : List ℕ)
    → ltb (length b) 56 ≡ false
    → length (encode_length (length b) 128 ++ b)
      ≡ 1 + length (big_endian_minimal (length b)) + length b
unfolding encode_length
length-long b q = rw q (omega (arith, length-append (big_endian_minimal (length b)) b))

decode_prefixed :
    (b rest : List ℕ)
    → length (encode_length (length b) 128 ++ b) < 2 ^ 63
    → decode_string (encode_length (length b) 128 ++ (b ++ rest)) ≡ ok (b, rest)
unfolding encode_length
decode_prefixed b rest h' =
    let h : length b < 2 ^ 63 = omega (arith, h', length-append (encode_length (length b) 128) b) in
    elim (Bool-cases (ltb (length b) 56)) [
      | inl p ↦
          rw
            (
              p,
              short_prefix (length b) 128 (ground (arith, p)) (omega arith),
              decode_short (length b) (b ++ rest) (ground (arith, p)),
              split-append b rest,
            )
            refl
      | inr q ↦
          let (one, eight) =
            length-big_endian_minimal (length b) (ground (arith, q)) (omega (arith, h)) in
          rw
            (
              q,
              long_prefix (length (big_endian_minimal (length b))) 128 eight (omega arith),
              decode_long (big_endian_minimal (length b)) (b ++ rest) one eight,
              read-big_endian_minimal (length b) (omega (arith, h)),
              small_end (1 + length (big_endian_minimal (length b))) (length b)
                  (omega (arith, h', length-long b q)),
              split-append b rest,
            )
            refl
    ]

decode_single : (b rest : List ℕ) → is_single b ≡ true → decode_string (b ++ rest) ≡ ok (b, rest)
unfolding decode_string
decode_single [] rest h = cc
decode_single (x ∷ []) rest h = rw h refl
decode_single (x ∷ y ∷ b) rest h = cc

-- The decoder reads one encoded string back, and leaves what follows it.
pub decode_string-encode_bytes :
    (b rest : List ℕ)
    → length (encode_bytes b) < 2 ^ 63
    → decode_string (encode_bytes b ++ rest) ≡ ok (b, rest)
unfolding encode_bytes
decode_string-encode_bytes b rest h = elim (Bool-cases (is_single b)) [
  | inl p ↦ rw p (decode_single b rest p)
  | inr q ↦
      rw (q, append_assoc (encode_length (length b) 128) b rest)
        (decode_prefixed b rest (rw q at h))
]

length-encode_length : (l o : ℕ) → 1 ≤ length (encode_length l o)
unfolding encode_length
length-encode_length l o = elim (Bool-cases (ltb l 56)) [
  | inl p ↦ rw p (omega arith)
  | inr q ↦ rw q (omega arith)
]

length-single : (b : List ℕ) → is_single b ≡ true → length b ≡ 1
length-single [] h = cc
length-single (x ∷ []) h = refl
length-single (x ∷ y ∷ b) h = cc

length-encode_bytes :
    (b : List ℕ) → (1 ≤ length (encode_bytes b)) × (length b ≤ length (encode_bytes b))
unfolding encode_bytes
length-encode_bytes b = elim (Bool-cases (is_single b)) [
  | inl p ↦ rw p (omega (arith, length-single b p), omega arith)
  | inr q ↦
      let n = length-encode_length (length b) 128 in
      let e = length-append (encode_length (length b) 128) b in
      rw q (omega (arith, n, e), omega (arith, n, e))
]

decode_items_step :
    (fuel : ℕ) (payload : List ℕ)
    → 1 ≤ length payload
    → decode_items (suc fuel) payload ≡ next_item (decode_string payload) (decode_items fuel)
unfolding decode_items
decode_items_step fuel [] h = ground (arith, h)
decode_items_step fuel (x ∷ payload) h = refl

abbrev payload_of : List (List ℕ) → List ℕ
payload_of items = concat (map encode_bytes items)

decode_items-payload_of :
    (fuel : ℕ) (items : List (List ℕ))
    → length (payload_of items) ≤ fuel
    → length (payload_of items) < 2 ^ 63
    → decode_items fuel (payload_of items) ≡ ok items
unfolding decode_items
decode_items-payload_of zero [] h k = refl
decode_items-payload_of (suc fuel) [] h k = refl
decode_items-payload_of zero (b ∷ items) h k =
    let (one, _) = length-encode_bytes b in
    let e = length-append (encode_bytes b) (payload_of items) in absurd (omega (arith, one, e, h))
decode_items-payload_of (suc fuel) (b ∷ items) h k =
    let (one, small) = length-encode_bytes b in
    let e = length-append (encode_bytes b) (payload_of items) in
    let step =
      decode_items_step fuel (encode_bytes b ++ payload_of items) (omega (arith, one, e)) in
    let ih = decode_items-payload_of fuel items (omega (arith, one, e, h)) (omega (arith, e, k)) in
    rw (step, decode_string-encode_bytes b (payload_of items) (omega (arith, e, k)), ih) refl

decode_list_short :
    (payload : List ℕ)
    → length payload < 56
    → decode_list ((192 + length payload) ∷ payload) ≡ decode_items (length payload) payload
unfolding decode_list
decode_list_short payload h =
    let a : ltb (192 + length payload) 192 ≡ false = ground arith in
    let b : ltb (192 + length payload) 248 ≡ true = ground arith in
    let d : 192 + length payload - 192 ≡ length payload = omega arith in
    rw (a, b, d, same_length (length payload)) refl

decode_list_long :
    (bytes payload : List ℕ)
    → 1 ≤ length bytes
    → read_length 0 bytes ≡ length payload
    → decode_list ((247 + length bytes) ∷ (bytes ++ payload))
      ≡ decode_items (length payload) payload
unfolding decode_list
decode_list_long bytes payload h r =
    let a : ltb (247 + length bytes) 192 ≡ false = ground arith in
    let b : ltb (247 + length bytes) 248 ≡ false = ground arith in
    let d : 247 + length bytes - 247 ≡ length bytes = omega arith in
    rw
      (
        a,
        b,
        d,
        enough bytes payload,
        take-append bytes payload,
        drop-append bytes payload,
        r,
        same_length (length payload),
      )
      refl

-- A list of byte strings whose encodings take fewer than 2^63 bytes in all is read back as it was
-- written: `rlpDecodeTopLevelList` of `rlpEncodeList` of the strings' `rlpEncodeBytes` is that list.
pub decode_list-encode_list :
    (items : List (List ℕ))
    → length (concat (map encode_bytes items)) < 2 ^ 63
    → decode_list (encode_list (map encode_bytes items)) ≡ ok items
unfolding encode_list encode_length
decode_list-encode_list items h =
    let p = payload_of items in
    let ready = decode_items-payload_of (length p) items (omega arith) h in
    elim (Bool-cases (ltb (length p) 56)) [
      | inl s ↦
          rw
            (
              s,
              short_prefix (length p) 192 (ground (arith, s)) (omega arith),
              decode_list_short p (ground (arith, s)),
            )
            ready
      | inr q ↦
          let (one, eight) =
            length-big_endian_minimal (length p) (ground (arith, q)) (omega (arith, h)) in
          rw
            (
              q,
              long_prefix (length (big_endian_minimal (length p))) 192 eight (omega arith),
              decode_list_long (big_endian_minimal (length p)) p one
                  (read-big_endian_minimal (length p) (omega (arith, h))),
            )
            ready
    ]
