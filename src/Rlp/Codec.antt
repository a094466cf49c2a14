-- ===== src/Rlp/Codec.antt =====
-- The encoder and the decoder (internal/treasury/wallet/rlp.go). A byte is a number, `byte(…)` the
-- remainder by 256; a uint64 is taken modulo 2^64, and a length that Go reads as a negative int is
-- one of 2^63 or more.
use payment_engine_v.Base.{
  ℕ, zero, suc, ◌+◌, ◌-◌, ◌*◌, ◌/◌, ◌%◌, ◌^◌, Bool, false, List, [], ◌∷◌, ◌++◌, ◌==◌, ltb, length,
  if◌then◌else◌,
}
use payment_engine_v.Db.{Result, ok, err}

abbrev pub take : ℕ → List ℕ → List ℕ
take zero xs = []
take (suc n) [] = []
take (suc n) (x ∷ xs) = x ∷ take n xs

abbrev pub drop : ℕ → List ℕ → List ℕ
drop zero xs = xs
drop (suc n) [] = []
drop (suc n) (x ∷ xs) = drop n xs

-- The loop of `bigEndianMinimal`; `fuel` bounds the bytes of `v`.
unfoldable pub big_endian_loop : ℕ → ℕ → List ℕ → List ℕ
big_endian_loop zero v buf = buf
big_endian_loop (suc fuel) v buf =
    let rest = big_endian_loop fuel (v / 256) ((v % 256) ∷ buf) in if v == 0 then buf else rest

-- A uint64 has 8 bytes.
unfoldable pub big_endian_minimal : ℕ → List ℕ
big_endian_minimal v = big_endian_loop 8 (v % 2 ^ 64) []

unfoldable pub encode_length : ℕ → ℕ → List ℕ
encode_length l offset =
    let bytes = big_endian_minimal l in
    if ltb l 56
    then (offset + l % 256) % 256 ∷ []
    else (offset + 55 + length bytes % 256) % 256 ∷ bytes

abbrev pub is_single : List ℕ → Bool
is_single (x ∷ []) = ltb x 128
is_single _ = false

unfoldable pub encode_bytes : List ℕ → List ℕ
encode_bytes b = if is_single b then b else encode_length (length b) 128 ++ b

unfoldable pub encode_uint : ℕ → List ℕ
encode_uint v = encode_bytes (big_endian_minimal v)

abbrev pub concat : List (List ℕ) → List ℕ
concat [] = []
concat (x ∷ xs) = x ++ concat xs

unfoldable pub encode_list : List (List ℕ) → List ℕ
encode_list items = encode_length (length (concat items)) 192 ++ concat items

-- `panicked`: a slice with a bad end. `out_of_fuel` is the model's own.
pub data RlpError : Type 0 where
  empty_input not_a_list length_mismatch truncated unsupported panicked out_of_fuel : RlpError

-- length = length<<8 | int(b)
unfoldable pub read_length : ℕ → List ℕ → ℕ
read_length l [] = l
read_length l (b ∷ bs) = read_length ((l * 256 + b) % 2 ^ 64) bs

abbrev pub split : ℕ → List ℕ → Result RlpError (List ℕ × List ℕ)
split n data' = if ltb (length data') n then err truncated else ok (take n data', drop n data')

-- From `start` on. Where start+length is no int, the sum is negative and passes the check, and the
-- slice has a negative end; so it has for a negative length, where the data is no shorter than
-- `start`.
abbrev pub split_long : ℕ → ℕ → List ℕ → Result RlpError (List ℕ × List ℕ)
split_long start n data' = if ltb (start + n) (2 ^ 63) then split n data' else err panicked

unfoldable pub decode_string : List ℕ → Result RlpError (List ℕ × List ℕ)
decode_string [] = err truncated
decode_string (prefix ∷ rest) =
    if ltb prefix 128
    then ok (prefix ∷ [], rest)
    else if prefix == 192
    then ok ([], rest)
    else if ltb prefix 184
    then split (prefix - 128) rest
    else if ltb prefix 192
    then (if ltb (length rest) (prefix - 183)
        then err truncated
        else split_long (1 + (prefix - 183)) (read_length 0 (take (prefix - 183) rest))
            (drop (prefix - 183) rest))
    else err unsupported

abbrev pub cons_item : List ℕ → Result RlpError (List (List ℕ)) → Result RlpError (List (List ℕ))
cons_item item (ok items) = ok (item ∷ items)
cons_item item (err e) = err e

abbrev pub next_item :
    Result RlpError (List ℕ × List ℕ)
    → (List ℕ → Result RlpError (List (List ℕ)))
    → Result RlpError (List (List ℕ))
next_item (ok (item, rest)) go = cons_item item (go rest)
next_item (err e) go = err e

-- `for len(payload) > 0`; each item takes a byte at least, so that the length of the payload is fuel
-- enough.
unfoldable pub decode_items : ℕ → List ℕ → Result RlpError (List (List ℕ))
decode_items fuel [] = ok []
decode_items zero (b ∷ bs) = err out_of_fuel
decode_items (suc fuel) (b ∷ bs) = next_item (decode_string (b ∷ bs)) (decode_items fuel)

abbrev pub decode_payload : ℕ → List ℕ → Result RlpError (List (List ℕ))
decode_payload n payload =
    if length payload == n then decode_items (length payload) payload else err length_mismatch

-- `rlpDecodeTopLevelList`
unfoldable pub decode_list : List ℕ → Result RlpError (List (List ℕ))
decode_list [] = err empty_input
decode_list (prefix ∷ rest) =
    if ltb prefix 192
    then err not_a_list
    else if ltb prefix 248
    then decode_payload (prefix - 192) rest
    else if ltb (length rest) (prefix - 247)
    then err truncated
    else decode_payload (read_length 0 (take (prefix - 247) rest)) (drop (prefix - 247) rest)
