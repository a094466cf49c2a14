-- ===== src/Rlp/Tests.antt =====
-- Examples for internal/treasury/wallet/rlp.go.
use payment_engine_v.Base.{ℕ, ◌^◌, ◌<◌, List, [], ◌∷◌, ◌≡◌, refl, map, length, arith}
use payment_engine_v.Db.{ok, err}
use payment_engine_v.Rlp.Codec.{
  big_endian_loop, big_endian_minimal, encode_length, encode_bytes, encode_uint, encode_list,
  concat, read_length, decode_string, decode_list, panicked,
}
use payment_engine_v.Rlp.RoundTrip.{decode_list-encode_list}

abbrev items : List (List ℕ)
items = (7 ∷ []) ∷ [] ∷ (200 ∷ 3 ∷ []) ∷ []

items_bytes : encode_list (map encode_bytes items) ≡ 197 ∷ 7 ∷ 128 ∷ 130 ∷ 200 ∷ 3 ∷ []
unfolding encode_list encode_bytes encode_length big_endian_minimal big_endian_loop
items_bytes = refl

-- 1024 as an integer.
uint_bytes : encode_uint 1024 ≡ 130 ∷ 4 ∷ 0 ∷ []
unfolding encode_uint encode_bytes encode_length big_endian_minimal big_endian_loop
uint_bytes = refl

-- A header that claims a length of 2^64 - 1 bytes.
negative_length :
    decode_string (191 ∷ 255 ∷ 255 ∷ 255 ∷ 255 ∷ 255 ∷ 255 ∷ 255 ∷ 255 ∷ []) ≡ err panicked
unfolding decode_string read_length
negative_length = refl

items_small : length (concat (map encode_bytes items)) < 2 ^ 63
unfolding encode_list encode_bytes encode_length big_endian_minimal big_endian_loop
items_small = omega arith

decode_list-encode_list_example : decode_list (encode_list (map encode_bytes items)) ≡ ok items
decode_list-encode_list_example = decode_list-encode_list items items_small
