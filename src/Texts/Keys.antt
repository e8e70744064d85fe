-- ===== src/Texts/Keys.antt =====
-- `SigKey_from_string`, `signature_to_json` and `json_to_string` of lib/signature/hash.cc.
use cosicoin.Base.{
  ℕ, zero, suc, Bool, true, List, [], ◌∷◌, nat_eq, list_eq, ◌==◌, ◌&&◌, ◌||◌, length, if◌then◌else◌,
  ◌/◌, reverse, map, take, leb, eqb,
}
use cosicoin.Base.Text.{Bytes, text}
use cosicoin.Base.Result.{
  Result, ok, err, guard, json_error, ◌>>=◌, ◌>>◌, undefined_behaviour, invalid_argument,
  key_length_error,
}
use cosicoin.Json.{
  Json, null, str, arr, Items, nil, cons, string_of, at, elements, json_size, indexed,
}
use cosicoin.Host.{Host}
use cosicoin.Signature.Keys.{SigKey}
use cosicoin.Signature.Bitset.{key_len, fit, string_to_bitset, bitset_to_string}
use cosicoin.Texts.Plain.{parse_text}

-- The first `n` elements as strings.
unfoldable pub strings_of : ℕ → List Json → Result (List Bytes)
strings_of zero js = ok []
strings_of (suc n) [] = err json_error
strings_of (suc n) (j ∷ js) = do s ← string_of j; ss ← strings_of n js; ok (s ∷ ss)

-- The key of a parsed text; the source tests the length of "S0" twice and that of "S1" never.
unfoldable pub key_of_json : Json → Result SigKey
key_of_json j = do
  zeros ← at (text "S0") j
  guard (eqb (json_size zeros) key_len) key_length_error
  s0 ← strings_of key_len (indexed zeros)
  ones ← at (text "S1") j
  s1 ← strings_of key_len (indexed ones)
  ok (record { s0 = s0; s1 = s1 })

-- `SigKey_from_string`
unfoldable pub key_from_string : Host → Bytes → Result SigKey
key_from_string h s = do j ← parse_text h s; key_of_json j

-- The characters of a bit.
unfoldable pub bit_char : Bool → ℕ
bit_char b = if b then b'1' else b'0'

unfoldable pub char_bit : ℕ → Bool
char_bit c = c == b'1'

-- `std::bitset::to_string`: the highest bit comes first.
unfoldable pub bits_text : List Bool → Bytes
bits_text bits = reverse (map bit_char bits)

unfoldable pub are_bits : Bytes → Bool
are_bits [] = true
are_bits (c ∷ s) = ((c == b'0') || (c == b'1')) && are_bits s

-- `std::bitset<KEY_LEN_>(str)`
unfoldable pub text_bits : Bytes → Result (List Bool)
text_bits s =
    if are_bits (take key_len s)
    then ok (fit key_len (reverse (map char_bit (take key_len s))))
    else err invalid_argument

-- The array that `signature_to_json` fills; a value that nothing was put into is null.
unfoldable pub bit_items : List Bytes → Items
bit_items [] = nil
bit_items (s ∷ ss) = cons (str (bits_text (string_to_bitset s))) (bit_items ss)

unfoldable pub signature_json : List Bytes → Json
unfolding bit_items
signature_json [] = null
signature_json (s ∷ ss) = arr (bit_items (s ∷ ss))

-- No part is longer than a bitset, past whose end `string_to_bitset` would write.
unfoldable pub all_short : List Bytes → Bool
all_short [] = true
all_short (s ∷ ss) = leb (length s) (key_len / 8) && all_short ss

-- `signature_to_json`
unfoldable pub signature_to_json : Host → List Bytes → Result Bytes
signature_to_json h ss =
    if all_short ss then ok (h.dump (signature_json ss)) else err undefined_behaviour

-- The loop of `json_to_string`.
unfoldable pub parts_of : List Json → Result (List Bytes)
parts_of [] = ok []
parts_of (j ∷ js) = do
  s ← string_of j
  bits ← text_bits s
  rest ← parts_of js
  ok (bitset_to_string bits ∷ rest)

-- `json_to_string`
unfoldable pub json_to_string : Host → Bytes → Result (List Bytes)
json_to_string h s = do j ← parse_text h s; parts_of (elements j)
