-- ===== src/Texts/SignaturesBack.antt =====
-- A signature comes back from its text of bits (`signature_to_json`, `json_to_string`).
use cosicoin.Base.{
  Bool, true, false, List, [], ◌∷◌, ◌++◌, ◌≡◌, refl, sym, ap, ◌∙◌, arith, nat_eq, list_eq, ◌&&◌,
  length, All, ◌/◌, length-reverse, reverse, take, map, take-length, length-map, map-reverse,
  reverse-reverse,
}
use cosicoin.Base.Text.{Bytes}
use cosicoin.Base.Result.{ok}
use cosicoin.Json.{items_list, elements, string_of}
use cosicoin.Host.{Host}
use cosicoin.Signature.Bitset.{key_len, fit, string_to_bitset}
use cosicoin.Texts.Keys.{
  are_bits, bits_text, char_bit, text_bits, parts_of, signature_json, all_short, bit_items,
  signature_to_json, json_to_string, bit_char,
}
use cosicoin.Texts.Plain.{is_text, IsFaithful, is_plain, parse_text-dump, is_plain_items}
use cosicoin.Signature.Roundtrip.{
  IsByte, fit-length, length-string_to_bitset, bitset_to_string-string_to_bitset,
}

-- What a signature is made of: strings of as many bytes as a bitset has room for.
abbrev pub IsPart : Bytes → Type 0
IsPart s = (length s ≡ key_len / 8) × All IsByte s

are_bits-append : (s t : Bytes) → are_bits (s ++ t) ≡ (are_bits s && are_bits t)
unfolding are_bits
are_bits-append [] t = refl
are_bits-append (c ∷ s) t = ground (arith, are_bits-append s t)

are_bits-bits_text : (bits : List Bool) → are_bits (bits_text bits) ≡ true
unfolding bits_text are_bits bit_char
are_bits-bits_text [] = refl
are_bits-bits_text (b ∷ bits) =
    rw (are_bits-append (reverse (map bit_char bits)) (bit_char b ∷ []), are_bits-bits_text bits)
      (ground arith)

char_bit-bit_char : (bits : List Bool) → map char_bit (map bit_char bits) ≡ bits
unfolding char_bit bit_char
char_bit-bit_char [] = refl
char_bit-bit_char (true ∷ bits) = ap (◌∷◌ true) (char_bit-bit_char bits)
char_bit-bit_char (false ∷ bits) = ap (◌∷◌ false) (char_bit-bit_char bits)

length-bits_text : (bits : List Bool) → length (bits_text bits) ≡ length bits
unfolding bits_text
length-bits_text bits = length-reverse (map bit_char bits) ∙ length-map bits bit_char

read_bits : (bits : List Bool) → reverse (map char_bit (bits_text bits)) ≡ bits
unfolding bits_text
read_bits bits =
    ap reverse (map-reverse char_bit (map bit_char bits))
    ∙ reverse-reverse (map char_bit (map bit_char bits))
    ∙ char_bit-bit_char bits

text_bits-bits_text :
    (bits : List Bool) → length bits ≡ key_len → text_bits (bits_text bits) ≡ ok bits
unfolding text_bits
text_bits-bits_text bits e =
    let n : length (bits_text bits) ≡ key_len = length-bits_text bits ∙ e in
    let whole : take key_len (bits_text bits) ≡ bits_text bits =
      ap (λ k. take k (bits_text bits)) (sym n) ∙ take-length (bits_text bits) in
    rw (whole, are_bits-bits_text bits, read_bits bits)
      (ap (λ k. ok (fit k bits)) (sym e) ∙ ap ok (fit-length bits))

parts_of-bit_items :
    (ss : List Bytes) → All IsPart ss → parts_of (items_list (bit_items ss)) ≡ ok ss
unfolding parts_of bit_items items_list string_of
parts_of-bit_items [] a = refl
parts_of-bit_items (s ∷ ss) a =
    rw
      (
        text_bits-bits_text (string_to_bitset s) (length-string_to_bitset s),
        parts_of-bit_items ss a.1,
        bitset_to_string-string_to_bitset s a.0.0 a.0.1,
      )
      refl

parts_of-signature_json :
    (ss : List Bytes) → All IsPart ss → parts_of (elements (signature_json ss)) ≡ ok ss
unfolding signature_json elements parts_of
parts_of-signature_json [] a = refl
parts_of-signature_json (s ∷ ss) a = parts_of-bit_items (s ∷ ss) a

all_short-IsPart : (ss : List Bytes) → All IsPart ss → all_short ss ≡ true
unfolding all_short
all_short-IsPart [] a = refl
all_short-IsPart (s ∷ ss) a = ground (arith, a.0.0, all_short-IsPart ss a.1)

is_text-append : (s t : Bytes) → is_text (s ++ t) ≡ (is_text s && is_text t)
unfolding is_text
is_text-append [] t = refl
is_text-append (c ∷ s) t = ground (arith, is_text-append s t)

is_text-bits_text : (bits : List Bool) → is_text (bits_text bits) ≡ true
unfolding bits_text is_text bit_char
is_text-bits_text [] = refl
is_text-bits_text (b ∷ bits) =
    rw (is_text-append (reverse (map bit_char bits)) (bit_char b ∷ []), is_text-bits_text bits)
      (ground arith)

is_plain-bit_items : (ss : List Bytes) → is_plain_items (bit_items ss) ≡ true
unfolding bit_items is_plain
is_plain-bit_items [] = refl
is_plain-bit_items (s ∷ ss) = rw (is_text-bits_text, is_plain-bit_items ss) refl

is_plain-signature_json : (ss : List Bytes) → is_plain (signature_json ss) ≡ true
unfolding signature_json is_plain
is_plain-signature_json [] = refl
is_plain-signature_json (s ∷ ss) = is_plain-bit_items (s ∷ ss)

module _ (h : Host) (ss : List Bytes) where
  pub signature_to_json-dump :
      All IsPart ss → signature_to_json h ss ≡ ok (h.dump (signature_json ss))
  unfolding signature_to_json
  signature_to_json-dump a = rw (all_short-IsPart ss a) refl

  pub is_text-signature_text : IsFaithful h → is_text (h.dump (signature_json ss)) ≡ true
  is_text-signature_text faithful =
      faithful.is_text-dump (signature_json ss) (is_plain-signature_json ss)

  pub json_to_string-dump :
      All IsPart ss → IsFaithful h → json_to_string h (h.dump (signature_json ss)) ≡ ok ss
  unfolding json_to_string
  json_to_string-dump a faithful =
      rw (parse_text-dump h (signature_json ss) faithful (is_plain-signature_json ss))
        (parts_of-signature_json ss a)
