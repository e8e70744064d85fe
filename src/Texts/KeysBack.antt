-- ===== src/Texts/KeysBack.antt =====
-- Keys and signatures come back from their texts (lib/signature/hash.cc).
use cosicoin.Base.{
  ℕ, zero, suc, true, List, [], ◌∷◌, ◌≡◌, refl, arith, nat_eq, list_eq, length, list_beq,
}
use cosicoin.Base.Text.{Bytes}
use cosicoin.Base.Result.{ok}
use cosicoin.Json.{items_list, str_items, string_of, at, find_field, json_size, indexed}
use cosicoin.Host.{Host}
use cosicoin.Signature.Keys.{SigKey, key_json, key_to_string}
use cosicoin.Texts.Keys.{strings_of, key_of_json, key_from_string}
use cosicoin.Signature.Bitset.{key_len}
use cosicoin.Texts.Plain.{
  is_plain, IsFaithful, are_texts, is_text, parse_text-dump, text_lt, comes_first,
  is_plain_items-str_items, length-str_items,
}

-- A key with both halves, of ASCII strings such as digests.
pub record IsWritableKey (k : SigKey) : Type 0 where
  pub full0 : length k.s0 ≡ key_len
  pub full1 : length k.s1 ≡ key_len
  pub text0 : are_texts k.s0 ≡ true
  pub text1 : are_texts k.s1 ≡ true

strings_of-str_items :
    (ss : List Bytes) (n : ℕ) → length ss ≡ n → strings_of n (items_list (str_items ss)) ≡ ok ss
unfolding strings_of items_list str_items string_of
strings_of-str_items [] zero e = refl
strings_of-str_items [] (suc n) e = absurd (omega (arith, e))
strings_of-str_items (s ∷ ss) zero e = absurd (omega (arith, e))
strings_of-str_items (s ∷ ss) (suc n) e = rw (strings_of-str_items ss n (omega (arith, e))) refl

is_plain-key_json : (k : SigKey) → IsWritableKey k → is_plain (key_json k) ≡ true
unfolding key_json is_plain is_text text_lt comes_first
is_plain-key_json k w =
    rw (is_plain_items-str_items k.s0, is_plain_items-str_items k.s1, w.text0, w.text1) refl

key_of_json-key_json : (k : SigKey) → IsWritableKey k → key_of_json (key_json k) ≡ ok k
unfolding key_of_json key_json at find_field list_beq json_size indexed
key_of_json-key_json k w =
    rw
      (
        length-str_items,
        w.full0,
        strings_of-str_items k.s0 key_len w.full0,
        strings_of-str_items k.s1 key_len w.full1,
      )
      refl

module _ (h : Host) (k : SigKey) (w : IsWritableKey k) where
  pub key_to_string-dump : key_to_string h k ≡ ok (h.dump (key_json k))
  unfolding key_to_string
  key_to_string-dump = rw (w.full0, w.full1) refl

  pub is_text-key_text : IsFaithful h → is_text (h.dump (key_json k)) ≡ true
  is_text-key_text faithful = faithful.is_text-dump (key_json k) (is_plain-key_json k w)

  pub key_from_string-dump : IsFaithful h → key_from_string h (h.dump (key_json k)) ≡ ok k
  unfolding key_from_string
  key_from_string-dump faithful =
      rw (parse_text-dump h (key_json k) faithful (is_plain-key_json k w))
        (key_of_json-key_json k w)
