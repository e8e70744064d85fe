-- ===== src/Texts/Plain.antt =====
-- What the texts rely on of the JSON library (include/json/json.hpp): values made of ASCII strings,
-- numbers of 64 bits and objects with rising keys are printed in ASCII and parse back, and the empty
-- text is no JSON.
use cosicoin.Base.{
  suc, Bool, true, false, none, some, List, [], ◌∷◌, ◌≡◌, refl, ap, nat_eq, list_eq, ◌==◌, ◌&&◌,
  length, if◌then◌else◌, ◌^◌, ltb,
}
use cosicoin.Base.Text.{Bytes}
use cosicoin.Base.Result.{Result, ok, err, json_error}
use cosicoin.Json.{
  Json, null, num, bool, str, arr, obj, Items, nil, cons, Fields, field, end, str_items, items_list,
}
use cosicoin.Host.{Host}

-- Bytes of ASCII.
unfoldable pub is_text : Bytes → Bool
is_text [] = true
is_text (c ∷ s) = ltb c 128 && is_text s

-- The order of `std::string`, strict.
unfoldable pub text_lt : Bytes → Bytes → Bool
text_lt s [] = false
text_lt [] (d ∷ t) = true
text_lt (c ∷ s) (d ∷ t) = if ltb c d then true else if c == d then text_lt s t else false

-- Does a key come before the first of the members?
unfoldable pub comes_first : Bytes → Fields → Bool
comes_first k end = true
comes_first k (field x j fs) = text_lt k x

unfoldable mutual
  pub is_plain : Json → Bool
  is_plain null = true
  is_plain (num n) = ltb n (2 ^ 64)
  is_plain (bool b) = true
  is_plain (str s) = is_text s
  is_plain (arr is) = is_plain_items is
  is_plain (obj fs) = is_plain_fields fs

  pub is_plain_items : Items → Bool
  is_plain_items nil = true
  is_plain_items (cons j is) = is_plain j && is_plain_items is

  pub is_plain_fields : Fields → Bool
  is_plain_fields end = true
  is_plain_fields (field k j fs) =
      (is_text k && comes_first k fs) && (is_plain j && is_plain_fields fs)

-- Strings of ASCII.
unfoldable pub are_texts : List Bytes → Bool
are_texts [] = true
are_texts (s ∷ ss) = is_text s && are_texts ss

-- The part of the library's contract that the round trips need.
pub record IsFaithful (h : Host) : Type 0 where
  pub parse-dump : (j : Json) → is_plain j ≡ true → h.parse (h.dump j) ≡ some j
  pub parse-empty : h.parse [] ≡ none
  pub is_text-dump : (j : Json) → is_plain j ≡ true → is_text (h.dump j) ≡ true

-- `json::parse`, which throws on a text that is no JSON.
unfoldable pub parse_text : Host → Bytes → Result Json
parse_text h s = elim (h.parse s) [ none ↦ err json_error | some j ↦ ok j ]

pub parse_text-dump :
    (h : Host) (j : Json) → IsFaithful h → is_plain j ≡ true → parse_text h (h.dump j) ≡ ok j
unfolding parse_text
parse_text-dump h j faithful p = rw (parse_text, faithful.parse-dump j p) refl

pub is_plain_items-str_items : (ss : List Bytes) → is_plain_items (str_items ss) ≡ are_texts ss
unfolding is_plain_items str_items are_texts is_plain
is_plain_items-str_items [] = refl
is_plain_items-str_items (s ∷ ss) = rw (is_plain_items-str_items ss) refl

pub length-str_items : (ss : List Bytes) → length (items_list (str_items ss)) ≡ length ss
unfolding str_items items_list
length-str_items [] = refl
length-str_items (s ∷ ss) = ap suc (length-str_items ss)
