-- ===== src/Texts/CoinsBack.antt =====
-- Inputs and outputs come back from their texts: lib/blockchain/{input,output}.cc.
use cosicoin.Base.{
  true, List, [], ◌∷◌, ◌≡◌, refl, arith, nat_eq, list_eq, All, list_beq, ◌≢◌, ◌<◌, ◌^◌, map,
}
use cosicoin.Base.Text.{Bytes}
use cosicoin.Base.Result.{Result, ok}
use cosicoin.Json.{arr, items_list, string_of, str_items, number_at, at, find_field, get_number}
use cosicoin.Host.{Host}
use cosicoin.Blockchain.Coins.{Input, Output}
use cosicoin.Texts.Transactions.{
  each_text, input_json, output_json, input_from_string, output_from_string, input_to_string,
  output_to_string, texts_json,
}
use cosicoin.Texts.Plain.{
  IsFaithful, are_texts, is_plain, is_text, text_lt, comes_first, parse_text-dump,
}
use cosicoin.Base.Word.{mod_small}

abbrev pub FitsInput : Input → Type 0
FitsInput i = (i.tx_id < 2 ^ 32) × (i.output_index < 2 ^ 64)

abbrev pub FitsOutput : Output → Type 0
FitsOutput o = (o.value < 2 ^ 64) × (o.receiver_id < 2 ^ 32)

pub texts_json-map :
    {A : Type 0} (print : A → Bytes) (xs : List A)
    → xs ≢ []
    → texts_json (map print xs) ≡ arr (str_items (map print xs))
unfolding texts_json
texts_json-map print [] n = absurd (n refl)
texts_json-map print (x ∷ xs) n = refl

-- Texts that a reading function reads as these values.
abbrev pub Reads {ℓ} : {A : Type ℓ} → (Bytes → Result A) → List Bytes → List A → Type ℓ
Reads read ss vs = each_text read (items_list (str_items ss)) ≡ ok vs

module _ (h : Host) (faithful : IsFaithful h) where
  is_plain-input_json : (i : Input) → FitsInput i → is_plain (input_json i) ≡ true
  unfolding input_json is_plain is_text text_lt comes_first
  is_plain-input_json i p = ground (arith, p.0, p.1)

  is_plain-output_json : (o : Output) → FitsOutput o → is_plain (output_json o) ≡ true
  unfolding output_json is_plain is_text text_lt comes_first
  is_plain-output_json o p = ground (arith, p.0, p.1)

  -- An input comes back from its text.
  pub input_from_string-input_to_string :
      (i : Input) → FitsInput i → input_from_string h (input_to_string h i) ≡ ok i
  unfolding input_from_string input_to_string input_json number_at at find_field get_number list_beq
  input_from_string-input_to_string i p =
      rw
        (
          parse_text-dump h (input_json i) faithful (is_plain-input_json i p),
          mod_small i.tx_id (2 ^ 32) p.0,
          mod_small i.output_index (2 ^ 64) p.1,
        )
        refl

  pub output_from_string-output_to_string :
      (o : Output) → FitsOutput o → output_from_string h (output_to_string h o) ≡ ok o
  unfolding output_from_string output_to_string output_json number_at at find_field get_number
      list_beq
  output_from_string-output_to_string o p =
      rw
        (
          parse_text-dump h (output_json o) faithful (is_plain-output_json o p),
          mod_small o.value (2 ^ 64) p.0,
          mod_small o.receiver_id (2 ^ 32) p.1,
        )
        refl

  pub inputs_read :
      (is : List Input)
      → All FitsInput is
      → Reads (input_from_string h) (map (input_to_string h) is) is
  unfolding each_text string_of items_list str_items
  inputs_read [] a = refl
  inputs_read (i ∷ is) a = rw (input_from_string-input_to_string i a.0, inputs_read is a.1) refl

  pub outputs_read :
      (os : List Output)
      → All FitsOutput os
      → Reads (output_from_string h) (map (output_to_string h) os) os
  unfolding each_text string_of items_list str_items
  outputs_read [] a = refl
  outputs_read (o ∷ os) a = rw (output_from_string-output_to_string o a.0, outputs_read os a.1) refl

  pub are_texts-inputs :
      (is : List Input) → All FitsInput is → are_texts (map (input_to_string h) is) ≡ true
  unfolding are_texts input_to_string
  are_texts-inputs [] a = refl
  are_texts-inputs (i ∷ is) a =
      rw (faithful.is_text-dump (input_json i) (is_plain-input_json i a.0), are_texts-inputs is a.1)
        refl

  pub are_texts-outputs :
      (os : List Output) → All FitsOutput os → are_texts (map (output_to_string h) os) ≡ true
  unfolding are_texts output_to_string
  are_texts-outputs [] a = refl
  are_texts-outputs (o ∷ os) a =
      rw
        (
          faithful.is_text-dump (output_json o) (is_plain-output_json o a.0),
          are_texts-outputs os a.1,
        )
        refl
