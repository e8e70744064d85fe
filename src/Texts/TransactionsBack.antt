-- ===== src/Texts/TransactionsBack.antt =====
-- Transactions come back from their texts: lib/blockchain/transaction.cc.
use cosicoin.Base.{
  true, [], ◌≡◌, refl, sym, ap, arith, inl, inr, nat_eq, list_eq, All, list_beq, ◌≢◌, ◌<◌, ◌^◌, ◌⊎◌,
  map, lt→ltb,
}
use cosicoin.Base.Text.{Bytes}
use cosicoin.Base.Result.{ok, ◌>>=◌}
use cosicoin.Json.{
  Json, null, str, string_of, number_at, at, find_field, get_number, elements, contains_key,
  has_field,
}
use cosicoin.Host.{Host}
use cosicoin.Blockchain.Transaction.{Transaction}
use cosicoin.Texts.Transactions.{
  each_text, input_to_string, output_to_string, sender_key_json, transaction_object,
  member_unless_null, transaction_of_json, read_sender_key, transaction_json, transaction_to_string,
  transaction_from_string,
}
use cosicoin.Texts.Plain.{
  IsFaithful, is_plain, is_text, text_lt, comes_first, parse_text-dump, is_plain_items-str_items,
}
use cosicoin.Texts.SignaturesBack.{
  IsPart, signature_to_json-dump, is_text-signature_text, json_to_string-dump,
}
use cosicoin.Signature.Keys.{empty_key, SigKey, key_json, is_set}
use cosicoin.Texts.KeysBack.{
  IsWritableKey, key_to_string-dump, is_text-key_text, key_from_string-dump,
}
use cosicoin.Base.Word.{mod_small}
use cosicoin.Texts.Keys.{json_to_string, signature_json}
use cosicoin.Texts.CoinsBack.{
  FitsInput, FitsOutput, texts_json-map, inputs_read, outputs_read, are_texts-inputs,
  are_texts-outputs,
}

-- A transaction with an input and an output, numbers that fit, and no key or a whole one.
pub record IsWritableTransaction (t : Transaction) : Type 0 where
  pub some_inputs : t.inputs ≢ []
  pub some_outputs : t.outputs ≢ []
  pub inputs : All FitsInput t.inputs
  pub outputs : All FitsOutput t.outputs
  pub signature : All IsPart t.sender_sig
  pub sender : t.sender_id < 2 ^ 16
  pub id : t.tx_id < 2 ^ 32
  pub key : (t.public_key ≡ empty_key) ⊎ IsWritableKey t.public_key

module _ (h : Host) (faithful : IsFaithful h) where
  -- What is printed for the key of such a transaction.
  pub data KeyText (k : SigKey) : Json → Type 0 where
    no_text : k ≡ empty_key → KeyText k null
    key_text : IsWritableKey k → KeyText k (str (h.dump (key_json k)))

  sender_key_json-KeyText : (k : SigKey) (j : Json) → KeyText k j → sender_key_json h k ≡ ok j
  unfolding sender_key_json is_set
  sender_key_json-KeyText k j (no_text e) = rw e refl
  sender_key_json-KeyText k j (key_text w) = rw (w.full0, w.full1, key_to_string-dump h k w) refl

  is_plain-transaction_object :
      (t : Transaction) (sig : Bytes) (j : Json)
      → IsWritableTransaction t
      → KeyText t.public_key j
      → is_text sig ≡ true
      → is_plain (transaction_object h t sig j) ≡ true
  unfolding transaction_object member_unless_null is_plain is_text text_lt comes_first
  is_plain-transaction_object t sig j w (no_text e) p =
      rw
        (
          texts_json-map (input_to_string h) t.inputs w.some_inputs,
          texts_json-map (output_to_string h) t.outputs w.some_outputs,
          is_plain_items-str_items (map (input_to_string h) t.inputs),
          is_plain_items-str_items (map (output_to_string h) t.outputs),
          are_texts-inputs h faithful t.inputs w.inputs,
          are_texts-outputs h faithful t.outputs w.outputs,
          p,
          lt→ltb t.sender_id (2 ^ 64) (omega (arith, w.sender)),
          lt→ltb t.tx_id (2 ^ 64) (omega (arith, w.id)),
        )
        refl
  is_plain-transaction_object t sig j w (key_text k) p =
      rw
        (
          texts_json-map (input_to_string h) t.inputs w.some_inputs,
          texts_json-map (output_to_string h) t.outputs w.some_outputs,
          is_plain_items-str_items (map (input_to_string h) t.inputs),
          is_plain_items-str_items (map (output_to_string h) t.outputs),
          are_texts-inputs h faithful t.inputs w.inputs,
          are_texts-outputs h faithful t.outputs w.outputs,
          is_text-key_text h t.public_key k faithful,
          p,
          lt→ltb t.sender_id (2 ^ 64) (omega (arith, w.sender)),
          lt→ltb t.tx_id (2 ^ 64) (omega (arith, w.id)),
        )
        refl

  transaction_of_json-object :
      (t : Transaction) (sig : Bytes) (j : Json)
      → IsWritableTransaction t
      → KeyText t.public_key j
      → json_to_string h sig ≡ ok t.sender_sig
      → transaction_of_json h empty_key (transaction_object h t sig j) ≡ ok t
  unfolding transaction_of_json read_sender_key contains_key has_field transaction_object
      member_unless_null at find_field list_beq number_at get_number each_text elements string_of
  transaction_of_json-object t sig j w (no_text e) p =
      rw
        (
          texts_json-map (input_to_string h) t.inputs w.some_inputs,
          texts_json-map (output_to_string h) t.outputs w.some_outputs,
          inputs_read h faithful t.inputs w.inputs,
          outputs_read h faithful t.outputs w.outputs,
          p,
          mod_small t.sender_id (2 ^ 16) w.sender,
          mod_small t.tx_id (2 ^ 32) w.id,
        )
        (ap (λ k. ok (record t { public_key = k })) (sym e))
  transaction_of_json-object t sig j w (key_text k) p =
      rw
        (
          texts_json-map (input_to_string h) t.inputs w.some_inputs,
          texts_json-map (output_to_string h) t.outputs w.some_outputs,
          inputs_read h faithful t.inputs w.inputs,
          outputs_read h faithful t.outputs w.outputs,
          p,
          key_from_string-dump h t.public_key k faithful,
          mod_small t.sender_id (2 ^ 16) w.sender,
          mod_small t.tx_id (2 ^ 32) w.id,
        )
        refl

  key_texts : (k : SigKey) → (k ≡ empty_key) ⊎ IsWritableKey k → (j : Json) × KeyText k j
  key_texts k (inl e) = (null, no_text e)
  key_texts k (inr w) = (str (h.dump (key_json k)), key_text w)

  -- The JSON that `Transaction::to_string` prints.
  pub transaction_written :
      (t : Transaction)
      → IsWritableTransaction t
      → (j : Json) × (transaction_json h t ≡ ok j)
        × (is_plain j ≡ true)
        × (transaction_of_json h empty_key j ≡ ok t)
  unfolding transaction_json
  transaction_written t w =
      let (j, k) = key_texts t.public_key w.key in
      let sig = h.dump (signature_json t.sender_sig) in
      (
        transaction_object h t sig j,
        rw
            (
              signature_to_json-dump h t.sender_sig w.signature,
              sender_key_json-KeyText t.public_key j k,
            )
            refl,
        is_plain-transaction_object t sig j w k (is_text-signature_text h t.sender_sig faithful),
        transaction_of_json-object t sig j w k
            (json_to_string-dump h t.sender_sig w.signature faithful),
      )

  -- A transaction comes back from its text, if its numbers fit their types, its signature is made of
  -- parts of 32 bytes, its key is whole or empty, and it has an input and an output.
  pub transaction_from_string-transaction_to_string :
      (t old : Transaction)
      → IsWritableTransaction t
      → old.public_key ≡ empty_key
      → (transaction_to_string h t >>= λ s. transaction_from_string h s old) ≡ ok t
  unfolding transaction_to_string transaction_from_string
  transaction_from_string-transaction_to_string t old w e =
      let (j, printed, plain, read) = transaction_written t w in
      rw (printed, parse_text-dump h j faithful plain, e) read
