-- ===== src/Texts/Transactions.antt =====
-- `to_string` and `from_string` of inputs, outputs and transactions: lib/blockchain/input.cc,
-- lib/blockchain/output.cc and lib/blockchain/transaction.cc. The members of an object stand in the
-- order of their keys, as the library keeps them.
use cosicoin.Base.{List, [], ◌∷◌, nat_eq, list_eq, if◌then◌else◌, ◌^◌, map}
use cosicoin.Base.Text.{Bytes, text}
use cosicoin.Base.Result.{Result, ok, ◌>>=◌}
use cosicoin.Json.{
  Json, null, num, str, arr, obj, Fields, field, end, str_items, string_of, contains_key, number_at,
  at, elements,
}
use cosicoin.Host.{Host}
use cosicoin.Blockchain.Coins.{Input, Output}
use cosicoin.Signature.Keys.{SigKey, is_set, key_to_string}
use cosicoin.Blockchain.Transaction.{Transaction}
use cosicoin.Texts.Plain.{parse_text}
use cosicoin.Texts.Keys.{signature_to_json, key_from_string, json_to_string}

unfoldable pub input_json : Input → Json
input_json i =
    obj (field (text "outputIndex") (num i.output_index) (field (text "txID") (num i.tx_id) end))

unfoldable pub output_json : Output → Json
output_json o =
    obj (field (text "receiverID") (num o.receiver_id) (field (text "value") (num o.value) end))

-- One member in front of others, if there is something to put into it.
unfoldable pub member_unless_null : Bytes → Json → Fields → Fields
member_unless_null k null fs = fs
member_unless_null k j fs = field k j fs

-- The array that `push_back` makes of the texts of a list; without any it stays null.
unfoldable pub texts_json : List Bytes → Json
texts_json [] = null
texts_json (s ∷ ss) = arr (str_items (s ∷ ss))

-- The loops of `from_string`: each element is a text.
unfoldable pub each_text {ℓ} : {A : Type ℓ} → (Bytes → Result A) → List Json → Result (List A)
each_text read [] = ok []
each_text read (j ∷ js) = do s ← string_of j; a ← read s; rest ← each_text read js; ok (a ∷ rest)

module _ (h : Host) where
  -- `Input::to_string`
  unfoldable pub input_to_string : Input → Bytes
  unfolding input_json
  input_to_string i = h.dump (input_json i)

  -- `Input::from_string`
  unfoldable pub input_from_string : Bytes → Result Input
  input_from_string s = do
    j ← parse_text h s
    tx_id ← number_at (text "txID") (2 ^ 32) j
    output_index ← number_at (text "outputIndex") (2 ^ 64) j
    ok (record { tx_id = tx_id; output_index = output_index })

  -- `Output::to_string`
  unfoldable pub output_to_string : Output → Bytes
  unfolding output_json
  output_to_string o = h.dump (output_json o)

  -- `Output::from_string`
  unfoldable pub output_from_string : Bytes → Result Output
  output_from_string s = do
    j ← parse_text h s
    value ← number_at (text "value") (2 ^ 64) j
    receiver_id ← number_at (text "receiverID") (2 ^ 32) j
    ok (record { value = value; receiver_id = receiver_id })

  -- The text of the sender's key, when both halves are there.
  unfoldable pub sender_key_json : SigKey → Result Json
  sender_key_json k = if is_set k then (do s ← key_to_string h k; ok (str s)) else ok null

  -- The object that `Transaction::to_string` prints, with the texts of the signature and the key.
  unfoldable pub transaction_object : Transaction → Bytes → Json → Json
  unfolding texts_json member_unless_null
  transaction_object t sig key = obj (
      member_unless_null (text "inputs") (texts_json (map input_to_string t.inputs)) (
        member_unless_null (text "outputs") (texts_json (map output_to_string t.outputs)) (
          member_unless_null (text "publicKey") key (
            field (text "senderID") (num t.sender_id)
              (field (text "senderSig") (str sig) (field (text "txID") (num t.tx_id) end))))))

  unfoldable pub transaction_json : Transaction → Result Json
  unfolding transaction_object
  transaction_json t = do
    sig ← signature_to_json h t.sender_sig
    key ← sender_key_json t.public_key
    ok (transaction_object t sig key)

  -- `Transaction::to_string`
  unfoldable pub transaction_to_string : Transaction → Result Bytes
  transaction_to_string t = do j ← transaction_json t; ok (h.dump j)

  -- The key of the text, or the key that the transaction has.
  unfoldable pub read_sender_key : SigKey → Json → Result SigKey
  read_sender_key old j =
      if contains_key (text "publicKey") j
      then at (text "publicKey") j >>= string_of >>= key_from_string h
      else ok old

  -- What `Transaction::from_string` reads of the parsed text; `old` is the key that the transaction has.
  unfoldable pub transaction_of_json : SigKey → Json → Result Transaction
  transaction_of_json old j = do
    tx_id ← number_at (text "txID") (2 ^ 32) j
    ins ← at (text "inputs") j
    inputs ← each_text input_from_string (elements ins)
    outs ← at (text "outputs") j
    outputs ← each_text output_from_string (elements outs)
    sender_id ← number_at (text "senderID") (2 ^ 16) j
    sig ← at (text "senderSig") j
    sig_text ← string_of sig
    sender_sig ← json_to_string h sig_text
    public_key ← read_sender_key old j
    ok (record {
      inputs = inputs;
      outputs = outputs;
      sender_sig = sender_sig;
      sender_id = sender_id;
      tx_id = tx_id;
      public_key = public_key;
    })

  -- `Transaction::from_string`, on the transaction that it overwrites.
  unfoldable pub transaction_from_string : Bytes → Transaction → Result Transaction
  transaction_from_string s t = do j ← parse_text h s; transaction_of_json t.public_key j
