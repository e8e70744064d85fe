-- ===== src/Texts/Blocks.antt =====
-- `to_string` and `from_string` of headers and blocks: lib/blockchain/header.cc and
-- lib/blockchain/block.cc. Printing to the console is left out.
use cosicoin.Base.{false, List, [], ◌∷◌, nat_eq, list_eq, if◌then◌else◌, ◌^◌}
use cosicoin.Base.Text.{Bytes, text}
use cosicoin.Base.Result.{Result, ok, ◌>>=◌}
use cosicoin.Json.{
  Json, num, str, arr, obj, Items, nil, cons, Fields, field, end, number_at, contains_key, at,
  string_of, elements,
}
use cosicoin.Host.{Host}
use cosicoin.Blockchain.Header.{Header}
use cosicoin.Blockchain.Transaction.{Transaction}
use cosicoin.Blockchain.Block.{BlockSignature, Block}
use cosicoin.Signature.Keys.{empty_key, key_to_string}
use cosicoin.Texts.Plain.{parse_text}
use cosicoin.Texts.Transactions.{
  transaction_to_string, member_unless_null, texts_json, each_text, transaction_from_string,
}
use cosicoin.Texts.Keys.{signature_to_json, json_to_string, key_from_string}

unfoldable pub header_json : Header → Json
header_json x = obj (
    field (text "merkleRoot") (str x.merkle_root)
      (field (text "prevBlockDigest") (str x.prev_block_digest) end))

-- A transaction that nothing was read into yet.
abbrev pub blank_transaction : Transaction
blank_transaction = record {
  inputs = [];
  outputs = [];
  sender_sig = [];
  sender_id = 0;
  tx_id = 0;
  public_key = empty_key;
}

-- The member of the signatures: none when there are none.
unfoldable pub signatures_member : Items → Fields
signatures_member nil = end
signatures_member (cons j js) = field (text "validatorSigs") (arr (cons j js)) end

module _ (h : Host) where
  -- `Header::to_string`
  unfoldable pub header_to_string : Header → Bytes
  unfolding header_json
  header_to_string x = h.dump (header_json x)

  -- `Header::from_string`
  unfoldable pub header_from_string : Bytes → Result Header
  header_from_string s = do
    j ← parse_text h s
    prev ← at (text "prevBlockDigest") j
    prev_block_digest ← string_of prev
    root ← at (text "merkleRoot") j
    merkle_root ← string_of root
    ok (record { prev_block_digest = prev_block_digest; merkle_root = merkle_root })

  unfoldable pub texts_of_transactions : List Transaction → Result (List Bytes)
  texts_of_transactions [] = ok []
  texts_of_transactions (t ∷ ts) = do
    s ← transaction_to_string h t
    ss ← texts_of_transactions ts
    ok (s ∷ ss)

  -- The object that is pushed for one of the validators' signatures.
  unfoldable pub block_signature_json : BlockSignature → Result Json
  block_signature_json b = do
    signature ← signature_to_json h b.signature
    key ← key_to_string h b.public_key
    ok (
        obj (
          field (text "public_key") (str key) (
            field (text "round") (num b.round) (
              field (text "signature") (str signature)
                (field (text "validator_id") (num b.validator_id) end)))))

  unfoldable pub block_signature_items : List BlockSignature → Result Items
  block_signature_items [] = ok nil
  block_signature_items (b ∷ bs) = do
    j ← block_signature_json b
    js ← block_signature_items bs
    ok (cons j js)

  -- The object that `Block::to_string` prints, with the texts that it holds.
  unfoldable pub block_object : Block → List Bytes → Bytes → Bytes → Items → Json
  unfolding signatures_member
  block_object b txs sig key sigs = obj (
      field (text "blockID") (num b.id) (
        field (text "header") (str (header_to_string b.header)) (
          field (text "publicKey") (str key) (
            member_unless_null (text "transactions") (texts_json txs) (
              field (text "validatorID") (num b.validator_id)
                (field (text "validatorSig") (str sig) (signatures_member sigs)))))))

  unfoldable pub block_json : Block → Result Json
  unfolding block_object
  block_json b = do
    txs ← texts_of_transactions b.txs
    sig ← signature_to_json h b.validator_sig
    key ← key_to_string h b.validator_next_public_key
    sigs ← block_signature_items b.validator_sigs
    ok (block_object b txs sig key sigs)

  -- `Block::to_string`
  unfoldable pub block_to_string : Block → Result Bytes
  block_to_string b = do j ← block_json b; ok (h.dump j)

  -- One round of the loop over the signatures.
  unfoldable pub read_block_signature : Json → Result BlockSignature
  read_block_signature j = do
    validator_id ← number_at (text "validator_id") (2 ^ 16) j
    sig ← at (text "signature") j
    sig_text ← string_of sig
    signature ← json_to_string h sig_text
    round ← number_at (text "round") (2 ^ 16) j
    key ← at (text "public_key") j
    key_text ← string_of key
    public_key ← key_from_string h key_text
    ok (record {
      signature = signature;
      public_key = public_key;
      validator_id = validator_id;
      round = round;
    })

  unfoldable pub read_block_signatures : List Json → Result (List BlockSignature)
  read_block_signatures [] = ok []
  read_block_signatures (j ∷ js) = do
    b ← read_block_signature j
    bs ← read_block_signatures js
    ok (b ∷ bs)

  -- The signatures of the text, none when it has no such member.
  unfoldable pub read_validator_sigs : Json → Result (List BlockSignature)
  read_validator_sigs j =
      if contains_key (text "validatorSigs") j
      then (do sigs ← at (text "validatorSigs") j; read_block_signatures (elements sigs))
      else ok []

  -- What `Block::from_string` reads of the parsed text: every field of the block is overwritten.
  unfoldable pub block_of_json : Json → Result Block
  block_of_json j = do
    top ← at (text "header") j
    top_text ← string_of top
    header ← header_from_string top_text
    id ← number_at (text "blockID") (2 ^ 64) j
    ts ← at (text "transactions") j
    txs ← each_text (λ t. transaction_from_string h t blank_transaction) (elements ts)
    sig ← at (text "validatorSig") j
    sig_text ← string_of sig
    validator_sig ← json_to_string h sig_text
    validator_id ← number_at (text "validatorID") (2 ^ 16) j
    key ← at (text "publicKey") j
    key_text ← string_of key
    validator_next_public_key ← key_from_string h key_text
    validator_sigs ← read_validator_sigs j
    ok (record {
      header = header;
      txs = txs;
      validator_sigs = validator_sigs;
      validator_sig = validator_sig;
      validator_id = validator_id;
      validator_next_public_key = validator_next_public_key;
      id = id;
      is_empty = false;
      is_mutable = false;
    })

  -- `Block::from_string`
  unfoldable pub block_from_string : Bytes → Result Block
  block_from_string s = do j ← parse_text h s; block_of_json j
