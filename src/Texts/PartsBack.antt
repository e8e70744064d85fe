-- ===== src/Texts/PartsBack.antt =====
-- The parts of a block come back from their texts: lib/blockchain/{header,block}.cc.
use cosicoin.Base.{
  suc, true, List, [], ◌∷◌, ◌≡◌, refl, ap, arith, nat_eq, list_eq, length, All, list_beq, ◌<◌, ◌^◌,
  lt→ltb,
}
use cosicoin.Base.Text.{Bytes, text}
use cosicoin.Base.Result.{ok}
use cosicoin.Json.{
  Json, num, str, obj, Items, nil, cons, field, end, at, find_field, string_of, items_list,
  str_items, number_at, get_number,
}
use cosicoin.Host.{Host}
use cosicoin.Blockchain.Header.{Header}
use cosicoin.Blockchain.Block.{BlockSignature}
use cosicoin.Texts.Plain.{
  IsFaithful, is_text, is_plain, text_lt, are_texts, comes_first, parse_text-dump, is_plain_items,
}
use cosicoin.Texts.SignaturesBack.{
  IsPart, signature_to_json-dump, is_text-signature_text, json_to_string-dump,
}
use cosicoin.Texts.CoinsBack.{Reads}
use cosicoin.Texts.TransactionsBack.{IsWritableTransaction, transaction_written}
use cosicoin.Texts.Blocks.{
  header_json, header_from_string, texts_of_transactions, block_signature_json,
  block_signature_items, header_to_string, read_block_signature, read_block_signatures,
  blank_transaction,
}
use cosicoin.Texts.KeysBack.{
  IsWritableKey, key_to_string-dump, is_text-key_text, key_from_string-dump,
}
use cosicoin.Texts.Transactions.{each_text, transaction_from_string, transaction_to_string}
use cosicoin.Blockchain.Transaction.{Transaction}
use cosicoin.Signature.Keys.{key_json}
use cosicoin.Texts.Keys.{signature_json}
use cosicoin.Base.Word.{mod_small}

pub record IsWritableHeader (x : Header) : Type 0 where
  pub prev : is_text x.prev_block_digest ≡ true
  pub root : is_text x.merkle_root ≡ true

pub record IsWritableSignature (b : BlockSignature) : Type 0 where
  pub signature : All IsPart b.signature
  pub key : IsWritableKey b.public_key
  pub validator : b.validator_id < 2 ^ 16
  pub round : b.round < 2 ^ 16

module _ (h : Host) (faithful : IsFaithful h) where
  pub is_plain-header_json : (x : Header) → IsWritableHeader x → is_plain (header_json x) ≡ true
  unfolding header_json is_plain is_text text_lt comes_first
  is_plain-header_json x w = rw (w.root, w.prev) refl

  pub header_from_string-header_to_string :
      (x : Header) → IsWritableHeader x → header_from_string h (header_to_string h x) ≡ ok x
  unfolding header_from_string header_to_string header_json at find_field string_of list_beq
  header_from_string-header_to_string x w =
      rw (parse_text-dump h (header_json x) faithful (is_plain-header_json x w)) refl

  -- The texts of the transactions, what they read as, and that they are ASCII.
  pub transactions_written :
      (ts : List Transaction)
      → All IsWritableTransaction ts
      → (ss : List Bytes) × (texts_of_transactions h ts ≡ ok ss)
        × (are_texts ss ≡ true)
        × (length ss ≡ length ts)
        × Reads (λ s. transaction_from_string h s blank_transaction) ss ts
  unfolding texts_of_transactions each_text are_texts string_of str_items items_list
      transaction_to_string transaction_from_string
  transactions_written [] a = ([], refl, refl, refl, refl)
  transactions_written (t ∷ ts) a =
      let (j, printed, plain, read) = transaction_written h faithful t a.0 in
      let (ss, p, texts, n, reads) = transactions_written ts a.1 in
      (
        h.dump j ∷ ss,
        rw (transaction_to_string, printed, p) refl,
        rw (faithful.is_text-dump j plain, texts) refl,
        ap suc n,
        rw (transaction_from_string, parse_text-dump h j faithful plain, read, reads) refl,
      )

  block_signature_written :
      (b : BlockSignature)
      → IsWritableSignature b
      → (j : Json) × (block_signature_json h b ≡ ok j)
        × (is_plain j ≡ true)
        × (read_block_signature h j ≡ ok b)
  unfolding block_signature_json read_block_signature is_plain is_text text_lt comes_first at
      find_field list_beq string_of number_at get_number
  block_signature_written b w = (
    obj (
        field (text "public_key") (str (h.dump (key_json b.public_key))) (
          field (text "round") (num b.round) (
            field (text "signature") (str (h.dump (signature_json b.signature)))
              (field (text "validator_id") (num b.validator_id) end)))),
    rw (signature_to_json-dump h b.signature w.signature, key_to_string-dump h b.public_key w.key)
        refl,
    rw
        (
          is_text-key_text h b.public_key w.key faithful,
          is_text-signature_text h b.signature faithful,
          lt→ltb b.round (2 ^ 64) (omega (arith, w.round)),
          lt→ltb b.validator_id (2 ^ 64) (omega (arith, w.validator)),
        )
        refl,
    rw
        (
          json_to_string-dump h b.signature w.signature faithful,
          key_from_string-dump h b.public_key w.key faithful,
          mod_small b.round (2 ^ 16) w.round,
          mod_small b.validator_id (2 ^ 16) w.validator,
        )
        refl,
  )

  pub block_signatures_written :
      (bs : List BlockSignature)
      → All IsWritableSignature bs
      → (js : Items) × (block_signature_items h bs ≡ ok js)
        × (is_plain_items js ≡ true)
        × (read_block_signatures h (items_list js) ≡ ok bs)
  unfolding block_signature_items is_plain read_block_signatures items_list
  block_signatures_written [] a = (nil, refl, refl, refl)
  block_signatures_written (b ∷ bs) a =
      let (j, printed, plain, read) = block_signature_written b a.0 in
      let (js, p, plains, reads) = block_signatures_written bs a.1 in
      (cons j js, rw (printed, p) refl, rw (plain, plains) refl, rw (read, reads) refl)
