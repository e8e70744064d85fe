-- ===== src/Texts/BlocksBack.antt =====
-- Blocks come back from their texts: lib/blockchain/block.cc.
use cosicoin.Base.{
  true, false, List, [], ◌∷◌, ◌≡◌, refl, arith, nat_eq, list_eq, length, All, list_beq, ◌≢◌, ◌<◌,
  ◌^◌, lt→ltb,
}
use cosicoin.Base.Text.{Bytes, text}
use cosicoin.Base.Result.{ok, ◌>>=◌}
use cosicoin.Json.{
  Json, arr, Items, nil, cons, at, find_field, string_of, items_list, str_items, number_at,
  get_number, contains_key, elements, has_field,
}
use cosicoin.Host.{Host}
use cosicoin.Blockchain.Block.{Block}
use cosicoin.Texts.Plain.{
  IsFaithful, is_text, is_plain, text_lt, are_texts, comes_first, parse_text-dump, is_plain_items,
  is_plain_items-str_items, is_plain_fields,
}
use cosicoin.Texts.SignaturesBack.{
  IsPart, signature_to_json-dump, is_text-signature_text, json_to_string-dump,
}
use cosicoin.Texts.CoinsBack.{Reads}
use cosicoin.Texts.TransactionsBack.{IsWritableTransaction}
use cosicoin.Texts.Blocks.{
  header_json, header_to_string, read_block_signatures, blank_transaction, block_object,
  signatures_member, read_validator_sigs, block_of_json, block_json, block_to_string,
  block_from_string,
}
use cosicoin.Texts.KeysBack.{
  IsWritableKey, key_to_string-dump, is_text-key_text, key_from_string-dump,
}
use cosicoin.Texts.Transactions.{transaction_from_string, texts_json, member_unless_null}
use cosicoin.Blockchain.Transaction.{Transaction}
use cosicoin.Signature.Keys.{key_json}
use cosicoin.Texts.Keys.{signature_json, json_to_string, key_from_string}
use cosicoin.Base.Word.{mod_small}
use cosicoin.Texts.PartsBack.{
  is_plain-header_json, header_from_string-header_to_string, transactions_written,
  block_signatures_written, IsWritableHeader, IsWritableSignature,
}

-- A signed block with a transaction, whose numbers and texts fit.
pub record IsWritableBlock (b : Block) : Type 0 where
  pub header : IsWritableHeader b.header
  pub some_txs : b.txs ≢ []
  pub txs : All IsWritableTransaction b.txs
  pub signature : All IsPart b.validator_sig
  pub validator : b.validator_id < 2 ^ 16
  pub key : IsWritableKey b.validator_next_public_key
  pub signatures : All IsWritableSignature b.validator_sigs
  pub id : b.id < 2 ^ 64

-- A block as it is after reading.
abbrev pub as_read : Block → Block
as_read b = record b { is_empty = false; is_mutable = false }

module _ (h : Host) (faithful : IsFaithful h) where
  texts_json-some :
      (ss : List Bytes) (ts : List Transaction)
      → length ss ≡ length ts
      → ts ≢ []
      → texts_json ss ≡ arr (str_items ss)
  unfolding texts_json
  texts_json-some [] [] e n = absurd (n refl)
  texts_json-some [] (t ∷ ts) e n = absurd (omega (arith, e))
  texts_json-some (s ∷ ss) ts e n = refl

  pub signatures_member-last :
      (sigs : Items)
      → is_plain_items sigs ≡ true
      → (comes_first (text "validatorSig") (signatures_member sigs) ≡ true)
        × (is_plain_fields (signatures_member sigs) ≡ true)
  unfolding signatures_member comes_first text_lt is_plain is_text
  signatures_member-last nil q = (refl, refl)
  signatures_member-last (cons j js) q = (refl, rw q refl)

  is_plain-block_object :
      (b : Block) (ss : List Bytes) (sig key : Bytes) (sigs : Items)
      → IsWritableBlock b
      → texts_json ss ≡ arr (str_items ss)
      → are_texts ss ≡ true
      → is_text sig ≡ true
      → is_text key ≡ true
      → is_plain_items sigs ≡ true
      → is_plain (block_object h b ss sig key sigs) ≡ true
  unfolding block_object member_unless_null is_plain is_text text_lt comes_first header_to_string
  is_plain-block_object b ss sig key sigs w some_texts texts p k q =
      rw
        (
          some_texts,
          is_plain_items-str_items ss,
          texts,
          p,
          k,
          faithful.is_text-dump (header_json b.header)
              (is_plain-header_json h faithful b.header w.header),
          lt→ltb b.id (2 ^ 64) w.id,
          lt→ltb b.validator_id (2 ^ 64) (omega (arith, w.validator)),
          (signatures_member-last sigs q).0,
          (signatures_member-last sigs q).1,
        )
        refl

  read_sigs :
      (b : Block) (ss : List Bytes) (sig key : Bytes) (sigs : Items)
      → texts_json ss ≡ arr (str_items ss)
      → read_block_signatures h (items_list sigs) ≡ ok b.validator_sigs
      → read_validator_sigs h (block_object h b ss sig key sigs) ≡ ok b.validator_sigs
  unfolding read_validator_sigs block_object member_unless_null contains_key has_field at find_field
      list_beq signatures_member elements items_list read_block_signatures
  read_sigs b ss sig key nil some_texts p = rw some_texts p
  read_sigs b ss sig key (cons j js) some_texts p = rw some_texts p

  block_of_json-object :
      (b : Block) (ss : List Bytes) (sig key : Bytes) (sigs : Items)
      → IsWritableBlock b
      → texts_json ss ≡ arr (str_items ss)
      → Reads (λ s. transaction_from_string h s blank_transaction) ss b.txs
      → json_to_string h sig ≡ ok b.validator_sig
      → key_from_string h key ≡ ok b.validator_next_public_key
      → read_block_signatures h (items_list sigs) ≡ ok b.validator_sigs
      → block_of_json h (block_object h b ss sig key sigs) ≡ ok (as_read b)
  unfolding block_of_json block_object member_unless_null at find_field list_beq string_of number_at
      get_number elements
  block_of_json-object b ss sig key sigs w some_texts texts p k q =
      rw
        (
          read_sigs b ss sig key sigs some_texts q,
          some_texts,
          header_from_string-header_to_string h faithful b.header w.header,
          texts,
          p,
          k,
          mod_small b.id (2 ^ 64) w.id,
          mod_small b.validator_id (2 ^ 16) w.validator,
        )
        refl

  pub block_written :
      (b : Block)
      → IsWritableBlock b
      → (j : Json) × (block_json h b ≡ ok j)
        × (is_plain j ≡ true)
        × (block_of_json h j ≡ ok (as_read b))
  unfolding block_json
  block_written b w =
      let (ss, printed, texts, n, reads) = transactions_written h faithful b.txs w.txs in
      let (js, p, plains, sigs) =
        block_signatures_written h faithful b.validator_sigs w.signatures in
      let some_texts = texts_json-some ss b.txs n w.some_txs in
      let key = is_text-key_text h b.validator_next_public_key w.key faithful in
      (
        block_object h b ss (h.dump (signature_json b.validator_sig))
            (h.dump (key_json b.validator_next_public_key)) js,
        rw
            (
              printed,
              signature_to_json-dump h b.validator_sig w.signature,
              key_to_string-dump h b.validator_next_public_key w.key,
              p,
            )
            refl,
        is_plain-block_object b ss _ _ js w some_texts texts
            (is_text-signature_text h b.validator_sig faithful) key plains,
        block_of_json-object b ss _ _ js w some_texts reads
            (json_to_string-dump h b.validator_sig w.signature faithful)
            (key_from_string-dump h b.validator_next_public_key w.key faithful) sigs,
      )

  pub block_text :
      (b : Block)
      → IsWritableBlock b
      → (s : Bytes) × (block_to_string h b ≡ ok s) × (block_from_string h s ≡ ok (as_read b))
  unfolding block_to_string block_from_string
  block_text b w =
      let (j, printed, plain, read) = block_written b w in
      (h.dump j, rw printed refl, rw (parse_text-dump h j faithful plain) read)

  -- The JSON library reads back what it writes. A signed block comes back from its text, marked as
  -- closed and not empty, if it has a transaction, its transactions can be written, its keys are whole
  -- and its numbers and digests fit.
  pub block_from_string-block_to_string :
      (b : Block)
      → IsWritableBlock b
      → (block_to_string h b >>= block_from_string h) ≡ ok (as_read b)
  unfolding block_to_string block_from_string
  block_from_string-block_to_string b w =
      let (j, printed, plain, read) = block_written b w in
      rw (printed, parse_text-dump h j faithful plain) read
