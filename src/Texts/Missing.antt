-- ===== src/Texts/Missing.antt =====
-- A block without transactions is printed without the member that reading asks for
-- (`Block::to_string`, `Block::from_string` of lib/blockchain/block.cc).
use cosicoin.Base.{true, [], ◌≡◌, refl, arith, nat_eq, list_eq, All, list_beq, ◌<◌, ◌^◌, lt→ltb}
use cosicoin.Base.Text.{Bytes}
use cosicoin.Base.Result.{ok, err, json_error}
use cosicoin.Json.{Items, nil, cons, at, find_field, string_of, number_at, get_number, elements}
use cosicoin.Host.{Host}
use cosicoin.Texts.Plain.{
  IsFaithful, is_plain, is_text, text_lt, comes_first, is_plain_items, parse_text-dump,
}
use cosicoin.Texts.Blocks.{
  block_object, block_of_json, block_to_string, block_json, block_from_string,
  texts_of_transactions, header_to_string, signatures_member, header_json,
}
use cosicoin.Texts.Transactions.{member_unless_null, texts_json}
use cosicoin.Blockchain.Block.{Block}
use cosicoin.Texts.PartsBack.{
  IsWritableHeader, IsWritableSignature, header_from_string-header_to_string,
  block_signatures_written, is_plain-header_json,
}
use cosicoin.Texts.SignaturesBack.{IsPart, is_text-signature_text, signature_to_json-dump}
use cosicoin.Texts.KeysBack.{IsWritableKey, is_text-key_text, key_to_string-dump}
use cosicoin.Texts.Keys.{signature_json}
use cosicoin.Signature.Keys.{key_json}
use cosicoin.Texts.BlocksBack.{signatures_member-last}

module _ (h : Host) (faithful : IsFaithful h) where
  is_plain-no_txs :
      (b : Block) (sig key : Bytes) (sigs : Items)
      → IsWritableHeader b.header
      → b.id < 2 ^ 64
      → b.validator_id < 2 ^ 16
      → is_text sig ≡ true
      → is_text key ≡ true
      → is_plain_items sigs ≡ true
      → is_plain (block_object h b [] sig key sigs) ≡ true
  unfolding block_object member_unless_null is_plain is_text text_lt comes_first header_to_string
      texts_json
  is_plain-no_txs b sig key sigs w i v p k q =
      rw
        (
          p,
          k,
          faithful.is_text-dump (header_json b.header) (is_plain-header_json h faithful b.header w),
          lt→ltb b.id (2 ^ 64) i,
          lt→ltb b.validator_id (2 ^ 64) (omega (arith, v)),
          (signatures_member-last h faithful sigs q).0,
          (signatures_member-last h faithful sigs q).1,
        )
        refl

  no_txs_member :
      (b : Block) (sig key : Bytes) (sigs : Items)
      → IsWritableHeader b.header
      → block_of_json h (block_object h b [] sig key sigs) ≡ err json_error
  unfolding block_of_json block_object member_unless_null at find_field list_beq string_of number_at
      get_number elements texts_json signatures_member
  no_txs_member b sig key nil w =
      rw (header_from_string-header_to_string h faithful b.header w) refl
  no_txs_member b sig key (cons j js) w =
      rw (header_from_string-header_to_string h faithful b.header w) refl

  -- The JSON library reads back what it writes. A signed block without transactions, whose keys are
  -- whole and whose numbers and digests fit, is printed, and reading its text throws.
  pub block_from_string_no_txs :
      (b : Block)
      → b.txs ≡ []
      → IsWritableHeader b.header
      → All IsPart b.validator_sig
      → b.validator_id < 2 ^ 16
      → IsWritableKey b.validator_next_public_key
      → All IsWritableSignature b.validator_sigs
      → b.id < 2 ^ 64
      → (s : Bytes) × (block_to_string h b ≡ ok s) × (block_from_string h s ≡ err json_error)
  unfolding block_to_string block_json block_from_string texts_of_transactions
  block_from_string_no_txs b e w p v k a i =
      let (js, printed, plains, sigs) = block_signatures_written h faithful b.validator_sigs a in
      let sig = h.dump (signature_json b.validator_sig) in
      let key = h.dump (key_json b.validator_next_public_key) in
      let plain =
        is_plain-no_txs b sig key js w i v (is_text-signature_text h b.validator_sig faithful)
          (is_text-key_text h b.validator_next_public_key k faithful) plains in
      (
        h.dump (block_object h b [] sig key js),
        rw
            (
              e,
              signature_to_json-dump h b.validator_sig p,
              key_to_string-dump h b.validator_next_public_key k,
              printed,
            )
            refl,
        rw (parse_text-dump h (block_object h b [] sig key js) faithful plain)
            (no_txs_member b sig key js w),
      )
