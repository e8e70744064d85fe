-- ===== src/Storage/Unsigned.antt =====
-- `addBlock` of a block that has no whole next key (lib/database/database.cc): `save` throws after
-- the block was added.
use mathlib.Core.Path.{subst}
use cosicoin.Base.{
  ◌⊎◌, inl, inr, Bool-cases, Bool, true, false, List, [], ◌∷◌, ◌++◌, ◌≡◌, refl, sym, nat_eq,
  list_eq,
}
use cosicoin.Base.Text.{Bytes, to_string}
use cosicoin.Base.Result.{ok, err, Error, Throws, Throws-first, Throws-rest, key_length_error}
use cosicoin.Host.{Host}
use cosicoin.Texts.Blocks.{block_to_string, block_json, texts_of_transactions}
use cosicoin.Storage.Database.{
  entries_json, add_block, add_digested, save, database_to_json, append_block, Database, continues,
}
use cosicoin.Base.Dict.{Dict, at_or, insert, lookup-insert_self}
use cosicoin.Blockchain.Header.{get_id}
use cosicoin.Signature.Keys.{is_set, key_to_string}
use cosicoin.Blockchain.Block.{Block, empty_block, block_digest, next_key_text}
use cosicoin.Signature.Sign.{has_length}
use cosicoin.Texts.Keys.{signature_to_json}

module _ (h : Host) where
  block_to_string-Throws :
      (b : Block) → has_length b.validator_next_public_key ≡ false → Throws (block_to_string h b)
  unfolding block_to_string block_json key_to_string has_length
  block_to_string-Throws b n = Throws-first (block_json h b) _ (
      Throws-rest (texts_of_transactions h b.txs) _ λ txs.
        Throws-rest (signature_to_json h b.validator_sig) _
          λ sig. (key_length_error, rw (key_to_string, n) refl))

  entries_json-Throws :
      (m : Dict Bytes Block) (xs : List Bytes) (x : Bytes)
      → Throws (block_to_string h (at_or empty_block x m))
      → Throws (entries_json h m (xs ++ x ∷ []))
  unfolding entries_json
  entries_json-Throws m [] x (e, p) = (e, rw p refl)
  entries_json-Throws m (y ∷ xs) x t =
      Throws-rest (block_to_string h (at_or empty_block y m)) _
        λ s. Throws-first (entries_json h m (xs ++ x ∷ [])) _ (entries_json-Throws m xs x t)

  -- The digest of a closed block whose next key is not whole: it throws when both halves have entries,
  -- and it is computed without the key when one half is empty.
  block_digest-cases :
      (b : Block)
      → b.is_mutable ≡ false
      → has_length b.validator_next_public_key ≡ false
      → ((is_set b.validator_next_public_key ≡ true) × (block_digest h b ≡ err key_length_error))
        ⊎ ((is_set b.validator_next_public_key ≡ false) × (x : Bytes) × (block_digest h b ≡ ok x))
  unfolding block_digest next_key_text key_to_string has_length
  block_digest-cases b m n = elim (Bool-cases (is_set b.validator_next_public_key)) [
    | inl both ↦ inl (both, rw (m, both, key_to_string, n) refl)
    | inr empty ↦
        inr (
          empty,
          h.hash (get_id h b.header ++ (to_string b.validator_id ++ [])),
          rw (m, empty) refl,
        )
  ]

  added :
      (writable : Bool) (b : Block) (d : Database) (x : Bytes)
      → continues d.digests b.header.prev_block_digest ≡ true
      → block_digest h b ≡ ok x
      → has_length b.validator_next_public_key ≡ false
      → (e : Error) × (add_block h writable b d ≡ (err e, append_block x b d))
  unfolding add_block add_digested save database_to_json append_block
  added writable b d x c p n =
      let printed : at_or empty_block x (insert x b d.blocks) ≡ b =
        rw (at_or, lookup-insert_self x b d.blocks) refl in
      let (e, q) =
        entries_json-Throws (insert x b d.blocks) d.digests x
          (subst (λ c. Throws (block_to_string h c)) (sym printed) (block_to_string-Throws b n)) in
      (e, rw (c, p, q) refl)

  -- A closed block continues the chain, and its next key is not whole. `addBlock` throws. When both
  -- halves of the key have entries the database stays as it was; when one half is empty, as in a block
  -- that nobody signed, the block is in the database all the same.
  pub add_block_unsigned :
      (writable : Bool) (b : Block) (d : Database)
      → continues d.digests b.header.prev_block_digest ≡ true
      → b.is_mutable ≡ false
      → has_length b.validator_next_public_key ≡ false
      → ((is_set b.validator_next_public_key ≡ true)
          × (add_block h writable b d ≡ (err key_length_error, d)))
        ⊎ ((is_set b.validator_next_public_key ≡ false)
            × (x : Bytes) × (e : Error) × (block_digest h b ≡ ok x)
            × (add_block h writable b d ≡ (err e, append_block x b d)))
  unfolding add_block add_digested
  add_block_unsigned writable b d c m n = elim (block_digest-cases b m n) [
    | inl (both, p) ↦ inl (both, rw (c, p) refl)
    | inr (empty, x, p) ↦ let (e, q) = added writable b d x c p n in inr (empty, x, e, p, q)
  ]
