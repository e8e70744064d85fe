-- ===== src/Blockchain/Lifecycle.antt =====
-- The life of a block: filled, finalized, signed (include/blockchain/block.h,
-- lib/blockchain/block.cc).
use cosicoin.Base.{ℕ, ◌≡◌, true, false, inl, inr, [], arith, Bool-cases, ap}
use cosicoin.Base.Text.{Bytes}
use cosicoin.Base.Result.{Result, ok, >>=-eq-ok}
use cosicoin.Host.{Host}
use cosicoin.Signature.Keys.{SigKey, KeyPair}
use cosicoin.Signature.Sign.{is_one, sign}
use cosicoin.Signature.Lamport.{IsPair, verify-sign}
use cosicoin.Blockchain.Transaction.{Transaction}
use cosicoin.Blockchain.Header.{merkle_root_of, calculate_merkle_root}
use cosicoin.Blockchain.Block.{
  Block, BlockSignature, new_block, add_transaction, finalize, sign_block, block_digest,
  verify_signature, add_validator_signature, remove_signatures, sign_digest,
}

-- The calls that change a block.
pub data Call : Type 0 where
  adds : Transaction → Call
  finalizes : Call
  signs : SigKey → ℕ → SigKey → Call
  collects : BlockSignature → Call
  strips : Call

module _ (h : Host) where
  -- The block that `sign` takes the digest of.
  abbrev pub with_key : ℕ → SigKey → Block → Block
  with_key id next_key b = record b { validator_id = id; validator_next_public_key = next_key }

  sign_digest_inv :
      (k : SigKey) (b c : Block)
      → sign_digest h k b ≡ ok c
      → (d : Bytes) × (block_digest h b ≡ ok d) × (c ≡ record b { validator_sig = sign d k })
  unfolding sign_digest
  sign_digest_inv k b c e = let (d, q, r) = >>=-eq-ok (block_digest h b) _ e in (d, q, ground arith)

  pub sign_block_inv :
      (k : SigKey) (id : ℕ) (next_key : SigKey) (b c : Block)
      → sign_block h k id next_key b ≡ ok c
      → (b.is_mutable ≡ false)
        × (d : Bytes) × (block_digest h (with_key id next_key b) ≡ ok d)
        × (c ≡ record b {
          validator_id = id;
          validator_next_public_key = next_key;
          validator_sig = sign d k;
        })
  unfolding sign_block
  sign_block_inv k id next_key b c e = elim (Bool-cases b.is_mutable) [
    | inl m ↦ absurd (ground arith)
    | inr m ↦
        let opened : sign_digest h k (with_key id next_key b) ≡ ok c = ground arith in
        let (d, q, r) = sign_digest_inv k (with_key id next_key b) c opened in (m, d, q, r)
  ]

  unfoldable pub call : Call → Block → Result Block
  call (adds t) b = add_transaction t b
  call finalizes b = finalize h b
  call (signs k id next) b = sign_block h k id next b
  call (collects s) b = ok (add_validator_signature s b)
  call strips b = ok (remove_signatures b)

  -- The blocks that a program can reach from a fresh one; a call that throws changes nothing.
  pub data Reach (id : ℕ) (prev : Bytes) : Block → Type 0 where
    fresh : Reach id prev (new_block id prev)
    next : {b c : Block} (k : Call) → Reach id prev b → call k b ≡ ok c → Reach id prev c

  pub record IsSound (id : ℕ) (prev : Bytes) (b : Block) : Type 0 where
    pub named : b.id ≡ id
    pub linked : b.header.prev_block_digest ≡ prev
    pub sealed : b.is_mutable ≡ false → b.header.merkle_root ≡ merkle_root_of h b.txs
    pub unsigned : b.is_mutable ≡ true → b.validator_sig ≡ []

  call-IsSound :
      {id : ℕ} {prev : Bytes} {b c : Block} (k : Call)
      → IsSound id prev b
      → call k b ≡ ok c
      → IsSound id prev c
  unfolding call add_transaction finalize sign_block add_validator_signature remove_signatures
      calculate_merkle_root
  call-IsSound (adds t) v e = ground arith
  call-IsSound finalizes v e = ground arith
  call-IsSound {b = b} {c = c} (signs k n next_key) v e =
      let (m, _, _, p) = sign_block_inv k n next_key b c e in ground (arith, m, p)
  call-IsSound (collects s) v e = ground arith
  call-IsSound strips v e = ground arith

  -- Whatever the order of the calls: the id and the link to the previous block stay, a finalized
  -- block carries the Merkle root of exactly its transactions, and only such a block is signed.
  pub Reach-IsSound : {id : ℕ} {prev : Bytes} {b : Block} → Reach id prev b → IsSound id prev b
  unfolding new_block
  Reach-IsSound fresh = ground arith
  Reach-IsSound (next k r e) = call-IsSound k (Reach-IsSound r) e

  -- No call changes the transactions or the header of a finalized block, or opens it again.
  pub call_frozen :
      (k : Call) (b c : Block)
      → b.is_mutable ≡ false
      → call k b ≡ ok c
      → (c.txs ≡ b.txs) × (c.header ≡ b.header) × (c.is_mutable ≡ false)
  unfolding call add_transaction finalize sign_block add_validator_signature remove_signatures
  call_frozen (adds t) b c m e = ground arith
  call_frozen finalizes b c m e = ground arith
  call_frozen (signs k n next_key) b c m e =
      let (_, _, _, p) = sign_block_inv k n next_key b c e in ground (arith, p)
  call_frozen (collects s) b c m e = ground arith
  call_frozen strips b c m e = ground arith

  -- A block signed with the private half of a generated pair is accepted under the public half.
  verify_signature-sign_block :
      (p : KeyPair) (id : ℕ) (next_key : SigKey) (b c : Block)
      → IsPair h p
      → sign_block h p.private_key id next_key b ≡ ok c
      → verify_signature h c p.public_key ≡ ok true
  unfolding verify_signature is_one block_digest
  verify_signature-sign_block p id next_key b c v e =
      let (m, d, q, r) = sign_block_inv p.private_key id next_key b c e in
      rw (r, verify_signature, q) (ap ok (ap is_one (verify-sign h d p v)))
