-- ===== src/Bracha/Keys.antt =====
-- The chain of one-time keys of a node (`signBlock` and `checkBlockSig` of lib/bracha/node.cc).
use cosicoin.Base.{
  ℕ, ◌≡◌, refl, ap, ◌∙◌, sym, Bool, true, false, List, ◌++◌, length, length-map, arith, nat_eq,
  if◌then◌else◌,
}
use mathlib.Core.Path.{subst}
use cosicoin.Base.Text.{Bytes, to_string}
use cosicoin.Base.Result.{ok, err, mutable_block}
use cosicoin.Host.{Host}
use cosicoin.Signature.Bitset.{key_len}
use cosicoin.Signature.Keys.{SigKey, KeyPair, is_set, key_to_string, key_gen, key_json}
use cosicoin.Signature.Sign.{verify, is_one, is_nonzero, sign, matches}
use cosicoin.Signature.Lamport.{IsPair, verify-sign, key_gen-IsPair}
use cosicoin.Blockchain.Block.{
  Block, next_key_text, block_digest, sign_digest, sign_block, verify_signature,
}
use cosicoin.Blockchain.Lifecycle.{with_key}
use cosicoin.Bracha.Node.{Node}
use cosicoin.Bracha.Broadcast.{rotate_keys, node_sign_block}
use cosicoin.Blockchain.Header.{get_id}

module _ (h : Host) where
  next_key_text-ok :
      (k : SigKey)
      → length k.s0 ≡ key_len
      → length k.s1 ≡ key_len
      → (t : Bytes) × (next_key_text h k ≡ ok t)
  unfolding next_key_text is_set key_to_string
  next_key_text-ok k p q = (h.dump (key_json k), ground arith)

  pub block_digest-ok :
      (b : Block)
      → b.is_mutable ≡ false
      → length b.validator_next_public_key.s0 ≡ key_len
      → length b.validator_next_public_key.s1 ≡ key_len
      → (d : Bytes) × (block_digest h b ≡ ok d)
  unfolding block_digest
  block_digest-ok b m p q =
      let (t, e) = next_key_text-ok b.validator_next_public_key p q in
      (h.hash (get_id h b.header ++ (to_string b.validator_id ++ t)), rw (m, e) refl)

  pub public_full :
      (p : KeyPair)
      → IsPair h p
      → (length p.public_key.s0 ≡ key_len) × (length p.public_key.s1 ≡ key_len)
  public_full p v = ground (
    arith,
    v.full0,
    v.full1,
    ap length v.hashed0,
    ap length v.hashed1,
    length-map p.private_key.s0 h.hash,
    length-map p.private_key.s1 h.hash,
  )

  sign_block-ok :
      (k : SigKey) (id : ℕ) (next_key : SigKey) (b : Block) (d : Bytes)
      → b.is_mutable ≡ false
      → block_digest h (with_key h id next_key b) ≡ ok d
      → sign_block h k id next_key b
        ≡ ok (record (with_key h id next_key b) { validator_sig = sign d k })
  unfolding sign_block sign_digest
  sign_block-ok k id next_key b d m e =
      let b1 = with_key h id next_key b in
      subst
        (λ (x : Bool).
          (if x then err mutable_block else sign_digest h k b1)
          ≡ ok (record b1 { validator_sig = sign d k }))
        (sym m) (rw e)

  block_digest-signature :
      (b : Block) (g : List Bytes)
      → block_digest h (record b { validator_sig = g }) ≡ block_digest h b
  unfolding block_digest
  block_digest-signature b g = refl

  verify_signature-ok :
      (b : Block) (d : Bytes) (k : SigKey)
      → block_digest h b ≡ ok d
      → verify h d b.validator_sig k ≡ matches
      → verify_signature h b k ≡ ok true
  unfolding verify_signature is_one
  verify_signature-ok b d k e v = rw (e, v)

  signed_run :
      (b c : Block) (s : Node) (next : KeyPair) (d : Bytes)
      → key_gen h s.entropy ≡ ok next
      → sign_block h s.my_next_key_pair.private_key s.id next.public_key b ≡ ok c
      → block_digest h c ≡ ok d
      → verify h d c.validator_sig s.my_next_key_pair.public_key ≡ matches
      → node_sign_block h b s ≡ ok (c, rotate_keys h next s)
  unfolding node_sign_block is_nonzero
  signed_run b c s next d g p q r = rw (g, p, q, r)

  -- The block that a node with this next pair sends for `b`.
  abbrev pub Signed : Node → KeyPair → Block → Block → Type 0
  Signed s next b c =
      (verify_signature h c s.my_next_key_pair.public_key ≡ ok true)
      × (c.validator_next_public_key ≡ next.public_key)
      × (c.validator_id ≡ s.id)
      × (c.is_mutable ≡ false)
      × (c.header ≡ b.header)
      × (c.txs ≡ b.txs)

  -- With a generated pair at hand and a random source that does not fail, `signBlock` on a finalized
  -- block throws nothing and its assertion holds; the block verifies under the key that the node
  -- announced before, and announces the public half of the new pair.
  pub node_sign_block-Signed :
      (b : Block) (s : Node) (next : KeyPair)
      → IsPair h s.my_next_key_pair
      → b.is_mutable ≡ false
      → key_gen h s.entropy ≡ ok next
      → (c : Block) × (node_sign_block h b s ≡ ok (c, rotate_keys h next s)) × Signed s next b c
  node_sign_block-Signed b s next v m g =
      let k = s.my_next_key_pair in
      let b1 = with_key h s.id next.public_key b in
      let (f0, f1) = public_full next (key_gen-IsPair h s.entropy next g) in
      let (d, e) = block_digest-ok b1 m f0 f1 in
      let c = record b1 { validator_sig = sign d k.private_key } in
      let q : block_digest h c ≡ ok d = block_digest-signature b1 (sign d k.private_key) ∙ e in
      let r = verify-sign h d k v in
      (
        c,
        signed_run b c s next d g (sign_block-ok k.private_key s.id next.public_key b d m e) q r,
        (verify_signature-ok c d k.public_key q r, refl, refl, m, refl, refl),
      )
