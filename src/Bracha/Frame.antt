-- ===== src/Bracha/Frame.antt =====
-- What a successful broadcast changes: the node's keys and the messages sent (lib/bracha/node.cc).
use cosicoin.Base.{
  ℕ, leb, ltb, ◌+◌, ◌*◌, ◌≡◌, refl, Bool, true, false, [], ◌∷◌, ◌++◌, arith, ◌⊎◌, inl, inr,
  Bool-cases, contains, list_eq, nat_eq,
}
use cosicoin.Base.Text.{Bytes}
use cosicoin.Base.Dict.{Dict, at_or}
use cosicoin.Base.Result.{ok, >>=-eq-ok, guard, ok-inj}
use cosicoin.Host.{Host}
use cosicoin.Signature.Keys.{KeyPair, key_gen}
use cosicoin.Signature.Sign.{verify, is_nonzero}
use cosicoin.Blockchain.Block.{Block, empty_block, sign_block, block_digest}
use cosicoin.Blockchain.Lifecycle.{sign_block_inv}
use cosicoin.Blockchain.Message.{MsgType, new_message, ready}
use cosicoin.Bracha.Node.{Node, add_hash}
use cosicoin.Bracha.Broadcast.{
  deliver, delivered, ready_loop, rotate_keys, node_sign_block, broadcast_message, broadcast_ready,
  ready_if,
}

module _ (h : Host) where
  -- The node after a broadcast of `c`, with a new key pair.
  abbrev pub sent_state : MsgType → ℕ → KeyPair → Block → Node → Node
  sent_state type round next c s = record (rotate_keys h next s) {
    sent = s.sent ++ new_message type c s.id round ∷ [];
  }

  node_sign_block_inv :
      (b c : Block) (s s' : Node)
      → node_sign_block h b s ≡ ok (c, s')
      → (next : KeyPair) × (s' ≡ rotate_keys h next s)
        × (c.header ≡ b.header)
        × (c.txs ≡ b.txs)
        × (b.is_mutable ≡ false)
  unfolding node_sign_block
  node_sign_block_inv b c s s' e =
      let (next, g, e1) = >>=-eq-ok (key_gen h s.entropy) _ e in
      let (signed, p, e2) =
        >>=-eq-ok
          (sign_block h (rotate_keys h next s).my_current_private_key s.id next.public_key b) _
          e1 in
      let (d, q, e3) = >>=-eq-ok (block_digest h signed) _ e2 in
      let (u, r, e4) =
        >>=-eq-ok
          (guard
            (is_nonzero
              (verify h d signed.validator_sig (rotate_keys h next s).my_current_public_key))
            _)
          _ e3 in
      let (m, _, _, w) = sign_block_inv h _ s.id next.public_key b signed p in
      (next, ground (arith, e4), ground (arith, e4, w), ground (arith, e4, w), m)

  pub broadcast_message_inv :
      (type : MsgType) (b : Block) (round : ℕ) (s s' : Node)
      → broadcast_message h type b round s ≡ ok s'
      → (next : KeyPair) × (c : Block) × (s' ≡ sent_state type round next c s)
        × (c.header ≡ b.header)
        × (c.txs ≡ b.txs)
        × (b.is_mutable ≡ false)
  unfolding broadcast_message rotate_keys
  broadcast_message_inv type b round s s' e =
      let ((c, s1), p, q) = >>=-eq-ok (node_sign_block h b s) _ e in
      let (next, w, hd, tx, m) = node_sign_block_inv b c s s1 p in
      (next, c, ground (arith, q, w), hd, tx, m)

  -- What `broadcast_ready` does: one READY for a known block, and the hash is marked.
  pub record ReadySent (x : Bytes) (round : ℕ) (s s' : Node) : Type 0 where
    pub next : KeyPair
    pub signed : Block
    pub after :
        s' ≡ record (sent_state ready round next signed s) { ready_sent = add_hash x s.ready_sent }
    pub same_header : signed.header ≡ (at_or empty_block x s.blk_list).header
    pub known : (at_or empty_block x s.blk_list).is_mutable ≡ false

  broadcast_ready_inv :
      (x : Bytes) (round : ℕ) (s s' : Node)
      → broadcast_ready h x round s ≡ ok s'
      → ReadySent x round s s'
  unfolding broadcast_ready rotate_keys
  broadcast_ready_inv x round s s' e =
      let b = at_or empty_block x s.blk_list in
      let (s1, p, q) = >>=-eq-ok (broadcast_message h ready b round s) _ e in
      let (next, c, w, hd, _, m) = broadcast_message_inv ready b round s s1 p in
      record { next = next; signed = c; after = ground (arith, q, w); same_header = hd; known = m }

  -- `ready_if` does nothing, or it broadcasts: then the count was enough, and the hash was new.
  pub ready_if_inv :
      (enough : Bool) (x : Bytes) (round : ℕ) (s s' : Node)
      → ready_if h enough x round s ≡ ok s'
      → (s' ≡ s) ⊎ ((enough ≡ true) × (contains s.ready_sent x ≡ false) × ReadySent x round s s')
  unfolding ready_if
  ready_if_inv false x round s s' e = inl (ground arith)
  ready_if_inv true x round s s' e = elim (Bool-cases (contains s.ready_sent x)) [
    | inl old ↦ inl (ground arith)
    | inr new ↦ inr (refl, new, broadcast_ready_inv x round s s' (ground arith))
  ]

  -- One turn of the loop over the READY counters, with a delivery and without.
  pub ready_loop_stops :
      (x : Bytes) (k : ℕ) (m : Dict Bytes ℕ) (s s1 : Node)
      → ready_if h (leb (s.f + 1) k) x 3 s ≡ ok s1
      → ltb (2 * s1.f + 1) k ≡ true
      → ready_loop h ((x, k) ∷ m) s ≡ deliver h x s1
  unfolding ready_loop
  ready_loop_stops x k m s s1 p reached = rw (p, reached) refl

  pub ready_loop_goes_on :
      (x : Bytes) (k : ℕ) (m : Dict Bytes ℕ) (s s1 : Node)
      → ready_if h (leb (s.f + 1) k) x 3 s ≡ ok s1
      → ltb (2 * s1.f + 1) k ≡ false
      → ready_loop h ((x, k) ∷ m) s ≡ ready_loop h m s1
  unfolding ready_loop
  ready_loop_goes_on x k m s s1 p few = rw (p, few) refl

  -- A delivery that returns.
  pub deliver_inv :
      (x : Bytes) (s s' : Node)
      → deliver h x s ≡ ok s'
      → (y : Bytes) × (h.freed x ≡ ok y) × (delivered h x y s ≡ s')
  unfolding deliver
  deliver_inv x s s' e = let (y, g, after) = >>=-eq-ok (h.freed x) _ e in (y, g, ok-inj after)
