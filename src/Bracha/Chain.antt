-- ===== src/Bracha/Chain.antt =====
-- A node's messages as its peers check them: each is signed under the key that the one before it
-- announced (lib/bracha/node.cc).
use mathlib.Core.List.{append-nil, append_assoc}
use cosicoin.Base.{
  ℕ, ◌≡◌, refl, ◌&&◌, Bool, true, false, some, List, [], ◌∷◌, ◌++◌, arith, nat_eq, All, map, sym,
  ◌∙◌,
}
use cosicoin.Base.Dict.{lookup, insert, lookup-insert_self}
use cosicoin.Base.Result.{Result, ok, ◌>>=◌, >>=-eq-ok}
use cosicoin.Host.{Host}
use cosicoin.Signature.Keys.{SigKey, KeyPair, key_gen}
use cosicoin.Signature.Sign.{verify, is_one}
use cosicoin.Signature.Lamport.{IsPair, key_gen-IsPair}
use cosicoin.Blockchain.Block.{Block, block_digest, verify_signature}
use cosicoin.Blockchain.Message.{MsgType, new_message, Message}
use cosicoin.Bracha.Node.{Node}
use cosicoin.Bracha.Receive.{check_block_sig}
use cosicoin.Bracha.Broadcast.{rotate_keys, broadcast_message}
use cosicoin.Bracha.Keys.{Signed, node_sign_block-Signed}
use cosicoin.Base.Text.{Bytes}

module _ (h : Host) where
  -- Messages that one node broadcasts in turn.
  pub broadcast_all : List (MsgType × Block × ℕ) → Node → Result Node
  broadcast_all [] s = ok s
  broadcast_all ((type, b, round) ∷ rest) s = do
    s' ← broadcast_message h type b round s
    broadcast_all rest s'

  -- The verdicts of a peer on blocks that it receives in turn.
  pub check_all : List Block → Node → Result (Bool × Node)
  check_all [] r = ok (true, r)
  check_all (b ∷ bs) r = do
    (v, r') ← check_block_sig h b r
    (vs, r'') ← check_all bs r'
    ok (v && vs, r'')

  -- The random source never fails.
  abbrev pub Draws : Type 0
  Draws = (pos : ℕ) → (p : KeyPair) × (key_gen h pos ≡ ok p)

  verify_signature_inv :
      (b : Block) (k : SigKey)
      → verify_signature h b k ≡ ok true
      → (d : Bytes) × (block_digest h b ≡ ok d) × (is_one (verify h d b.validator_sig k) ≡ true)
  unfolding verify_signature
  verify_signature_inv b k e =
      let (d, p, q) = >>=-eq-ok (block_digest h b) _ e in (d, p, ground arith)

  abbrev pub learn : Block → Node → Node
  learn b r = record r {
    val_sig_keys = insert b.validator_id b.validator_next_public_key r.val_sig_keys;
  }

  pub check_block_sig-known :
      (b : Block) (r : Node) (k : SigKey)
      → lookup b.validator_id r.val_sig_keys ≡ some k
      → verify_signature h b k ≡ ok true
      → check_block_sig h b r ≡ ok (true, learn b r)
  unfolding check_block_sig
  check_block_sig-known b r k e v = let (d, p, q) = verify_signature_inv b k v in rw (p, e, q)

  -- Whatever the verdict on a block, the key that it names replaces the stored one.
  check_block_sig-replaces :
      (b c : Block) (s s' : Node) (v : Bool) (d : Bytes)
      → check_block_sig h b s ≡ ok (v, s')
      → c.validator_id ≡ b.validator_id
      → block_digest h c ≡ ok d
      → (lookup b.validator_id s'.val_sig_keys ≡ some b.validator_next_public_key)
        × (check_block_sig h c s'
            ≡ ok (is_one (verify h d c.validator_sig b.validator_next_public_key), learn c s'))
  unfolding check_block_sig
  check_block_sig-replaces b c s s' v d e i p =
      let (d0, _, q) = >>=-eq-ok (block_digest h b) _ e in
      let found : lookup b.validator_id s'.val_sig_keys ≡ some b.validator_next_public_key =
        ground (
          arith,
          q,
          lookup-insert_self b.validator_id b.validator_next_public_key s.val_sig_keys,
        ) in
      (found, rw (p, i, found) refl)

  pub learn_announced :
      (c : Block) (r : Node) (id : ℕ) (k : SigKey)
      → c.validator_id ≡ id
      → c.validator_next_public_key ≡ k
      → lookup id (learn c r).val_sig_keys ≡ some k
  learn_announced c r id k p q =
      ground (arith, lookup-insert_self c.validator_id c.validator_next_public_key r.val_sig_keys)

  pub broadcast_message-Signed :
      (type : MsgType) (b : Block) (round : ℕ) (s : Node) (next : KeyPair)
      → IsPair h s.my_next_key_pair
      → b.is_mutable ≡ false
      → key_gen h s.entropy ≡ ok next
      → (c : Block) × (broadcast_message h type b round s
          ≡ ok (record (rotate_keys h next s) {
            sent = s.sent ++ new_message type c s.id round ∷ [];
          }))
        × Signed h s next b c
  unfolding broadcast_message rotate_keys
  broadcast_message-Signed type b round s next v m g =
      let (c, e, w) = node_sign_block-Signed h b s next v m g in (c, rw e, w)

  -- A node that holds a generated pair broadcasts finalized blocks, with a random source that does
  -- not fail. Every broadcast succeeds; a peer that knows the node's next key accepts all the
  -- signatures in turn, with the blocks' transactions unchanged, and then knows the key of the next.
  pub broadcast_all-accepted :
      (draws : Draws) (xs : List (MsgType × Block × ℕ)) (s r : Node)
      → IsPair h s.my_next_key_pair
      → All (λ x. x.1.is_mutable ≡ false) xs
      → lookup s.id r.val_sig_keys ≡ some s.my_next_key_pair.public_key
      → (s' : Node) × (ms : List Message) × (r' : Node) × (broadcast_all xs s ≡ ok s')
        × (s'.sent ≡ s.sent ++ ms)
        × (map (λ m. m.block.txs) ms ≡ map (λ x. x.1.txs) xs)
        × (check_all (map (λ m. m.block) ms) r ≡ ok (true, r'))
        × (lookup s'.id r'.val_sig_keys ≡ some s'.my_next_key_pair.public_key)
  unfolding broadcast_all check_all rotate_keys new_message
  broadcast_all-accepted draws [] s r v a k =
      (s, [], r, refl, sym (append-nil s.sent), refl, refl, k)
  broadcast_all-accepted draws ((type, b, round) ∷ rest) s r v (m, a) k =
      let (next, g) = draws s.entropy in
      let (c, e, w) = broadcast_message-Signed type b round s next v m g in
      let msg = new_message type c s.id round in
      let s1 = record (rotate_keys h next s) { sent = s.sent ++ msg ∷ [] } in
      let r1 = learn c r in
      let known : lookup s1.id r1.val_sig_keys ≡ some next.public_key =
        learn_announced c r s.id next.public_key w.2 w.1 in
      let (s', ms, r', p, q, t, u, l) =
        broadcast_all-accepted draws rest s1 r1 (key_gen-IsPair h s.entropy next g) a known in
      (
        s',
        msg ∷ ms,
        r',
        rw e p,
        q ∙ append_assoc s.sent (msg ∷ []) ms,
        cc (t, w.5),
        rw (check_block_sig-known c r s.my_next_key_pair.public_key (ground (arith, w, k)) w.0, u),
        l,
      )
