-- ===== src/Bracha/Quiet.antt =====
-- What the receipt of messages leaves alone (`updateRecvMessages` of lib/bracha/node.cc).
use cosicoin.Base.{
  Bool, true, false, List, ◌≡◌, refl, sym, ◌∙◌, inl, inr, nat_eq, list_eq, if◌then◌else◌, ◌⊎◌,
  Bool-cases, contains,
}
use cosicoin.Base.Text.{Bytes}
use cosicoin.Base.Result.{ok, >>=-eq-ok, ok-inj}
use cosicoin.Blockchain.Message.{MsgType, echo, send, ready, no_type, Message}
use mathlib.Core.Path.{subst}
use cosicoin.Host.{Host}
use cosicoin.Blockchain.Block.{Block, block_digest, verify_block}
use cosicoin.Bracha.Receive.{
  count_message, accept_message, verify_message, receive, check_block_sig, insert_new, sig_is_valid,
}
use cosicoin.Bracha.Node.{Node, add_hash}
use cosicoin.Base.Dict.{insert, lookup}
use cosicoin.Blockchain.Header.{get_id}

-- No message sent, no block delivered, no key of the node's own changed, and at most one block learnt.
pub record Quiet (x : Bytes) (b : Block) (s s' : Node) : Type 0 where
  pub same_pair : s'.my_next_key_pair ≡ s.my_next_key_pair
  pub same_private : s'.my_current_private_key ≡ s.my_current_private_key
  pub same_public : s'.my_current_public_key ≡ s.my_current_public_key
  pub same_sent : s'.sent ≡ s.sent
  pub same_accepted : s'.accepted_blocks ≡ s.accepted_blocks
  pub same_flag : s'.should_broadcast ≡ s.should_broadcast
  pub learnt : (s'.blk_list ≡ s.blk_list) ⊎ (s'.blk_list ≡ insert_new x b s.blk_list)

count_message-Quiet :
    (t : MsgType) (x y : Bytes) (b : Block) (s0 s : Node)
    → Quiet y b s0 s
    → Quiet y b s0 (count_message t x s)
unfolding count_message
count_message-Quiet send x y b s0 s q = record {
  same_pair = q.same_pair;
  same_private = q.same_private;
  same_public = q.same_public;
  same_sent = q.same_sent;
  same_accepted = q.same_accepted;
  same_flag = q.same_flag;
  learnt = q.learnt;
}
count_message-Quiet echo x y b s0 s q = record {
  same_pair = q.same_pair;
  same_private = q.same_private;
  same_public = q.same_public;
  same_sent = q.same_sent;
  same_accepted = q.same_accepted;
  same_flag = q.same_flag;
  learnt = q.learnt;
}
count_message-Quiet ready x y b s0 s q = record {
  same_pair = q.same_pair;
  same_private = q.same_private;
  same_public = q.same_public;
  same_sent = q.same_sent;
  same_accepted = q.same_accepted;
  same_flag = q.same_flag;
  learnt = q.learnt;
}
count_message-Quiet no_type x y b s0 s q = record {
  same_pair = q.same_pair;
  same_private = q.same_private;
  same_public = q.same_public;
  same_sent = q.same_sent;
  same_accepted = q.same_accepted;
  same_flag = q.same_flag;
  learnt = q.learnt;
}

accept_message-Quiet :
    (x : Bytes) (m : Message) (s : Node) (hashes : List Bytes)
    → Quiet x m.block s (accept_message x m (record s { verified_blocks = hashes }))
unfolding accept_message
accept_message-Quiet x m s hashes = count_message-Quiet m.msg_type x x m.block s _ (record {
  same_pair = refl;
  same_private = refl;
  same_public = refl;
  same_sent = refl;
  same_accepted = refl;
  same_flag = refl;
  learnt = inr refl;
})

verify_message-cases :
    (x : Bytes) (m : Message) (s : Node)
    → (s ≡ verify_message x m s)
      ⊎ ((hashes : List Bytes) × (accept_message x m (record s { verified_blocks = hashes })
            ≡ verify_message x m s))
unfolding verify_message
verify_message-cases x m s = elim (Bool-cases (contains s.verified_blocks x)) [
  | inl old ↦ inr (s.verified_blocks, rw (verify_message, old) refl)
  | inr new ↦ elim (Bool-cases (verify_block m.block s.utxolist s.wallet_ids)) [
    | inl passed ↦ inr (add_hash x s.verified_blocks, rw (verify_message, new, passed) refl)
    | inr failed ↦ inl (rw (verify_message, new, failed) refl)
  ]
]

verify_message-Quiet :
    (x : Bytes) (m : Message) (s : Node) → Quiet x m.block s (verify_message x m s)
verify_message-Quiet x m s = elim (verify_message-cases x m s) [
  | inl same ↦ subst (Quiet x m.block s) same (record {
    same_pair = refl;
    same_private = refl;
    same_public = refl;
    same_sent = refl;
    same_accepted = refl;
    same_flag = refl;
    learnt = inl refl;
  })
  | inr (hashes, same) ↦ subst (Quiet x m.block s) same (accept_message-Quiet x m s hashes)
]

Quiet-choice :
    (x : Bytes) (b : Block) (v : Bool) (s t u : Node)
    → Quiet x b s t
    → Quiet x b s u
    → Quiet x b s (if v then t else u)
Quiet-choice x b true s t u p q = p
Quiet-choice x b false s t u p q = q

module _ (h : Host) where
  -- `receive` in its three steps: a verdict, a new key of the signer, and perhaps the message.
  receive_result : (m : Message) (s : Node) (digest : Bytes) → Node
  receive_result m s digest =
      let s1 : Node = record s {
        val_sig_keys = insert m.block.validator_id m.block.validator_next_public_key s.val_sig_keys;
      } in
      if sig_is_valid h digest m.block (lookup m.block.validator_id s.val_sig_keys)
      then verify_message (get_id h m.block.header) m s1
      else s1

  receive-digest :
      (m : Message) (s : Node) (digest : Bytes)
      → block_digest h m.block ≡ ok digest
      → receive h m s ≡ ok (receive_result m s digest)
  unfolding receive check_block_sig receive_result
  receive-digest m s digest e = rw e refl

  receive_result-Quiet :
      (m : Message) (s : Node) (digest : Bytes)
      → Quiet (get_id h m.block.header) m.block s (receive_result m s digest)
  unfolding receive_result
  receive_result-Quiet m s digest =
      let s1 : Node = record s {
        val_sig_keys = insert m.block.validator_id m.block.validator_next_public_key s.val_sig_keys;
      } in
      let q = verify_message-Quiet (get_id h m.block.header) m s1 in
      Quiet-choice (get_id h m.block.header) m.block
        (sig_is_valid h digest m.block (lookup m.block.validator_id s.val_sig_keys)) s
        (verify_message (get_id h m.block.header) m s1) s1
        (record {
          same_pair = q.same_pair;
          same_private = q.same_private;
          same_public = q.same_public;
          same_sent = q.same_sent;
          same_accepted = q.same_accepted;
          same_flag = q.same_flag;
          learnt = q.learnt;
        })
        (record {
          same_pair = refl;
          same_private = refl;
          same_public = refl;
          same_sent = refl;
          same_accepted = refl;
          same_flag = refl;
          learnt = inl refl;
        })

  -- Receipt of a message whose block has a digest.
  pub receive-Quiet :
      (m : Message) (s : Node) (digest : Bytes)
      → block_digest h m.block ≡ ok digest
      → (s' : Node) × (receive h m s ≡ ok s') × Quiet (get_id h m.block.header) m.block s s'
  receive-Quiet m s digest e =
      (receive_result m s digest, receive-digest m s digest e, receive_result-Quiet m s digest)

  -- What one receipt left alone.
  pub receive_inv :
      (m : Message) (s s' : Node)
      → receive h m s ≡ ok s'
      → Quiet (get_id h m.block.header) m.block s s'
  unfolding receive check_block_sig
  receive_inv m s s' e =
      let ((_, s1), p, _) = >>=-eq-ok (check_block_sig h m.block s) _ e in
      let (digest, d, _) = >>=-eq-ok (block_digest h m.block) _ p in
      let (t, r, q) = receive-Quiet m s digest d in
      subst (Quiet (get_id h m.block.header) m.block s) (ok-inj (sym r ∙ e)) q
