-- ===== src/Bracha/Trust.antt =====
-- What a node keeps of the messages that it receives (`updateRecvMessages` of lib/bracha/node.cc).
use cosicoin.Base.{
  ℕ, ◌≡◌, refl, ◌⊎◌, inl, inr, true, false, some, List, [], ◌∷◌, contains, list_beq, arith, nat_eq,
  list_eq, list_beq_iff, Bool-cases,
}
use mathlib.Core.Path.{subst}
use cosicoin.Base.Text.{Bytes}
use cosicoin.Base.Dict.{lookup, has_key, insert}
use cosicoin.Base.Result.{ok, >>=-eq-ok}
use cosicoin.Host.{Host}
use cosicoin.Blockchain.Header.{get_id}
use cosicoin.Blockchain.Block.{Block, block_digest, verify_block}
use cosicoin.Blockchain.Message.{no_type, Message, MsgType, echo, send, ready}
use cosicoin.Bracha.Node.{Node, add_hash}
use cosicoin.Bracha.Receive.{
  count_message, accept_message, verify_message, check_block_sig, receive, receive_all,
  update_recv_messages,
}
use cosicoin.Bracha.Entries.{
  insert_new_inv, insert_new-has_key, count_up-has_key, add_hash-contains,
}

module _ (h : Host) where
  -- The known blocks stand under the hash of their header and have passed `Block::verify` with the
  -- coins and wallets of the node; hashes that are verified or counted are those of known blocks.
  pub record IsTrusted (s : Node) : Type 0 where
    pub known :
        (x : Bytes) (b : Block)
        → lookup x s.blk_list ≡ some b
        → (get_id h b.header ≡ x) × (verify_block b s.utxolist s.wallet_ids ≡ true)
    pub verified : (x : Bytes) → contains s.verified_blocks x ≡ true → has_key x s.blk_list ≡ true
    pub echoed : (x : Bytes) → has_key x s.echo_this_round ≡ true → has_key x s.blk_list ≡ true
    pub asked : list_beq s.send_this_round [] ≡ false → has_key s.send_this_round s.blk_list ≡ true
    pub readied : (x : Bytes) → has_key x s.ready_this_round ≡ true → has_key x s.blk_list ≡ true

  count_message-IsTrusted :
      (k : MsgType) (x : Bytes) (s : Node)
      → IsTrusted s
      → has_key x s.blk_list ≡ true
      → IsTrusted (count_message k x s)
  unfolding count_message
  count_message-IsTrusted send x s v e = record {
    asked = λ c. e;
    known = v.known;
    verified = v.verified;
    echoed = v.echoed;
    readied = v.readied;
  }
  count_message-IsTrusted echo x s v e = record {
    asked = v.asked;
    known = v.known;
    verified = v.verified;
    echoed = λ y c. elim (count_up-has_key x y s.echo_this_round c) [
      | inl same ↦ subst (λ z. has_key z s.blk_list ≡ true) same e
      | inr old ↦ v.echoed y old
    ];
    readied = v.readied;
  }
  count_message-IsTrusted ready x s v e = record {
    asked = v.asked;
    known = v.known;
    verified = v.verified;
    echoed = v.echoed;
    readied = λ y c. elim (count_up-has_key x y s.ready_this_round c) [
      | inl same ↦ subst (λ z. has_key z s.blk_list ≡ true) same e
      | inr old ↦ v.readied y old
    ];
  }
  count_message-IsTrusted no_type x s v e = v

  -- A message of a verified block is taken; the block is stored when its hash is new.
  accept_message-IsTrusted :
      (m : Message) (s : Node) (hashes : List Bytes)
      → IsTrusted s
      → (has_key (get_id h m.block.header) s.blk_list ≡ true)
        ⊎ (verify_block m.block s.utxolist s.wallet_ids ≡ true)
      → ((y : Bytes)
          → contains hashes y ≡ true
          → (get_id h m.block.header ≡ y) ⊎ (contains s.verified_blocks y ≡ true))
      → IsTrusted
          (accept_message (get_id h m.block.header) m (record s { verified_blocks = hashes }))
  unfolding accept_message
  accept_message-IsTrusted m s hashes v good old =
      let x = get_id h m.block.header in
      count_message-IsTrusted m.msg_type x _
        (record {
          asked = λ c. insert_new-has_key x s.send_this_round m.block s.blk_list (inr (v.asked c));
          known = λ y c e. elim (insert_new_inv x y m.block c s.blk_list e) [
            | inl before ↦ v.known y c before
            | inr (same, block, new) ↦
                subst
                  (λ d. (get_id h d.header ≡ y) × (verify_block d s.utxolist s.wallet_ids ≡ true))
                  block
                  (same, elim good [ inl there ↦ absurd (cc (there, new)) | inr passed ↦ passed ])
          ];
          verified = λ y c.
              insert_new-has_key x y m.block s.blk_list
                (elim (old y c) [ inl same ↦ inl same | inr before ↦ inr (v.verified y before) ]);
          echoed = λ y c. insert_new-has_key x y m.block s.blk_list (inr (v.echoed y c));
          readied = λ y c. insert_new-has_key x y m.block s.blk_list (inr (v.readied y c));
        })
        (insert_new-has_key x x m.block s.blk_list (inl refl))

  verify_message_old :
      (m : Message) (s : Node)
      → contains s.verified_blocks (get_id h m.block.header) ≡ true
      → accept_message (get_id h m.block.header) m s ≡ verify_message (get_id h m.block.header) m s
  unfolding verify_message
  verify_message_old m s e = rw e refl

  verify_message_new :
      (m : Message) (s : Node)
      → contains s.verified_blocks (get_id h m.block.header) ≡ false
      → verify_block m.block s.utxolist s.wallet_ids ≡ true
      → accept_message
          (get_id h m.block.header)
          m
          (record s { verified_blocks = add_hash (get_id h m.block.header) s.verified_blocks })
        ≡ verify_message (get_id h m.block.header) m s
  unfolding verify_message
  verify_message_new m s e p = rw (e, p) refl

  verify_message_failed :
      (m : Message) (s : Node)
      → contains s.verified_blocks (get_id h m.block.header) ≡ false
      → verify_block m.block s.utxolist s.wallet_ids ≡ false
      → s ≡ verify_message (get_id h m.block.header) m s
  unfolding verify_message
  verify_message_failed m s e p = rw (e, p) refl

  verify_message-IsTrusted :
      (m : Message) (s : Node)
      → IsTrusted s
      → IsTrusted (verify_message (get_id h m.block.header) m s)
  unfolding verify_message
  verify_message-IsTrusted m s v =
      let x = get_id h m.block.header in
      elim (Bool-cases (contains s.verified_blocks x)) [
        | inl old ↦ subst IsTrusted (verify_message_old m s old) (
            accept_message-IsTrusted m s s.verified_blocks v (inl (v.verified x old))
              (λ y c. inr c))
        | inr new ↦ elim (Bool-cases (verify_block m.block s.utxolist s.wallet_ids)) [
          | inl passed ↦ subst IsTrusted (verify_message_new m s new passed) (
              accept_message-IsTrusted m s (add_hash x s.verified_blocks) v (inr passed)
                (λ y c. add_hash-contains x y s.verified_blocks c))
          | inr failed ↦ subst IsTrusted (verify_message_failed m s new failed) v
        ]
      ]

  -- Only these fields matter.
  pub IsTrusted-fields :
      (s t : Node)
      → IsTrusted s
      → IsTrusted (record t {
        blk_list = s.blk_list;
        utxolist = s.utxolist;
        wallet_ids = s.wallet_ids;
        verified_blocks = s.verified_blocks;
        send_this_round = s.send_this_round;
        echo_this_round = s.echo_this_round;
        ready_this_round = s.ready_this_round;
      })
  IsTrusted-fields s t v = record {
    asked = v.asked;
    known = v.known;
    verified = v.verified;
    echoed = v.echoed;
    readied = v.readied;
  }

  pub receive-IsTrusted :
      (m : Message) (s s' : Node) → receive h m s ≡ ok s' → IsTrusted s → IsTrusted s'
  unfolding receive check_block_sig
  receive-IsTrusted m s s' e v =
      let ((valid, s1), p, q) = >>=-eq-ok (check_block_sig h m.block s) _ e in
      let (d, _, r) = >>=-eq-ok (block_digest h m.block) _ p in
      let keys = insert m.block.validator_id m.block.validator_next_public_key s.val_sig_keys in
      let same : record s { val_sig_keys = keys } ≡ s1 = ground (arith, r) in
      let v1 : IsTrusted s1 =
        subst IsTrusted same (IsTrusted-fields s (record s { val_sig_keys = keys }) v) in
      elim (Bool-cases valid) [
        | inl taken ↦
            let end : verify_message (get_id h m.block.header) m s1 ≡ s' =
              ground (arith, q, taken) in
            subst IsTrusted end (verify_message-IsTrusted m s1 v1)
        | inr skipped ↦ let end : s1 ≡ s' = ground (arith, q, skipped) in subst IsTrusted end v1
      ]

  receive_all-IsTrusted :
      (ms : List Message) (s s' : Node) → receive_all h ms s ≡ ok s' → IsTrusted s → IsTrusted s'
  unfolding receive_all
  receive_all-IsTrusted [] s s' e v =
      let same : s ≡ s' = ground (arith, e) in subst IsTrusted same v
  receive_all-IsTrusted (m ∷ ms) s s' e v =
      let (s1, p, r) = >>=-eq-ok (receive h m s) _ e in
      receive_all-IsTrusted ms s1 s' r (receive-IsTrusted m s s1 p v)

  -- A SEND that was answered is forgotten.
  pub IsTrusted-answered :
      (s t : Node)
      → IsTrusted s
      → IsTrusted (record t {
        blk_list = s.blk_list;
        utxolist = s.utxolist;
        wallet_ids = s.wallet_ids;
        verified_blocks = s.verified_blocks;
        send_this_round = [];
        echo_this_round = s.echo_this_round;
        ready_this_round = s.ready_this_round;
      })
  IsTrusted-answered s t v = record {
    asked = λ c. absurd (cc ((list_beq_iff {A = ℕ} [] []).1 refl, c));
    known = v.known;
    verified = v.verified;
    echoed = v.echoed;
    readied = v.readied;
  }

  -- Whatever messages arrive, forged ones too, these stay true of a node: each block that it knows
  -- stands under the hash of its header and passed `Block::verify` with the coins and wallets of the
  -- node, and the hashes that are verified or counted are those of blocks that it knows.
  pub update_recv_messages-IsTrusted :
      (ms : List Message) (s s' : Node)
      → update_recv_messages h ms s ≡ ok s'
      → IsTrusted s
      → IsTrusted s'
  unfolding update_recv_messages
  update_recv_messages-IsTrusted ms s s' e v =
      receive_all-IsTrusted ms (record s { send_this_round = [] }) s' e (IsTrusted-answered s s v)
