-- ===== src/Wire/Votes.antt =====
-- A vote on its way from one node to another: `broadcastMessage` of lib/bracha/node.cc, the call
-- `Talk`, the queue of the server, and `updateRecvMessages` of the node that gets it.
use cosicoin.Base.{
  ℕ, true, false, none, some, ◌≡◌, refl, ap, ◌∙◌, inl, inr, nat_eq, list_eq, ◌+◌, contains,
  Option-cases, ◌⊎◌, Bool-cases, All, ◌<◌, ◌^◌, get_elem?, ◌++◌, ◌∷◌, [], sym, arith,
}
use cosicoin.Base.Text.{Bytes}
use cosicoin.Base.Result.{ok, ◌>>=◌}
use cosicoin.Blockchain.Message.{send, echo, ready, no_type, MsgType, Message, new_message}
use mathlib.Core.Path.{subst}
use cosicoin.Host.{Host}
use cosicoin.Bracha.Receive.{count_up, count_message, accept_message, receive, verify_message}
use cosicoin.Blockchain.Block.{Block, verify_signature, verify_block, block_digest}
use cosicoin.Bracha.Node.{Node, add_hash}
use cosicoin.Base.Dict.{Dict, at_or, lookup, lookup-insert_self}
use cosicoin.Signature.Keys.{SigKey, KeyPair, key_gen}
use cosicoin.Wire.Sent.{sent_type, arrived_block, IsSendableTransaction, arrived, IsSendable}
use cosicoin.Blockchain.Header.{get_id}
use cosicoin.Bracha.Chain.{learn, check_block_sig-known, broadcast_message-Signed, learn_announced}
use cosicoin.Texts.Plain.{IsFaithful, is_text}
use cosicoin.Bracha.Broadcast.{rotate_keys, broadcast_message}
use cosicoin.Comms.Server.{Server, start_process}
use cosicoin.Signature.Lamport.{IsPair, key_gen-IsPair}
use cosicoin.Wire.Calls.{talk_call, talk_request, talk_delivers}
use cosicoin.Texts.KeysBack.{IsWritableKey}
use cosicoin.Wire.Generated.{generated-IsWritableKey}

-- What a message of each type does to the counters, of a block with this hash.
abbrev pub Counted : MsgType → Bytes → Node → Node → Type 0
Counted send x r r' = r'.send_this_round ≡ x
Counted echo x r r' = at_or 0 x r'.echo_this_round ≡ at_or 0 x r.echo_this_round + 1
Counted ready x r r' = at_or 0 x r'.ready_this_round ≡ at_or 0 x r.ready_this_round + 1
Counted no_type x r r' =
    (at_or 0 x r'.echo_this_round ≡ at_or 0 x r.echo_this_round)
    × (at_or 0 x r'.ready_this_round ≡ at_or 0 x r.ready_this_round)

count_up_self : (x : Bytes) (m : Dict Bytes ℕ) → at_or 0 x (count_up x m) ≡ at_or 0 x m + 1
unfolding count_up
count_up_self x m = elim (Option-cases (lookup x m)) [
  | inl new ↦
      rw (at_or, lookup-insert_self x (elim (lookup x m) [ none ↦ 1 | some k ↦ k + 1 ]) m, new) refl
  | inr (k, old) ↦
      rw (at_or, lookup-insert_self x (elim (lookup x m) [ none ↦ 1 | some k ↦ k + 1 ]) m, old) refl
]

count_message-Counted :
    (t : MsgType) (x : Bytes) (r s : Node)
    → s.echo_this_round ≡ r.echo_this_round
    → s.ready_this_round ≡ r.ready_this_round
    → Counted t x r (count_message t x s)
unfolding count_message
count_message-Counted send x r s e d = refl
count_message-Counted echo x r s e d =
    count_up_self x s.echo_this_round ∙ ap (λ m. at_or 0 x m + 1) e
count_message-Counted ready x r s e d =
    count_up_self x s.ready_this_round ∙ ap (λ m. at_or 0 x m + 1) d
count_message-Counted no_type x r s e d = (ap (at_or 0 x) e, ap (at_or 0 x) d)

count_message-keys :
    (t : MsgType) (x : Bytes) (s : Node) → (count_message t x s).val_sig_keys ≡ s.val_sig_keys
unfolding count_message
count_message-keys send x s = refl
count_message-keys echo x s = refl
count_message-keys ready x s = refl
count_message-keys no_type x s = refl

-- A block that the node has verified before, or that it can verify.
abbrev pub Passes : Bytes → Block → Node → Type 0
Passes x b r =
    (contains r.verified_blocks x ≡ true) ⊎ (verify_block b r.utxolist r.wallet_ids ≡ true)

verify_message-Counted :
    (x : Bytes) (m : Message) (r s : Node)
    → Passes x m.block s
    → s.echo_this_round ≡ r.echo_this_round
    → s.ready_this_round ≡ r.ready_this_round
    → Counted m.msg_type x r (verify_message x m s)
      × ((verify_message x m s).val_sig_keys ≡ s.val_sig_keys)
unfolding accept_message verify_message
verify_message-Counted x m r s passes e d = elim (Bool-cases (contains s.verified_blocks x)) [
  | inl old ↦ rw (verify_message, old) (accepted s e d)
  | inr new ↦ elim passes [
    | inl old ↦ absurd (cc (old, new))
    | inr passed ↦
        rw (verify_message, new, passed)
          (accepted (record s { verified_blocks = add_hash x s.verified_blocks }) e d)
  ]
]
  where
    accepted :
        (q : Node)
        → q.echo_this_round ≡ r.echo_this_round
        → q.ready_this_round ≡ r.ready_this_round
        → Counted m.msg_type x r (accept_message x m q)
          × ((accept_message x m q).val_sig_keys ≡ q.val_sig_keys)
    accepted q e d = (count_message-Counted m.msg_type x r _ e d, count_message-keys m.msg_type x _)

module _ (h : Host) where
  verify_signature-arrived :
      (c : Block) (k : SigKey)
      → c.is_mutable ≡ false
      → verify_signature h c k ≡ ok true
      → verify_signature h (arrived_block c) k ≡ ok true
  unfolding verify_signature block_digest
  verify_signature-arrived c k closed e = rw (← e, closed) refl

  verify_block-txs :
      (b c : Block) (r : Node)
      → c.txs ≡ b.txs
      → verify_block b r.utxolist r.wallet_ids ≡ true
      → verify_block (arrived_block c) r.utxolist r.wallet_ids ≡ true
  unfolding verify_block
  verify_block-txs b c r same e = rw same e

  -- Receipt of a block under a signature that verifies.
  receive-Counted :
      (m : Message) (r : Node) (k : SigKey)
      → lookup m.block.validator_id r.val_sig_keys ≡ some k
      → verify_signature h m.block k ≡ ok true
      → Passes (get_id h m.block.header) m.block r
      → (r' : Node) × (receive h m r ≡ ok r')
        × Counted m.msg_type (get_id h m.block.header) r r'
        × (r'.val_sig_keys ≡ (learn h m.block r).val_sig_keys)
  unfolding receive
  receive-Counted m r k known verified passes =
      let (counted, keys) =
        verify_message-Counted (get_id h m.block.header) m r (learn h m.block r) passes refl refl in
      (
        verify_message (get_id h m.block.header) m (learn h m.block r),
        rw (check_block_sig-known h m.block r k known verified) refl,
        counted,
        keys,
      )

module _ (h : Host) (faithful : IsFaithful h) (hex : (b : Bytes) → is_text (h.hash b) ≡ true) where
  -- The JSON library reads back what it writes, and digests are ASCII. A node with a generated pair
  -- broadcasts a closed block whose transactions and numbers can be sent, and its random source yields
  -- the next pair. The broadcast succeeds, the message crosses the wire to a server with a waiting call,
  -- and stands last in its queue. A peer that knows the key of the node, and has verified the block or
  -- can verify it, counts an ECHO or a READY once for the hash of the block, or notes the hash of a
  -- SEND, and then knows the next key. A message of no type counts as an ECHO.
  pub vote_arrives :
      (t : MsgType) (b : Block) (round i : ℕ) (s r : Node) (next : KeyPair) (server : Server)
      → IsPair h s.my_next_key_pair
      → key_gen h s.entropy ≡ ok next
      → b.is_mutable ≡ false
      → All IsSendableTransaction b.txs
      → s.id < 2 ^ 16
      → round < 2 ^ 32
      → get_elem? server.talk.calls i ≡ some start_process
      → lookup s.id r.val_sig_keys ≡ some s.my_next_key_pair.public_key
      → Passes (get_id h b.header) b r
      → (s' : Node) × (m : Message) × (server' : Server) × (r' : Node) × (broadcast_message h t b
            round s
          ≡ ok s')
        × (s'.sent ≡ s.sent ++ m ∷ [])
        × ((talk_call h m >>= λ p. talk_request h i p server) ≡ ok server')
        × (server'.talk.queue ≡ server.talk.queue ++ arrived m ∷ [])
        × (receive h (arrived m) r ≡ ok r')
        × Counted (sent_type t) (get_id h b.header) r r'
        × (lookup s'.id r'.val_sig_keys ≡ some s'.my_next_key_pair.public_key)
  unfolding new_message rotate_keys
  vote_arrives t b round i s r next server pair g closed txs id small waits known passes =
      let (c, sent, w) = broadcast_message-Signed h t b round s next pair closed g in
      let (verified, key, signer, frozen, header, same_txs) = w in
      let m : Message = new_message t c s.id round in
      let sendable : IsSendable m = record {
        block = record {
          closed = frozen;
          txs = subst (All IsSendableTransaction) (sym same_txs) txs;
          validator = subst (λ n. n < 2 ^ 16) (sym signer) id;
          key =
              subst IsWritableKey (sym key)
                (generated-IsWritableKey h next hex (key_gen-IsPair h s.entropy next g));
        };
        sender = omega (arith, id);
        round = small;
      } in
      let (server', call, queued, _, _) = talk_delivers h faithful m i server sendable waits in
      let known' : lookup c.validator_id r.val_sig_keys ≡ some s.my_next_key_pair.public_key =
        subst (λ n. lookup n r.val_sig_keys ≡ some s.my_next_key_pair.public_key) (sym signer)
          known in
      let passes' : Passes (get_id h c.header) (arrived_block c) r =
        subst (λ x. Passes (get_id h x) (arrived_block c) r) (sym header)
          (elim passes [
            | inl old ↦ inl old
            | inr passed ↦ inr (verify_block-txs h b c r same_txs passed)
          ]) in
      let (r', received, counted, keys) =
        receive-Counted h (arrived m) r s.my_next_key_pair.public_key known'
          (verify_signature-arrived h c s.my_next_key_pair.public_key frozen verified) passes' in
      (
        record (rotate_keys h next s) { sent = s.sent ++ m ∷ [] },
        m,
        server',
        r',
        sent,
        refl,
        call,
        queued,
        received,
        subst (λ x. Counted (sent_type t) (get_id h x) r r') header counted,
        ap (λ l. lookup s.id l) keys
            ∙ learn_announced h (arrived_block c) r s.id next.public_key signer key,
      )
