-- ===== src/Bracha/Broadcast.antt =====
-- `signBlock`, `broadcastMessage`, `broadcastRound` and the protocol's loop (lib/bracha/node.cc).
use cosicoin.Base.{
  ℕ, ◌+◌, ◌*◌, ◌/◌, Bool, true, false, not, ◌&&◌, List, [], ◌∷◌, ◌++◌, contains, leb, ltb, nat_eq,
  list_eq, list_beq, if◌then◌else◌,
}
use cosicoin.Base.Text.{Bytes}
use cosicoin.Base.Dict.{erase, at_or}
use cosicoin.Base.Result.{Result, ok, ◌>>=◌, ◌>>◌, guard, assertion_failed}
use cosicoin.Host.{Host}
use cosicoin.Signature.Bitset.{key_len}
use cosicoin.Signature.Keys.{KeyPair, key_gen}
use cosicoin.Signature.Sign.{verify, is_nonzero}
use cosicoin.Blockchain.Block.{Block, empty_block, sign_block, block_digest}
use cosicoin.Blockchain.Message.{Message, MsgType, echo, send, ready, new_message}
use cosicoin.Bracha.Node.{Node, add_hash}
use cosicoin.Bracha.Receive.{update_recv_messages}

-- `floor((n_ + f_ + 1) / 2)`: the division is that of integers.
unfoldable pub echo_quorum : Node → ℕ
echo_quorum s = (s.n + s.f + 1) / 2

module _ (h : Host) where
  -- The keys after the first lines of `signBlock`: `KeyGen` reads 2 · 32 bytes for each of 256 pairs.
  unfoldable pub rotate_keys : KeyPair → Node → Node
  rotate_keys next s = record s {
    my_current_private_key = s.my_next_key_pair.private_key;
    my_current_public_key = s.my_next_key_pair.public_key;
    my_next_key_pair = next;
    entropy = s.entropy + 2 * (key_len / 8) * key_len;
  }

  -- `Node::signBlock`, with its assertion.
  unfoldable pub node_sign_block : Block → Node → Result (Block × Node)
  unfolding rotate_keys
  node_sign_block b s = do
    next ← key_gen h s.entropy
    let s' = rotate_keys next s
    signed ← sign_block h s'.my_current_private_key s.id next.public_key b
    digest ← block_digest h signed
    guard (is_nonzero (verify h digest signed.validator_sig s'.my_current_public_key))
        assertion_failed
    ok (signed, s')

  -- `Node::broadcastMessage`
  unfoldable pub broadcast_message : MsgType → Block → ℕ → Node → Result Node
  broadcast_message type b round s = do
    (signed, s') ← node_sign_block b s
    ok (record s' { sent = s'.sent ++ new_message type signed s.id round ∷ [] })

  unfoldable pub send_echo : Node → Result Node
  send_echo s = do
    s' ← broadcast_message echo (at_or empty_block s.send_this_round s.blk_list) 1 s
    ok (record s' { send_this_round = [] })

  -- The answer to a SEND of this round.
  unfoldable pub answer_send : Node → Result Node
  answer_send s = if list_beq s.send_this_round [] then ok s else send_echo s

  -- `broadcastMessage(READY, …); ready_sent_.insert(hash);`
  unfoldable pub broadcast_ready : Bytes → ℕ → Node → Result Node
  broadcast_ready x round s = do
    s' ← broadcast_message ready (at_or empty_block x s.blk_list) round s
    ok (record s' { ready_sent = add_hash x s'.ready_sent })

  unfoldable pub ready_if : Bool → Bytes → ℕ → Node → Result Node
  ready_if enough x round s =
      if enough && not (contains s.ready_sent x) then broadcast_ready x round s else ok s

  -- The loop over the ECHO counters.
  unfoldable pub echo_loop : List (Bytes × ℕ) → Node → Result Node
  echo_loop [] s = ok s
  echo_loop ((x, k) ∷ rest) s = do s' ← ready_if (leb (echo_quorum s) k) x 2 s; echo_loop rest s'

  -- The node once it has delivered the block with the hash `x` and appended `y`.
  unfoldable pub delivered : Bytes → Bytes → Node → Node
  delivered x y s = record s {
    should_broadcast = false;
    voted_hash = x;
    echo_this_round = erase x s.echo_this_round;
    ready_this_round = erase x s.ready_this_round;
    accepted_blocks = s.accepted_blocks ++ y ∷ [];
  }

  -- Delivery. What is appended is read through a reference into the entry that was just erased, so
  -- it is whatever that read yields, if it does not fail.
  unfoldable pub deliver : Bytes → Node → Result Node
  unfolding delivered
  deliver x s = do y ← h.freed x; ok (delivered x y s)

  -- The loop over the READY counters, which a delivery leaves.
  unfoldable pub ready_loop : List (Bytes × ℕ) → Node → Result Node
  unfolding deliver
  ready_loop [] s = ok s
  ready_loop ((x, k) ∷ rest) s = do
    s' ← ready_if (leb (s.f + 1) k) x 3 s
    let continued = ready_loop rest s'
    if ltb (2 * s'.f + 1) k then deliver x s' else continued

  -- `Node::broadcastRound`
  unfoldable pub broadcast_round : Node → Result Node
  broadcast_round s = do
    s1 ← answer_send (record s { should_broadcast = true })
    s2 ← echo_loop s1.echo_this_round s1
    ready_loop s2.ready_this_round s2

  -- One round of `RunProtocol`: the messages that `RunTaskInWait` takes, and the answers.
  unfoldable pub protocol_round : List Message → Node → Result Node
  protocol_round ms s = do s' ← update_recv_messages h ms s; broadcast_round s'

  -- The loop of `RunProtocol`: one batch of messages for each round, while the node should broadcast.
  unfoldable pub protocol_loop : List (List Message) → Node → Result Node
  protocol_loop [] s = ok s
  protocol_loop (ms ∷ rest) s = elim s.should_broadcast [
    | true ↦ protocol_round ms s >>= protocol_loop rest
    | false ↦ ok s
  ]

  -- `RunProtocol`
  unfoldable pub run_protocol : Bool → List (List Message) → Node → Result Node
  run_protocol broadcast batches s =
      protocol_loop batches (record s { should_broadcast = broadcast })

  -- `LeaderNode::Propose`
  unfoldable pub propose : Block → Node → Result Node
  propose b s = broadcast_message send b 0 s
