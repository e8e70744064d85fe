-- ===== src/Tests/Nodes.antt =====
-- Consensus: theorems at concrete nodes, and runs.
use cosicoin.Base.{
  ℕ, ◌≡◌, refl, true, false, some, List, [], ◌∷◌, ◌++◌, map, arith, list_eq, nat_eq, list_beq,
  list_beq_iff,
}
use cosicoin.Base.Text.{Bytes}
use cosicoin.Base.Dict.{lookup, insert, erase}
use cosicoin.Base.Result.{ok}
use cosicoin.Signature.Keys.{KeyPair, key_gen, is_set, empty_key}
use cosicoin.Signature.Lamport.{key_gen-total}
use cosicoin.Blockchain.Block.{
  Block, block_digest, BlockSignature, empty_block, verify_block, verify_loop,
  add_validator_signature,
}
use cosicoin.Blockchain.Message.{Message, MsgType, echo, ready, new_message}
use cosicoin.Bracha.Node.{Node, add_hash}
use cosicoin.Bracha.Receive.{
  check_block_sig, update_recv_messages, receive, verify_message, accept_message, count_message,
  receive_all,
}
use cosicoin.Bracha.Broadcast.{
  broadcast_round, answer_send, echo_loop, ready_loop, ready_if, deliver,
}
use cosicoin.Bracha.Chain.{broadcast_all, check_all, broadcast_all-accepted}
use cosicoin.Bracha.Sent.{Sent, broadcast_round-Sent}
use cosicoin.Bracha.Trust.{IsTrusted, update_recv_messages-IsTrusted}
use cosicoin.Tests.Sample.{host, host-NeverFails, pair, pair-IsPair, closed_block, node}
use cosicoin.Blockchain.Header.{get_id}
use cosicoin.Base.Word.{int_to_u64}
use cosicoin.Bracha.Fault.{
  delay_send, crash, Silent, fault_run_protocol, fault_run_protocol-Silent, fault_loop,
  behavior_to_string, is_not_crash,
}

abbrev drawn : (pos : ℕ) → (p : KeyPair) × (key_gen host pos ≡ ok p)
drawn = key_gen-total host host-NeverFails

-- A peer that knows the next key of node 1.
abbrev peer : Node
peer = record node { id = 2; val_sig_keys = (1, pair.public_key) ∷ [] }

abbrev two_broadcasts : List (MsgType × Block × ℕ)
two_broadcasts = (echo, closed_block, 1) ∷ (ready, closed_block, 2) ∷ []

broadcast_all-accepted_example :
    (s' : Node) × (ms : List Message) × (r' : Node) × (broadcast_all host two_broadcasts node
      ≡ ok s')
    × (s'.sent ≡ node.sent ++ ms)
    × (map (λ m. m.block.txs) ms ≡ map (λ x. x.1.txs) two_broadcasts)
    × (check_all host (map (λ m. m.block) ms) peer ≡ ok (true, r'))
    × (lookup s'.id r'.val_sig_keys ≡ some s'.my_next_key_pair.public_key)
unfolding lookup
broadcast_all-accepted_example =
    broadcast_all-accepted host drawn two_broadcasts node peer pair-IsPair (refl, (refl, tt)) refl

-- Three READY messages more than f + 1: the block is delivered.
abbrev voted : Node
voted = record node { ready_this_round = (7 ∷ [], 4) ∷ []; ready_sent = (7 ∷ []) ∷ [] }

-- A block without transactions is echoed to node 1, which knows nothing yet.
abbrev bare : Block
bare = record empty_block { is_mutable = false }

abbrev echoes : List Message
echoes = new_message echo bare 2 1 ∷ []

node-IsTrusted : IsTrusted host node
unfolding lookup
node-IsTrusted = record {
  asked = λ c. absurd (cc ((list_beq_iff {A = ℕ} [] []).1 refl, c));
  known = λ x b e. absurd (cc e);
  verified = λ x e. absurd (cc e);
  echoed = λ x e. absurd (cc e);
  readied = λ x e. absurd (cc e);
}

abbrev block_hash : Bytes
block_hash = 7 ∷ []

abbrev echo_signature : BlockSignature
echo_signature = record { signature = []; public_key = empty_key; validator_id = 0; round = 1 }

abbrev echoed_node : Node
echoed_node = record node {
  val_sig_keys = (0, empty_key) ∷ [];
  verified_blocks = block_hash ∷ [];
  blocks = (block_hash, record bare { validator_sigs = echo_signature ∷ [] }) ∷ [];
  blk_list = (block_hash, bare) ∷ [];
  echo_this_round = (block_hash, 1) ∷ [];
}

bare_checked :
    check_block_sig host bare node ≡ ok (true, record node { val_sig_keys = (0, empty_key) ∷ [] })
unfolding check_block_sig block_digest is_set lookup insert
bare_checked = refl

bare_verified : verify_block bare node.utxolist node.wallet_ids ≡ true
unfolding verify_block verify_loop int_to_u64
bare_verified = refl

echo_received : receive host (new_message echo bare 2 1) node ≡ ok echoed_node
unfolding receive verify_message check_block_sig block_digest new_message accept_message
    count_message lookup insert add_hash get_id add_validator_signature
echo_received = rw (bare_checked, bare_verified) refl

update_recv_messages_echo : update_recv_messages host echoes node ≡ ok echoed_node
unfolding update_recv_messages receive_all
update_recv_messages_echo = rw echo_received refl

update_recv_messages-IsTrusted_example : IsTrusted host echoed_node
update_recv_messages-IsTrusted_example =
    update_recv_messages-IsTrusted host echoes node echoed_node update_recv_messages_echo
      node-IsTrusted

-- The node has sent its READY and counts four: the block is delivered.
abbrev counting : Node
counting = record echoed_node {
  echo_this_round = [];
  ready_this_round = (block_hash, 4) ∷ [];
  ready_sent = block_hash ∷ [];
}

counting-IsTrusted : IsTrusted host counting
unfolding lookup list_beq
counting-IsTrusted =
    let v = update_recv_messages-IsTrusted_example in
    record {
      asked = v.asked;
      known = v.known;
      verified = v.verified;
      echoed = λ x e. absurd (cc e);
      readied = λ x e. v.echoed x (ground (arith, e));
    }

abbrev counted : Node
counted = record counting {
  should_broadcast = false;
  voted_hash = block_hash;
  ready_this_round = [];
  accepted_blocks = block_hash ∷ [];
}

broadcast_round-Sent_example : Sent host counting counted
unfolding broadcast_round answer_send list_beq echo_loop ready_loop ready_if deliver erase
broadcast_round-Sent_example = broadcast_round-Sent host counting counted counting-IsTrusted refl

-- A node that delays its messages gets a message.
fault_run_protocol-Silent_example :
    Silent host node echoed_node
    × (delay_send ≡ crash → echoed_node ≡ record node { should_broadcast = false })
unfolding fault_run_protocol fault_loop behavior_to_string is_not_crash
fault_run_protocol-Silent_example =
    fault_run_protocol-Silent host true delay_send (echoes ∷ []) node echoed_node
      (rw update_recv_messages_echo refl)
