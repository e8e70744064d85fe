-- ===== src/Tests/Votes.antt =====
-- A vote on its way, at concrete nodes.
use cosicoin.Wire.Sent.{arrived}
use cosicoin.Blockchain.Message.{ready, Message}
use cosicoin.Base.{true, some, [], ◌∷◌, ◌++◌, ◌≡◌, refl, arith, inr, nat_eq, list_eq}
use cosicoin.Base.Result.{ok, ◌>>=◌}
use cosicoin.Bracha.Node.{Node}
use cosicoin.Blockchain.Block.{verify_block, verify_loop}
use cosicoin.Base.Dict.{lookup}
use cosicoin.Tests.Sample.{node}
use cosicoin.Blockchain.Transaction.{
  check_spending_conditions, total_input, find_utxo, total_output, known_receivers,
}
use cosicoin.Signature.Lamport.{key_gen-total, key_gen-IsPair}
use cosicoin.Comms.Server.{Server}
use cosicoin.Tests.Codec.{codec, codec-NeverFails, codec-IsFaithful, is_text-hash}
use cosicoin.Bracha.Broadcast.{broadcast_message}
use cosicoin.Tests.Texts.{full_block, waiting_server, text_key-IsWritableKey}
use cosicoin.Blockchain.Coins.{refers_to, input_lt}
use cosicoin.Wire.Calls.{talk_call, talk_request}
use cosicoin.Base.Word.{int_to_u64, int_add}
use cosicoin.Bracha.Receive.{receive}
use cosicoin.Wire.Votes.{Counted, vote_arrives}
use cosicoin.Blockchain.InputSet.{insert_range, set_insert}
use cosicoin.Blockchain.Header.{get_id}

-- A node that generated a pair, and a peer that knows its key.
abbrev voter : Node
voter = record node {
  my_next_key_pair = (key_gen-total codec codec-NeverFails 0).0;
  entropy = 16384;
}

abbrev peer : Node
peer = record node {
  id = 2;
  val_sig_keys = (1, (key_gen-total codec codec-NeverFails 0).0.public_key) ∷ [];
}

full_block_passes : verify_block full_block peer.utxolist peer.wallet_ids ≡ true
unfolding verify_block check_spending_conditions verify_loop total_input find_utxo refers_to
    int_to_u64 int_add total_output known_receivers insert_range set_insert input_lt
full_block_passes = refl

vote_arrives_example :
    (s' : Node) × (m : Message) × (server' : Server) × (r' : Node) × (broadcast_message codec ready
        full_block 2 voter
      ≡ ok s')
    × (s'.sent ≡ [] ++ m ∷ [])
    × ((talk_call codec m >>= λ p. talk_request codec 0 p waiting_server) ≡ ok server')
    × (server'.talk.queue ≡ [] ++ arrived m ∷ [])
    × (receive codec (arrived m) peer ≡ ok r')
    × Counted ready (get_id codec full_block.header) peer r'
    × (lookup s'.id r'.val_sig_keys ≡ some s'.my_next_key_pair.public_key)
unfolding lookup
vote_arrives_example =
    vote_arrives codec codec-IsFaithful is_text-hash ready full_block 2 0 voter peer
      (key_gen-total codec codec-NeverFails 16384).0 waiting_server
      (key_gen-IsPair codec 0 (key_gen-total codec codec-NeverFails 0).0
        (key_gen-total codec codec-NeverFails 0).1)
      (key_gen-total codec codec-NeverFails 16384).1 refl
      (record { sender = omega arith; key = inr text_key-IsWritableKey }, tt) (omega arith)
      (omega arith) refl refl (inr full_block_passes)
