-- ===== src/Bracha/Receive.antt =====
-- `checkBlockSig` and `updateRecvMessages` (lib/bracha/node.cc).
use cosicoin.Base.{
  ℕ, ◌+◌, Bool, true, Option, none, some, List, [], ◌∷◌, contains, nat_eq, list_eq, if◌then◌else◌,
  ◌%◌, ◌^◌,
}
use cosicoin.Base.Text.{Bytes}
use cosicoin.Base.Dict.{Dict, lookup, insert, has_key, at_or}
use cosicoin.Base.Result.{Result, ok, ◌>>=◌}
use cosicoin.Host.{Host}
use cosicoin.Signature.Keys.{SigKey, empty_key}
use cosicoin.Signature.Sign.{verify, is_one}
use cosicoin.Blockchain.Header.{get_id}
use cosicoin.Blockchain.Block.{
  Block, BlockSignature, block_digest, verify_block, add_validator_signature,
}
use cosicoin.Blockchain.Message.{Message, MsgType, echo, send, ready, no_type}
use cosicoin.Bracha.Node.{Node, add_hash}

-- `blocks_[hash]` with one more signature; the block itself is kept when the hash is new.
unfoldable pub record_signature :
    Bytes → Block → BlockSignature → Dict Bytes Block → Dict Bytes Block
record_signature x b sig m =
    insert x (add_validator_signature sig (elim (lookup x m) [ none ↦ b | some old ↦ old ])) m

-- `if (blk_list_.find(hash) == end()) blk_list_[hash] = block;`
unfoldable pub insert_new : Bytes → Block → Dict Bytes Block → Dict Bytes Block
insert_new x b m = if has_key x m then m else insert x b m

-- `counter[hash]++`, or 1 for a new hash.
unfoldable pub count_up : Bytes → Dict Bytes ℕ → Dict Bytes ℕ
count_up x m = insert x (elim (lookup x m) [ none ↦ 1 | some k ↦ k + 1 ]) m

-- The `switch` on the type of the message; its default does nothing.
unfoldable pub count_message : MsgType → Bytes → Node → Node
unfolding count_up
count_message send x s = record s { send_this_round = x }
count_message echo x s = record s { echo_this_round = count_up x s.echo_this_round }
count_message ready x s = record s { ready_this_round = count_up x s.ready_this_round }
count_message no_type x s = s

-- What follows the two checks.
unfoldable pub accept_message : Bytes → Message → Node → Node
unfolding record_signature insert_new
accept_message x m s =
    let b = m.block in
    let sig : BlockSignature = record {
      signature = b.validator_sig;
      public_key = at_or empty_key b.validator_id s.val_sig_keys;
      validator_id = b.validator_id;
      round = m.round % 2 ^ 16;
    } in
    count_message m.msg_type x (record s {
      blocks = record_signature x b sig s.blocks;
      blk_list = insert_new x b s.blk_list;
    })

-- The second check, which is made once for a header hash.
unfoldable pub verify_message : Bytes → Message → Node → Node
verify_message x m s =
    if contains s.verified_blocks x
    then accept_message x m s
    else if verify_block m.block s.utxolist s.wallet_ids
    then accept_message x m (record s { verified_blocks = add_hash x s.verified_blocks })
    else s

module _ (h : Host) where
  -- The verdict of `checkBlockSig`: a block of a node without a known key is accepted.
  unfoldable pub sig_is_valid : Bytes → Block → Option SigKey → Bool
  sig_is_valid digest b none = true
  sig_is_valid digest b (some k) = is_one (verify h digest b.validator_sig k)

  -- `checkBlockSig`: the next key is stored whatever the verdict.
  unfoldable pub check_block_sig : Block → Node → Result (Bool × Node)
  unfolding sig_is_valid
  check_block_sig b s = do
    digest ← block_digest h b
    ok (
      sig_is_valid digest b (lookup b.validator_id s.val_sig_keys),
      record s { val_sig_keys = insert b.validator_id b.validator_next_public_key s.val_sig_keys },
    )

  -- The body of the loop; a failed check is a `continue`.
  unfoldable pub receive : Message → Node → Result Node
  receive m s = do
    (valid, s') ← check_block_sig m.block s
    ok (if valid then verify_message (get_id h m.block.header) m s' else s')

  unfoldable pub receive_all : List Message → Node → Result Node
  receive_all [] s = ok s
  receive_all (m ∷ ms) s = do s' ← receive m s; receive_all ms s'

  -- `updateRecvMessages`
  unfoldable pub update_recv_messages : List Message → Node → Result Node
  update_recv_messages ms s = receive_all ms (record s { send_this_round = [] })
