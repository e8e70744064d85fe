-- ===== src/Bracha/Node.antt =====
-- The state of `bracha::Node` and its accessors (include/bracha/node.h, lib/bracha/node.cc). What the
-- node hands to its client is collected in `sent`; locks, logging and the wait are left out.
use cosicoin.Base.{
  ℕ, Bool, false, not, none, some, List, [], ◌∷◌, contains, nat_eq, list_eq, if◌then◌else◌,
}
use cosicoin.Base.Text.{Bytes}
use cosicoin.Base.Dict.{Dict, lookup}
use cosicoin.Signature.Keys.{SigKey, KeyPair}
use cosicoin.Blockchain.Coins.{UtxoList}
use cosicoin.Blockchain.Block.{Block, empty_block}
use cosicoin.Blockchain.Message.{Message}

pub record Node : Type 0 where
  pub id : ℕ
  pub is_lead : Bool
  pub n : ℕ
  pub f : ℕ
  pub blk_list : Dict Bytes Block
  pub send_this_round : Bytes
  pub ready_this_round : Dict Bytes ℕ
  pub echo_this_round : Dict Bytes ℕ
  pub ready_sent : List Bytes
  pub utxolist : UtxoList
  pub wallet_ids : List ℕ
  pub voted_hash : Bytes
  pub should_broadcast : Bool
  pub my_current_private_key : SigKey
  pub my_current_public_key : SigKey
  pub my_next_key_pair : KeyPair
  pub val_sig_keys : Dict ℕ SigKey
  pub verified_blocks : List Bytes
  pub blocks : Dict Bytes Block
  pub accepted_blocks : List Bytes
  -- The messages given to `grpcClient_.Broadcast`, oldest first.
  pub sent : List Message
  -- How much of the random stream is used up.
  pub entropy : ℕ

-- `insert` into a `std::set` of hashes.
unfoldable pub add_hash : Bytes → List Bytes → List Bytes
add_hash x s = if contains s x then s else x ∷ s

-- `setUTXOlists`
unfoldable pub set_utxolists : UtxoList → List ℕ → Node → Node
set_utxolists us ws s = record s { utxolist = us; wallet_ids = ws }

-- `clearUTXOlists`
unfoldable pub clear_utxolists : Node → Node
clear_utxolists s = record s { utxolist = [] }

-- `isConsensus`
unfoldable pub is_consensus : Node → Bool
is_consensus s = not s.should_broadcast

-- `getReceivedBlock`: the empty block when the hash is not known.
unfoldable pub get_received_block : Bytes → Node → Block
get_received_block x s = elim (lookup x s.blocks) [ none ↦ empty_block | some b ↦ b ]

-- `blocks_[hash]` for each accepted hash.
unfoldable pub blocks_of : List Bytes → Dict Bytes Block → List Block
blocks_of [] m = []
blocks_of (x ∷ xs) m = elim (lookup x m) [ none ↦ empty_block | some b ↦ b ] ∷ blocks_of xs m

-- `getConsensusBlocks`
unfoldable pub get_consensus_blocks : Bool → Node → List Block × Node
get_consensus_blocks erase s = (
  blocks_of s.accepted_blocks s.blocks,
  if erase then record s { accepted_blocks = []; should_broadcast = false } else s,
)
