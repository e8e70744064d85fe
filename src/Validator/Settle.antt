-- ===== src/Validator/Settle.antt =====
-- `OnAgreeBlk`, `OnSyncReply` and the task of `DBProcess` (lib/cryptowallet/validator.cc).
use cosicoin.Base.{
  ℕ, ◌+◌, Bool, true, none, some, List, [], ◌∷◌, nat_eq, length, ltb, if◌then◌else◌, false,
}
use cosicoin.Base.Dict.{insert}
use cosicoin.Base.Result.{Result, ok, ◌>>=◌, ◌>>◌, guard, undefined_behaviour}
use cosicoin.Blockchain.Coins.{Input, UtxoList, index, erase}
use cosicoin.Blockchain.Transaction.{Transaction}
use cosicoin.Blockchain.Block.{Block}
use cosicoin.Bracha.Node.{is_consensus, get_consensus_blocks}
use cosicoin.Validator.State.{Validator, coins_of}

-- The loop over the inputs, from input `i` on. `ulist` is the copy made before the loop; `live` is the
-- wallet's list. An erase past the end of the list, and a read of an output that is not there, are
-- undefined. The coin that the source makes of the output is dropped.
unfoldable pub spend_loop : List Input → ℕ → ℕ → UtxoList → UtxoList → Result UtxoList
spend_loop [] i outputs ulist live = ok live
spend_loop (x ∷ xs) i outputs ulist live = elim (index ulist x) [
  | none ↦ spend_loop xs (i + 1) outputs ulist live
  | some idx ↦ do
    guard (ltb idx (length live)) undefined_behaviour
    guard (ltb i outputs) undefined_behaviour
    spend_loop xs (i + 1) outputs ulist (erase live idx)
]

-- One transaction of `OnAgreeBlk`.
unfoldable pub settle_tx : Transaction → Validator → Result Validator
settle_tx t v = do
  let coins = coins_of t.sender_id v
  live ← spend_loop t.inputs 0 (length t.outputs) coins coins
  ok (record v { utxo_sets = insert t.sender_id live v.utxo_sets })

unfoldable pub settle_all : List Transaction → Validator → Result Validator
settle_all [] v = ok v
settle_all (t ∷ ts) v = do v' ← settle_tx t v; settle_all ts v'

-- `OnAgreeBlk`
unfoldable pub on_agree_blk : Block → Validator → Result Validator
on_agree_blk b v = settle_all b.txs v

-- `OnSyncReply`
unfoldable pub on_sync_reply : Validator → Validator
on_sync_reply v = record v { synced = v.utxo_sets }

unfoldable pub agree_all : List Block → Validator → Result Validator
agree_all [] v = ok v
agree_all (b ∷ bs) v = do v' ← on_agree_blk b v; agree_all bs v'

-- The task of `DBProcess`.
unfoldable pub db_task : Validator → Result Validator
unfolding on_sync_reply
db_task v = do v' ← agree_all v.blist v; ok (record (on_sync_reply v') { blist = [] })

-- One round of `DBProcess`: whether the task is registered, and the state.
unfoldable pub db_poll : Validator → Bool × Validator
db_poll v =
    let (blocks, node) = get_consensus_blocks true v.node in
    if is_consensus v.node
    then (ltb 0 (length blocks), record v { blist = blocks; node = node })
    else (false, v)
