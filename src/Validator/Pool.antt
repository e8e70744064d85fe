-- ===== src/Validator/Pool.antt =====
-- `OnTxReply`, `OnRecvTx`, `CreateBlk` and `Propose` (lib/cryptowallet/validator.cc).
use cosicoin.Base.{ℕ, ◌&&◌, Bool, true, false, List, [], ◌∷◌, ◌++◌, reverse, nat_eq, if◌then◌else◌}
use cosicoin.Base.Dict.{insert}
use cosicoin.Base.Result.{Result, ok, ◌>>=◌, ◌>>◌, guard, assertion_failed}
use cosicoin.Host.{Host}
use cosicoin.Signature.Sign.{verify, is_one}
use cosicoin.Blockchain.Transaction.{Transaction, get_digest, check_spending_conditions}
use cosicoin.Blockchain.Block.{Block, empty_block, add_transaction, verify_tx_consist, finalize}
use cosicoin.Bracha.Broadcast.{propose}
use cosicoin.Validator.State.{Validator, coins_of, touch}

-- `UpdateKeys`
unfoldable pub update_keys : ℕ → Transaction → Validator → Validator
update_keys sender_id t v = record v { pk_sets = insert sender_id t.public_key v.pk_sets }

-- Reading `utxo_sets_[id]` may add an entry.
unfoldable pub touch_coins : ℕ → Validator → Validator
touch_coins id v = record v { utxo_sets = touch id v.utxo_sets }

-- The checks of `CreateBlk` on one transaction.
unfoldable pub is_includable : Transaction → Block → Validator → Bool
is_includable t b v =
    check_spending_conditions t (coins_of t.sender_id v) v.wallets_ids && verify_tx_consist b t

-- The loop of `CreateBlk`, over the pool from its end.
unfoldable pub create_loop : List Transaction → Block → Validator → Result (Block × Validator)
create_loop [] b v = ok (b, v)
create_loop (t ∷ ts) b v =
    let skip = create_loop ts b (touch_coins t.sender_id v) in
    if is_includable t b v
    then (do b' ← add_transaction t b; create_loop ts b' (touch_coins t.sender_id v))
    else skip

module _ (h : Host) where
  -- `OnRecvTx`: the key that is looked up is the one just stored.
  unfoldable pub is_acceptable : Transaction → Validator → Bool
  is_acceptable t v =
      is_one (verify h (get_digest h t) t.sender_sig t.public_key)
      && check_spending_conditions t (coins_of t.sender_id v) v.wallets_ids

  -- `OnRecvTx`, with its result 1 or 0.
  unfoldable pub on_recv_tx : Transaction → Validator → Bool × Validator
  unfolding update_keys touch_coins
  on_recv_tx t v =
      let v' = touch_coins t.sender_id (update_keys t.sender_id t v) in
      if is_acceptable t v
      then (true, record v' { memory_pool = v'.memory_pool ++ t ∷ [] })
      else (false, v')

  -- `OnTxReply`. It is declared to return an int and returns none, which C++ leaves undefined; it is
  -- taken to end normally.
  unfoldable pub on_tx_reply : List Transaction → Validator → Validator
  on_tx_reply [] v = v
  on_tx_reply (t ∷ ts) v = on_tx_reply ts (on_recv_tx t v).1

  unfoldable pub close_block : Block × Validator → Result (Bool × Block × Validator)
  close_block (b, v) = do b' ← finalize h b; ok (true, b', v)

  unfoldable pub create_from :
      List Transaction → Block → Validator → Result (Bool × Block × Validator)
  unfolding create_loop close_block
  create_from [] b v = ok (false, b, v)
  create_from (t ∷ ts) b v = create_loop (t ∷ ts) b (record v { memory_pool = [] }) >>= close_block

  -- `CreateBlk`, with its result 1 or 0.
  unfoldable pub create_blk : Block → Validator → Result (Bool × Block × Validator)
  create_blk b v = do guard v.node.is_lead assertion_failed; create_from (reverse v.memory_pool) b v

  -- `Propose`
  unfoldable pub propose_block : Block → Validator → Result Validator
  propose_block b v = do
    guard v.node.is_lead assertion_failed
    node ← propose h b v.node
    ok (record v { node = node })

  unfoldable pub propose_created : Bool × Block × Validator → Result Validator
  propose_created (created, b, v) =
      let proposed = propose_block b v in if created then proposed else ok v

  -- The task of `ProposeProcess`.
  unfoldable pub propose_task : Validator → Result Validator
  unfolding propose_created
  propose_task v = create_blk empty_block v >>= propose_created
