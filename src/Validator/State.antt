-- ===== src/Validator/State.antt =====
-- The state of `Validator` (include/cryptowallet/validator.h), with its node. The threads' flags, the
-- address and the database file are left out.
use cosicoin.Base.{ℕ, ◌+◌, ◌%◌, ◌^◌, List, [], ◌∷◌, ◌++◌, nat_eq, if◌then◌else◌}
use cosicoin.Base.Dict.{Dict, insert, has_key, at_or}
use cosicoin.Signature.Keys.{SigKey}
use cosicoin.Blockchain.Coins.{Utxo, UtxoList}
use cosicoin.Blockchain.Transaction.{Transaction}
use cosicoin.Blockchain.Block.{Block}
use cosicoin.Bracha.Node.{Node, set_utxolists}

pub record Validator : Type 0 where
  pub wallets_ids : List ℕ
  pub pk_sets : Dict ℕ SigKey
  pub utxo_sets : Dict ℕ UtxoList
  -- The newest transaction is the last.
  pub memory_pool : List Transaction
  pub blist : List Block
  pub node : Node
  -- What `_grpcServer->setUTXOlists` was given last.
  pub synced : Dict ℕ UtxoList

-- `Validator(id, settings, grpcServer, node, wids)`
unfoldable pub new_validator : Node → List ℕ → Validator
new_validator node wids = record {
  wallets_ids = wids;
  pk_sets = [];
  utxo_sets = [];
  memory_pool = [];
  blist = [];
  node = node;
  synced = [];
}

-- `utxo_sets_[id]` where it is read.
abbrev pub coins_of : ℕ → Validator → UtxoList
coins_of id v = at_or [] id v.utxo_sets

-- What `operator[]` does to the map: a missing key gets an empty list.
unfoldable pub touch : ℕ → Dict ℕ UtxoList → Dict ℕ UtxoList
touch id m = if has_key id m then m else insert id [] m

-- `UTXO(n, 0, Output(coins, id))`
unfoldable pub initial_coin : ℕ → ℕ → ℕ → Utxo
initial_coin coins n id = record {
  transaction_id = n;
  output_index = 0;
  output = record { value = coins; receiver_id = id };
}

-- The loop of `InitializeCoins`: each wallet gets a coin with a number of its own, a `uint32_t`.
unfoldable pub initial_coins : ℕ → ℕ → List ℕ → Dict ℕ UtxoList → Dict ℕ UtxoList × UtxoList
initial_coins coins n [] m = (m, [])
initial_coins coins n (id ∷ ids) m =
    let utxo = initial_coin coins n id in
    let (m', us) =
      initial_coins coins ((n + 1) % 2 ^ 32) ids (insert id (at_or [] id m ++ utxo ∷ []) m) in
    (m', utxo ∷ us)

-- `InitializeCoins`
unfoldable pub initialize_coins : ℕ → Validator → Validator
initialize_coins coins v =
    let (m, us) = initial_coins coins 0 v.wallets_ids v.utxo_sets in
    record v { utxo_sets = m; synced = m; node = set_utxolists us v.wallets_ids v.node }
