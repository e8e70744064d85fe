-- ===== src/Tests/Validators.antt =====
-- The validator: theorems at a concrete leader, and runs.
use cosicoin.Base.{
  ℕ, ◌+◌, ◌≡◌, refl, true, false, some, List, [], ◌∷◌, ◌++◌, arith, nat_eq, list_eq, get_elem?,
}
use cosicoin.Base.Dict.{lookup, insert}
use cosicoin.Base.Sublist.{Sublist}
use cosicoin.Base.Result.{Result, ok}
use cosicoin.Blockchain.Coins.{Utxo, UtxoList, input_eq, index, refers_to, erase}
use cosicoin.Blockchain.Transaction.{
  Transaction, check_spending_conditions, find_utxo, total_input, total_output, known_receivers,
}
use cosicoin.Blockchain.Block.{Block, empty_block, verify_block}
use cosicoin.Blockchain.Message.{new_message, send}
use cosicoin.Bracha.Keys.{Signed}
use cosicoin.Validator.State.{Validator, coins_of, initialize_coins, initial_coin, initial_coins}
use cosicoin.Validator.Events.{tx, EventHandler, empty_handler, event_rounds, run_tasks}
use cosicoin.Validator.Pool.{on_recv_tx, create_blk, propose_task}
use cosicoin.Validator.Settle.{on_agree_blk, settle_all, settle_tx, spend_loop}
use cosicoin.Validator.Admission.{Received, on_recv_tx-Received, forge, on_recv_tx_forged}
use cosicoin.Validator.Creation.{Created, create_blk-Created}
use cosicoin.Validator.Acceptance.{create_blk_verifies}
use cosicoin.Validator.Settlement.{on_agree_blk-Sublist}
use cosicoin.Validator.Spent.{on_agree_blk_one, on_agree_blk_two}
use cosicoin.Validator.Proposal.{propose_task_sends}
use cosicoin.Validator.Reruns.{register_all, repeat_tasks, event_rounds_rerun}
use cosicoin.Tests.Sample.{
  host, pair, pair-IsPair, host-NeverFails, payment, wallets, node, first_coin, second_coin,
}
use cosicoin.Signature.Lamport.{key_gen-total}
use cosicoin.Base.Word.{int_to_u64, int_add}
use cosicoin.Blockchain.Verify.{all_inputs}

-- A leader with two wallets and no coins yet.
abbrev fresh : Validator
fresh = record {
  wallets_ids = wallets;
  pk_sets = [];
  utxo_sets = [];
  memory_pool = [];
  blist = [];
  node = record node { is_lead = true };
  synced = [];
}

-- 30 coins for each wallet: 4 holds coin 0, 5 holds coin 1.
abbrev funded : Validator
funded = record fresh {
  utxo_sets = (4, initial_coin 30 0 4 ∷ []) ∷ (5, initial_coin 30 1 5 ∷ []) ∷ [];
}

initialize_fresh : (initialize_coins 30 fresh).utxo_sets ≡ funded.utxo_sets
unfolding initialize_coins lookup initial_coins insert
initialize_fresh = refl

on_recv_tx-Received_example :
    Received host payment funded
      (on_recv_tx host payment funded).1
      (on_recv_tx host payment funded).0
on_recv_tx-Received_example = on_recv_tx-Received host payment funded

on_recv_tx_forged_example :
    ((on_recv_tx host (forge host pair payment) funded).0 ≡ true)
    × ((on_recv_tx host (forge host pair payment) funded).1.memory_pool
        ≡ forge host pair payment ∷ [])
    × (lookup 4 (on_recv_tx host (forge host pair payment) funded).1.pk_sets ≡ some pair.public_key)
unfolding check_spending_conditions lookup initial_coin total_input find_utxo refers_to int_to_u64
    int_add total_output known_receivers
on_recv_tx_forged_example = on_recv_tx_forged host pair payment funded pair-IsPair refl

abbrev pooled : Validator
pooled = record funded { memory_pool = payment ∷ [] }

pooled-nonempty : ◌≡◌ {A = List Transaction} (payment ∷ []) [] → ⊥
pooled-nonempty e = cc e

create_blk-Created_example :
    (c : Block) × (v' : Validator) × (create_blk host empty_block pooled ≡ ok (true, c, v'))
    × Created host empty_block pooled c v'
create_blk-Created_example =
    create_blk-Created host empty_block pooled refl pooled-nonempty refl refl ((refl, tt), tt)

create_blk_verifies_example :
    (c : Block) × (v' : Validator) × (create_blk host empty_block pooled ≡ ok (true, c, v'))
    × (verify_block c (initialize_coins 30 fresh).node.utxolist wallets ≡ true)
unfolding initialize_coins initial_coins insert lookup all_inputs
create_blk_verifies_example =
    create_blk_verifies host 30 fresh pooled empty_block refl (omega arith) refl refl refl
      pooled-nonempty refl refl ((refl, tt), tt) (omega arith)

propose_task_sends_example :
    (b : Block) × (c : Block) × (v1 : Validator) × (v' : Validator) × (propose_task host pooled
      ≡ ok v')
    × (v'.memory_pool ≡ [])
    × (v'.node.sent ≡ new_message send c 1 0 ∷ [])
    × Created host empty_block pooled b v1
    × Signed host pooled.node (key_gen-total host host-NeverFails 0).0 b c
propose_task_sends_example =
    propose_task_sends host pooled (key_gen-total host host-NeverFails 0).0 refl pooled-nonempty
      ((refl, tt), tt) pair-IsPair (key_gen-total host host-NeverFails 0).1

abbrev agreed : Block
agreed = record empty_block { txs = payment ∷ []; is_mutable = false }

abbrev spent : Validator
spent = record funded { utxo_sets = (4, []) ∷ (5, initial_coin 30 1 5 ∷ []) ∷ [] }

on_agree_blk-Sublist_example : Sublist (coins_of 4 spent) (coins_of 4 funded)
unfolding lookup on_agree_blk initial_coin settle_all settle_tx spend_loop index refers_to
    int_to_u64 insert erase
on_agree_blk-Sublist_example = on_agree_blk-Sublist agreed funded spent 4 refl

on_agree_blk_one_example :
    (v' : Validator) × (before : UtxoList) × (coin : Utxo) × (after : UtxoList) × (on_agree_blk
        agreed funded
      ≡ ok v')
    × (coins_of 4 funded ≡ before ++ coin ∷ after)
    × (find_utxo (coins_of 4 funded) first_coin ≡ some coin)
    × (coins_of 4 v' ≡ before ++ after)
    × ((w : ℕ) → ¬ (4 ≡ w) → coins_of w v' ≡ coins_of w funded)
unfolding check_spending_conditions lookup initial_coin total_input find_utxo refers_to int_to_u64
    int_add total_output known_receivers
on_agree_blk_one_example =
    on_agree_blk_one agreed funded payment first_coin refl refl (λ e. cc e) refl

-- Wallet 4 holds three coins and spends the first two.
abbrev rich : Validator
rich = record funded {
  utxo_sets = (4, initial_coin 30 0 4 ∷ initial_coin 12 1 4 ∷ initial_coin 8 2 4 ∷ []) ∷ [];
}

abbrev double : Transaction
double = record payment { inputs = first_coin ∷ second_coin ∷ [] }

abbrev double_block : Block
double_block = record agreed { txs = double ∷ [] }

on_agree_blk_two_example :
    (v' : Validator) × (on_agree_blk double_block rich ≡ ok v')
    × (get_elem? (coins_of 4 v') 0 ≡ some (initial_coin 12 1 4))
    × ((u : Transaction) (ws : List ℕ)
        → u.inputs ≡ second_coin ∷ []
        → check_spending_conditions u (coins_of 4 v') ws
          ≡ check_spending_conditions u (coins_of 4 rich) ws)
unfolding lookup index initial_coin refers_to int_to_u64
on_agree_blk_two_example =
    on_agree_blk_two double_block rich double first_coin second_coin 0 1 refl refl (omega arith)
      refl refl (omega arith) (omega arith)

-- Two tasks that count run two times each.
abbrev one_more : ℕ → Result ℕ
one_more n = ok (n + 1)

event_rounds_rerun_example :
    (q : EventHandler ℕ) × (event_rounds 2
        (register_all tx (one_more ∷ one_more ∷ []) empty_handler)
        0
      ≡ ok (q, 4))
    × (q.publist ≡ [])
unfolding repeat_tasks run_tasks
event_rounds_rerun_example = event_rounds_rerun tx (one_more ∷ one_more ∷ []) 0 4 refl
