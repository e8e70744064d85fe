-- ===== src/Tests/Chain.antt =====
-- Transactions and blocks: theorems at concrete data, and runs.
use cosicoin.Base.{ℕ, ◌≡◌, refl, ◌↔◌, true, false, some, [], ◌∷◌, map, arith, Distinct}
use cosicoin.Base.Text.{text, to_string}
use cosicoin.Base.Word.{int_to_u64, int_add}
use cosicoin.Blockchain.Coins.{input_eq, refers_to, input_lt}
use cosicoin.Blockchain.Transaction.{
  check_spending_conditions, get_digest, transaction_beq, total_input, find_utxo, total_output,
  known_receivers,
}
use cosicoin.Blockchain.Spending.{
  IsSpendable, Draws, draw, nothing, here, sum_values, check_spending_conditions_iff,
  check_conserves,
}
use cosicoin.Blockchain.Equality.{Agree, transaction_beq_iff}
use cosicoin.Blockchain.Header.{merkle_root_of, merkle_loop}
use cosicoin.Blockchain.Merkle.{tree}
use cosicoin.Blockchain.MerkleRoot.{Depth, merkle_root_of-tree}
use cosicoin.Blockchain.Block.{
  Block, new_block, verify_block, verify_loop, add_transaction, remove_signatures,
}
use cosicoin.Blockchain.Verify.{AllSpendable, all_inputs, verify_block_iff}
use cosicoin.Blockchain.Lifecycle.{
  Call, Reach, fresh, next, IsSound, call, Reach-IsSound, call_frozen,
}
use cosicoin.Tests.Sample.{host, coins, wallets, payment, refund, closed_block}
use cosicoin.Blockchain.InputSet.{insert_range, set_insert}

payment_checks : check_spending_conditions payment coins wallets ≡ true
unfolding check_spending_conditions total_input find_utxo refers_to int_to_u64 int_add total_output
    known_receivers
payment_checks = refl

block_verifies : verify_block closed_block coins wallets ≡ true
unfolding verify_block check_spending_conditions verify_loop total_input find_utxo refers_to
    int_to_u64 int_add total_output known_receivers insert_range set_insert input_lt
block_verifies = refl

decimal_text : to_string 1207 ≡ text "1207"
unfolding to_string
decimal_text = refl

check_spending_conditions_iff_example :
    (check_spending_conditions payment coins wallets ≡ true) ↔ IsSpendable payment coins wallets
check_spending_conditions_iff_example = check_spending_conditions_iff payment coins wallets

payment_draws : Draws coins payment.inputs 30
unfolding int_to_u64
payment_draws = draw _ (here refl (refl, refl)) nothing refl

check_conserves_example : ◌≡◌ {A = ℕ} 30 (sum_values payment.outputs)
unfolding sum_values
check_conserves_example =
    check_conserves payment coins wallets 30 (λ e. cc) payment_checks payment_draws (omega arith)
      (omega arith)

transaction_beq_iff_example : (transaction_beq payment refund ≡ true) ↔ (
    (payment.inputs ≡ refund.inputs)
    × Agree payment.outputs refund.outputs
    × (payment.sender_sig ≡ refund.sender_sig)
    × (payment.sender_id ≡ refund.sender_id)
    × (payment.tx_id ≡ refund.tx_id)
    × (payment.public_key ≡ refund.public_key))
transaction_beq_iff_example = transaction_beq_iff payment refund

merkle_root_of-tree_example :
    (k : ℕ) × Depth k 2
    × (merkle_loop host 2 (map (get_digest host) (payment ∷ refund ∷ []))
        ≡ some (merkle_root_of host (payment ∷ refund ∷ [])))
    × (merkle_root_of host (payment ∷ refund ∷ [])
        ≡ tree host k (map (get_digest host) (payment ∷ refund ∷ [])))
merkle_root_of-tree_example = merkle_root_of-tree host payment (refund ∷ [])

verify_block_iff_example :
    (verify_block closed_block coins wallets ≡ true)
    ↔ (AllSpendable coins wallets closed_block.txs × Distinct (all_inputs closed_block.txs))
unfolding all_inputs
verify_block_iff_example = verify_block_iff closed_block coins wallets (omega arith)

abbrev started : Block
started = record (new_block 3 []) { txs = payment ∷ [] }

-- A block to which a payment was added.
started-Reach : Reach host 3 [] started
unfolding call new_block add_transaction
started-Reach = next (Call.adds payment) fresh refl

Reach-IsSound_example : IsSound host 3 [] started
Reach-IsSound_example = Reach-IsSound host started-Reach

call_frozen_example :
    (closed_block.txs ≡ closed_block.txs)
    × (closed_block.header ≡ closed_block.header)
    × (closed_block.is_mutable ≡ false)
unfolding call remove_signatures
call_frozen_example = call_frozen host Call.strips closed_block _ refl refl
