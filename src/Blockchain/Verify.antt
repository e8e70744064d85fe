-- ===== src/Blockchain/Verify.antt =====
-- What `Block::verify` and `Block::verifyTxConsist` accept (lib/blockchain/block.cc).
use cosicoin.Base.{
  ℕ, ◌+◌, ◌%◌, ◌^◌, ◌<◌, ◌≡◌, refl, ◌↔◌, inl, inr, true, false, some, List, [], ◌∷◌, ◌++◌, All,
  length, length-append, contains, contains-append, Distinct, arith, nat_eq, Option-cases, sym,
}
use mathlib.Core.List.{append-nil, append_assoc}
use cosicoin.Base.Word.{int_add, int_add_lem, int_to_u64_small}
use cosicoin.Blockchain.Coins.{Input, UtxoList, input_eq}
use cosicoin.Blockchain.InputSet.{insert_range, insert_range-append, length-insert_range-Distinct}
use cosicoin.Blockchain.Transaction.{Transaction, check_spending_conditions}
use cosicoin.Blockchain.Block.{
  Block, verify_loop, verify_block, some_input_in, consistent_with, verify_tx_consist,
}

-- The inputs of all the transactions, in order.
unfoldable pub all_inputs : List Transaction → List Input
all_inputs [] = []
all_inputs (t ∷ ts) = t.inputs ++ all_inputs ts

abbrev pub AllSpendable : UtxoList → List ℕ → List Transaction → Type 0
AllSpendable us ws = All (λ t. check_spending_conditions t us ws ≡ true)

verify_loop_spendable :
    (ts : List Transaction) (us : UtxoList) (ws : List ℕ) (n : ℕ) (s : List Input)
    → n < 2 ^ 32
    → AllSpendable us ws ts
    → verify_loop ts us ws n s
      ≡ some ((n + length (all_inputs ts)) % 2 ^ 32, insert_range (all_inputs ts) s)
unfolding verify_loop all_inputs insert_range
verify_loop_spendable [] us ws n s p h = ground (arith)
verify_loop_spendable (t ∷ ts) us ws n s p h = ground (
  arith,
  int_add_lem n (length t.inputs),
  length-append t.inputs (all_inputs ts),
  insert_range-append t.inputs (all_inputs ts) s,
  verify_loop_spendable ts us ws (int_add n (length t.inputs)) (insert_range t.inputs s)
      (omega (arith, int_add_lem n (length t.inputs))) h.1,
)

verify_loop-AllSpendable :
    (ts : List Transaction) (us : UtxoList) (ws : List ℕ) (n : ℕ) (s : List Input)
    (r : ℕ × List Input)
    → verify_loop ts us ws n s ≡ some r
    → AllSpendable us ws ts
unfolding verify_loop
verify_loop-AllSpendable [] us ws n s r e = tt
verify_loop-AllSpendable (t ∷ ts) us ws n s r e = ground (
  arith,
  verify_loop-AllSpendable ts us ws (int_add n (length t.inputs)) (insert_range t.inputs s) r,
)

-- With fewer than 2^31 inputs, a block is valid exactly when each transaction is spendable from the
-- given coins and no input occurs twice, in one transaction or in two.
pub verify_block_iff :
    (b : Block) (us : UtxoList) (ws : List ℕ)
    → length (all_inputs b.txs) < 2 ^ 31
    → (verify_block b us ws ≡ true) ↔ (AllSpendable us ws b.txs × Distinct (all_inputs b.txs))
unfolding verify_block
verify_block_iff b us ws p = (to, from)
  where
    n : ℕ
    n = length (all_inputs b.txs)

    from : AllSpendable us ws b.txs × Distinct (all_inputs b.txs) → verify_block b us ws ≡ true
    from (h, d) = ground (
      arith,
      verify_loop_spendable b.txs us ws 0 [] (omega arith) h,
      length-insert_range-Distinct (all_inputs b.txs),
      int_to_u64_small n p,
    )

    to : verify_block b us ws ≡ true → AllSpendable us ws b.txs × Distinct (all_inputs b.txs)
    to e = elim (Option-cases (verify_loop b.txs us ws 0 [])) [
      | inl failed ↦ absurd (ground arith)
      | inr (r, found) ↦
          let h = verify_loop-AllSpendable b.txs us ws 0 [] r found in
          (
            h,
            ground (
              arith,
              verify_loop_spendable b.txs us ws 0 [] (omega arith) h,
              length-insert_range-Distinct (all_inputs b.txs),
              int_to_u64_small n p,
            ),
          )
    ]

-- No element of the first list is in the second.
abbrev pub Disjoint : List Input → List Input → Type 0
Disjoint [] ys = Unit
Disjoint (x ∷ xs) ys = (contains ys x ≡ false) × Disjoint xs ys

Disjoint-append :
    (xs ys zs : List Input) → Disjoint (xs ++ ys) zs ↔ (Disjoint xs zs × Disjoint ys zs)
Disjoint-append [] ys zs = ground arith
Disjoint-append (x ∷ xs) ys zs = ground (arith, Disjoint-append xs ys zs)

some_input_in_iff : (is news : List Input) → (some_input_in is news ≡ false) ↔ Disjoint is news
unfolding some_input_in
some_input_in_iff [] news = ground arith
some_input_in_iff (i ∷ is) news = ground (arith, some_input_in_iff is news)

consistent_with_iff :
    (ts : List Transaction) (news : List Input)
    → (consistent_with ts news ≡ true) ↔ Disjoint (all_inputs ts) news
unfolding consistent_with all_inputs
consistent_with_iff [] news = ground arith
consistent_with_iff (t ∷ ts) news = ground (
  arith,
  some_input_in_iff t.inputs news,
  consistent_with_iff ts news,
  Disjoint-append t.inputs (all_inputs ts) news,
)

-- `verifyTxConsist` accepts exactly a transaction that shares no input with the block.
verify_tx_consist_iff :
    (b : Block) (t : Transaction)
    → (verify_tx_consist b t ≡ true) ↔ Disjoint (all_inputs b.txs) t.inputs
unfolding verify_tx_consist
verify_tx_consist_iff b t = consistent_with_iff b.txs t.inputs

Distinct-append :
    (xs ys : List Input) → Distinct xs → Distinct ys → Disjoint xs ys → Distinct (xs ++ ys)
Distinct-append [] ys dx dy h = dy
Distinct-append (x ∷ xs) ys dx dy h =
    ground (arith, contains-append xs ys x, Distinct-append xs ys dx.1 dy h.1)

pub all_inputs-append :
    (ts us : List Transaction) → all_inputs (ts ++ us) ≡ all_inputs ts ++ all_inputs us
unfolding all_inputs
all_inputs-append [] us = refl
all_inputs-append (t ∷ ts) us =
    rw (all_inputs-append ts us) (sym (append_assoc t.inputs (all_inputs ts) (all_inputs us)))

-- Adding a transaction that repeats no input of its own, after the check, keeps all inputs distinct.
pub Distinct-add_consistent :
    (b : Block) (t : Transaction)
    → Distinct (all_inputs b.txs)
    → Distinct t.inputs
    → verify_tx_consist b t ≡ true
    → Distinct (all_inputs (b.txs ++ t ∷ []))
unfolding all_inputs
Distinct-add_consistent b t db dt e =
    rw (all_inputs-append b.txs (t ∷ []), append-nil)
      (Distinct-append (all_inputs b.txs) t.inputs db dt ((verify_tx_consist_iff b t).0 e))
