-- ===== src/Blockchain/CoinOrder.antt =====
-- The comparisons of unspent outputs (include/blockchain/utxo.h) are those of their transactions and
-- indices.
use cosicoin.Base.{true, false, [], ◌∷◌, ◌≡◌, arith, nat_eq, list_eq, ◌<◌, ◌^◌, ◌⊎◌, ◌↔◌}
use cosicoin.Blockchain.Coins.{utxo_lt, utxolist_beq, utxo_gt, utxo_beq, UtxoList, Utxo}
use cosicoin.Base.Word.{int_lt}

-- For two outputs of 32-bit transactions and indices exactly one holds: one comes first, the other
-- does, or both have one transaction and one index.
pub utxo_lt-trichotomy :
    (a b : Utxo)
    → a.output_index < 2 ^ 32
    → b.output_index < 2 ^ 32
    → ((utxo_lt a b ≡ true) × (utxo_gt a b ≡ false))
      ⊎ (((utxo_lt a b ≡ false) × (utxo_gt a b ≡ true))
          ⊎ ((utxo_lt a b ≡ false)
              × (utxo_gt a b ≡ false)
              × (a.transaction_id ≡ b.transaction_id)
              × (a.output_index ≡ b.output_index)))
unfolding utxo_lt utxo_gt int_lt
utxo_lt-trichotomy a b ha hb = ground arith

pub utxolist_beq_iff : (us vs : UtxoList) → (utxolist_beq us vs ≡ true) ↔ (us ≡ vs)
unfolding utxolist_beq utxo_beq
utxolist_beq_iff [] [] = ground arith
utxolist_beq_iff [] (v ∷ vs) = ground arith
utxolist_beq_iff (u ∷ us) [] = ground arith
utxolist_beq_iff (u ∷ us) (v ∷ vs) = ground (arith, utxolist_beq_iff us vs)
