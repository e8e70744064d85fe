-- ===== src/Blockchain/Equality.antt =====
-- What `operator==` of `Transaction` compares (lib/blockchain/transaction.cc).
use cosicoin.Base.{
  ◌≡◌, ◌↔◌, ◌⊎◌, true, false, List, [], ◌∷◌, length, arith, list_beq_iff, nat_eq, list_eq,
}
use cosicoin.Signature.Keys.{SigKey, key_ne}
use cosicoin.Blockchain.Coins.{Input, Output, input_ne, output_ne}
use cosicoin.Blockchain.Transaction.{Transaction, some_input_ne, some_output_ne, transaction_beq}

-- Outputs are taken to agree when they agree in the value or in the receiver.
abbrev pub Agree : List Output → List Output → Type 0
Agree [] [] = Unit
Agree [] (y ∷ ys) = ⊥
Agree (x ∷ xs) [] = ⊥
Agree (x ∷ xs) (y ∷ ys) = ((x.value ≡ y.value) ⊎ (x.receiver_id ≡ y.receiver_id)) × Agree xs ys

inputs_iff :
    (xs ys : List Input) → ((length xs ≡ length ys) × (some_input_ne xs ys ≡ false)) ↔ (xs ≡ ys)
unfolding some_input_ne input_ne
inputs_iff [] [] = ground arith
inputs_iff [] (y ∷ ys) = ground arith
inputs_iff (x ∷ xs) [] = ground arith
inputs_iff (x ∷ xs) (y ∷ ys) = ground (arith, inputs_iff xs ys)

outputs_iff :
    (xs ys : List Output) → ((length xs ≡ length ys) × (some_output_ne xs ys ≡ false)) ↔ Agree xs ys
unfolding some_output_ne output_ne
outputs_iff [] [] = ground arith
outputs_iff [] (y ∷ ys) = ground arith
outputs_iff (x ∷ xs) [] = ground arith
outputs_iff (x ∷ xs) (y ∷ ys) = ground (arith, outputs_iff xs ys)

key_ne_iff : (a b : SigKey) → (key_ne a b ≡ false) ↔ (a ≡ b)
unfolding key_ne
key_ne_iff a b = ground (arith, list_beq_iff a.s0 b.s0, list_beq_iff a.s1 b.s1)

-- Two transactions are equal for `operator==` exactly when all fields but the outputs are, and the
-- outputs agree pairwise in the value or in the receiver.
pub transaction_beq_iff :
    (a b : Transaction)
    → (transaction_beq a b ≡ true) ↔ (
        (a.inputs ≡ b.inputs)
        × Agree a.outputs b.outputs
        × (a.sender_sig ≡ b.sender_sig)
        × (a.sender_id ≡ b.sender_id)
        × (a.tx_id ≡ b.tx_id)
        × (a.public_key ≡ b.public_key))
unfolding transaction_beq
transaction_beq_iff a b = ground (
  arith,
  inputs_iff a.inputs b.inputs,
  outputs_iff a.outputs b.outputs,
  list_beq_iff a.sender_sig b.sender_sig,
  key_ne_iff a.public_key b.public_key,
)
