-- ===== src/Blockchain/Transaction.antt =====
-- `Transaction`: include/blockchain/transaction.h and lib/blockchain/transaction.cc. Printing to
-- the console is left out.
use cosicoin.Base.{
  ℕ, Bool, true, false, not, ◌&&◌, ◌||◌, Option, none, some, List, [], ◌∷◌, ◌++◌, ◌==◌, nat_eq,
  list_eq, eqb, length, contains, if◌then◌else◌,
}
use cosicoin.Base.Text.{Bytes, to_string}
use cosicoin.Base.Word.{int_add}
use cosicoin.Host.{Host}
use cosicoin.Signature.Keys.{SigKey, key_ne}
use cosicoin.Blockchain.Coins.{Input, Output, Utxo, UtxoList, refers_to, input_ne, output_ne}

pub record Transaction : Type 0 where
  pub inputs : List Input
  pub outputs : List Output
  pub sender_sig : List Bytes
  pub sender_id : ℕ
  pub tx_id : ℕ
  pub public_key : SigKey

-- `addInput`
unfoldable pub add_input : Transaction → Input → Transaction
add_input t i = record t { inputs = t.inputs ++ i ∷ [] }

-- `addOutput`
unfoldable pub add_output : Transaction → Output → Transaction
add_output t o = record t { outputs = t.outputs ++ o ∷ [] }

-- `setSenderSig`, `settxID`, `setSenderID` and `setPublicKey`.
unfoldable pub set_sender_sig : Transaction → List Bytes → Transaction
set_sender_sig t sig = record t { sender_sig = sig }

unfoldable pub set_tx_id : Transaction → ℕ → Transaction
set_tx_id t id = record t { tx_id = id }

unfoldable pub set_sender_id : Transaction → ℕ → Transaction
set_sender_id t id = record t { sender_id = id }

unfoldable pub set_public_key : Transaction → SigKey → Transaction
set_public_key t key = record t { public_key = key }

-- `totalOutputValue += output.getValue()` over the outputs.
unfoldable pub total_output : ℕ → List Output → ℕ
total_output acc [] = acc
total_output acc (o ∷ os) = total_output (int_add acc o.value) os

-- The inner loop: the first entry that the input refers to.
unfoldable pub find_utxo : UtxoList → Input → Option Utxo
find_utxo [] i = none
find_utxo (u ∷ us) i = if refers_to i u then some u else find_utxo us i

-- The loop over the inputs; `none` is the early `return false`.
unfoldable pub total_input : ℕ → List Input → UtxoList → Option ℕ
total_input acc [] us = some acc
total_input acc (i ∷ is) us = elim (find_utxo us i) [
  | none ↦ none
  | some u ↦ total_input (int_add acc u.output.value) is us
]

-- The last loop: every receiver is a known wallet.
unfoldable pub known_receivers : List ℕ → List Output → Bool
known_receivers ws [] = true
known_receivers ws (o ∷ os) = contains ws o.receiver_id && known_receivers ws os

-- What follows the loop over the inputs.
unfoldable pub check_totals : List ℕ → List Output → Option ℕ → Bool
check_totals ws os none = false
check_totals ws os (some total) =
    if total == total_output 0 os then known_receivers ws os else false

unfoldable pub check_spending_conditions : Transaction → UtxoList → List ℕ → Bool
unfolding check_totals
check_spending_conditions t us ws =
    if eqb (length t.inputs) 0
    then eqb (length t.outputs) 0
    else check_totals ws t.outputs (total_input 0 t.inputs us)

unfoldable pub inputs_text : List Input → Bytes
inputs_text [] = []
inputs_text (i ∷ is) = to_string i.tx_id ++ (to_string i.output_index ++ inputs_text is)

unfoldable pub outputs_text : List Output → Bytes
outputs_text [] = []
outputs_text (o ∷ os) = to_string o.value ++ (to_string o.receiver_id ++ outputs_text os)

-- `getStringDigest`
unfoldable pub string_digest : Transaction → Bytes
string_digest t = to_string t.tx_id ++ (inputs_text t.inputs ++ outputs_text t.outputs)

-- `getDigest`
unfoldable pub get_digest : Host → Transaction → Bytes
get_digest h t = h.hash (string_digest t)

-- The loops of `operator==`, over lists of one length: is some pair unequal by `!=`?
unfoldable pub some_input_ne : List Input → List Input → Bool
some_input_ne [] ys = false
some_input_ne (a ∷ xs) [] = false
some_input_ne (a ∷ xs) (b ∷ ys) = input_ne a b || some_input_ne xs ys

unfoldable pub some_output_ne : List Output → List Output → Bool
some_output_ne [] ys = false
some_output_ne (a ∷ xs) [] = false
some_output_ne (a ∷ xs) (b ∷ ys) = output_ne a b || some_output_ne xs ys

-- `operator==` of `Transaction`
unfoldable pub transaction_beq : Transaction → Transaction → Bool
transaction_beq a b =
    if not (length a.inputs == length b.inputs)
    then false
    else if some_input_ne a.inputs b.inputs
    then false
    else if not (length a.outputs == length b.outputs)
    then false
    else if some_output_ne a.outputs b.outputs
    then false
    else if not (a.sender_sig == b.sender_sig)
    then false
    else if not (a.sender_id == b.sender_id)
    then false
    else if not (a.tx_id == b.tx_id)
    then false
    else if key_ne a.public_key b.public_key
    then false
    else true
