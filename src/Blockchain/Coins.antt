-- ===== src/Blockchain/Coins.antt =====
-- Inputs, outputs and unspent outputs: include/blockchain/{input,output,utxo}.h.
use cosicoin.Base.{
  ℕ, suc, ◌≡◌, Bool, true, false, not, ◌&&◌, ◌||◌, Option, none, some, List, [], ◌∷◌, ◌↔◌, ltb,
  ◌==◌, nat_eq, Eq, if◌then◌else◌, erase_at, arith, ◌++◌,
}
use mathlib.Core.Option
use cosicoin.Base.Word.{int_to_u64, int_lt}

-- `Input`: a `uint32_t` and a `uint64_t`.
pub record Input : Type 0 where
  pub tx_id : ℕ
  pub output_index : ℕ

-- `operator==` of `Input`
abbrev pub input_beq : Input → Input → Bool
input_beq a b = (a.tx_id == b.tx_id) && (a.output_index == b.output_index)

-- `operator!=`
unfoldable pub input_ne : Input → Input → Bool
input_ne a b = not (a.tx_id == b.tx_id) || not (a.output_index == b.output_index)

-- `operator<`
unfoldable pub input_lt : Input → Input → Bool
input_lt a b =
    if ltb a.tx_id b.tx_id
    then true
    else if a.tx_id == b.tx_id
    then ltb a.output_index b.output_index
    else false

-- `operator>`
unfoldable pub input_gt : Input → Input → Bool
input_gt a b =
    if ltb b.tx_id a.tx_id
    then true
    else if a.tx_id == b.tx_id
    then ltb b.output_index a.output_index
    else false

pub input_beq_iff : (a b : Input) → (input_beq a b ≡ true) ↔ (a ≡ b)
input_beq_iff a b = ground arith

instance abbrev pub input_eq : Eq Input
input_eq = record { beq = input_beq; beq_iff = input_beq_iff }

-- `Output`: a `uint64_t` and a `uint32_t`.
pub record Output : Type 0 where
  pub value : ℕ
  pub receiver_id : ℕ

-- `operator==` of `Output`
abbrev pub output_beq : Output → Output → Bool
output_beq a b = (a.value == b.value) && (a.receiver_id == b.receiver_id)

-- `operator!=`, with the conjunction that stands in the source.
unfoldable pub output_ne : Output → Output → Bool
output_ne a b = not (a.value == b.value) && not (a.receiver_id == b.receiver_id)

-- `operator<`
unfoldable pub output_lt : Output → Output → Bool
output_lt a b = if a.value == b.value then ltb a.receiver_id b.receiver_id else ltb a.value b.value

-- `operator>`
unfoldable pub output_gt : Output → Output → Bool
output_gt a b = if a.value == b.value then ltb b.receiver_id a.receiver_id else ltb b.value a.value

pub output_beq_iff : (a b : Output) → (output_beq a b ≡ true) ↔ (a ≡ b)
output_beq_iff a b = ground arith

instance abbrev pub output_eq : Eq Output
output_eq = record { beq = output_beq; beq_iff = output_beq_iff }

-- `UTXO`: the index is an `int`, kept as its 32 bits.
pub record Utxo : Type 0 where
  pub transaction_id : ℕ
  pub output_index : ℕ
  pub output : Output

-- `operator==` of `UTXO`
unfoldable pub utxo_beq : Utxo → Utxo → Bool
utxo_beq a b =
    (a.transaction_id == b.transaction_id)
    && ((a.output_index == b.output_index) && output_beq a.output b.output)

-- `operator>` of `UTXO`: the indices are compared as signed numbers.
unfoldable pub utxo_gt : Utxo → Utxo → Bool
utxo_gt a b =
    if a.transaction_id == b.transaction_id
    then int_lt b.output_index a.output_index
    else ltb b.transaction_id a.transaction_id

-- `operator<` of `UTXO`
unfoldable pub utxo_lt : Utxo → Utxo → Bool
utxo_lt a b =
    if a.transaction_id == b.transaction_id
    then int_lt a.output_index b.output_index
    else ltb a.transaction_id b.transaction_id

-- `UTXOlist` wraps a vector.
abbrev pub UtxoList : Type 0
UtxoList = List Utxo

-- The test that `UTXOlist::index` and `checkSpendingConditions` make of one entry.
unfoldable pub refers_to : Input → Utxo → Bool
refers_to i u = (i.tx_id == u.transaction_id) && (i.output_index == int_to_u64 u.output_index)

-- `UTXOlist::index`; `none` stands for -1.
unfoldable pub index : UtxoList → Input → Option ℕ
index [] i = none
index (u ∷ us) i = if refers_to i u then some 0 else Option.map suc (index us i)

-- `UTXOlist::erase`
unfoldable pub erase : UtxoList → ℕ → UtxoList
erase us n = erase_at us n

-- `UTXOlist::add`
unfoldable pub add_utxo : UtxoList → Utxo → UtxoList
add_utxo us u = us ++ u ∷ []

-- `UTXOlist::clear`
unfoldable pub clear_list : UtxoList → UtxoList
clear_list us = []

-- `UTXOlist::empty`
unfoldable pub is_empty_list : UtxoList → Bool
is_empty_list [] = true
is_empty_list (u ∷ us) = false

-- `operator==` of `UTXOlist`
unfoldable pub utxolist_beq : UtxoList → UtxoList → Bool
utxolist_beq [] [] = true
utxolist_beq [] (v ∷ vs) = false
utxolist_beq (u ∷ us) [] = false
utxolist_beq (u ∷ us) (v ∷ vs) = utxo_beq u v && utxolist_beq us vs
