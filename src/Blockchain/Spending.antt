-- ===== src/Blockchain/Spending.antt =====
-- When `checkSpendingConditions` accepts a transaction (lib/blockchain/transaction.cc).
use cosicoin.Base.{
  ℕ, ◌+◌, ◌%◌, ◌^◌, ◌<◌, ◌≡◌, refl, ◌≢◌, ◌↔◌, ◌⊎◌, inl, inr, true, some, List, [], ◌∷◌, All,
  contains, arith, nat_eq, Option-cases, Bool-cases, length-eq-zero, ap, length,
}
use cosicoin.Base.Word.{int_to_u64, int_add, int_add_lem}
use cosicoin.Blockchain.Coins.{Input, Output, Utxo, UtxoList, refers_to}
use cosicoin.Blockchain.Transaction.{
  Transaction, total_output, find_utxo, total_input, known_receivers, check_spending_conditions,
}

-- An input names an unspent output by its transaction and, sign-extended, its index.
abbrev pub Refers : Input → Utxo → Type 0
Refers i u = (i.tx_id ≡ u.transaction_id) × (i.output_index ≡ int_to_u64 u.output_index)

-- `u` is the first entry of the list that `i` names.
pub data First (i : Input) (u : Utxo) : UtxoList → Type 0 where
  here : {v : Utxo} {us : UtxoList} → v ≡ u → Refers i v → First i u (v ∷ us)
  there : {v : Utxo} {us : UtxoList} → ¬ Refers i v → First i u us → First i u (v ∷ us)

-- The inputs draw coins of the list, of this total value.
pub data Draws (us : UtxoList) : List Input → ℕ → Type 0 where
  nothing : Draws us [] 0
  draw :
      {i : Input} {is : List Input} {n m : ℕ} (u : Utxo)
      → First i u us
      → Draws us is n
      → m ≡ u.output.value + n
      → Draws us (i ∷ is) m

unfoldable pub sum_values : List Output → ℕ
sum_values [] = 0
sum_values (o ∷ os) = o.value + sum_values os

abbrev pub Known : List ℕ → List Output → Type 0
Known ws = All (λ o. contains ws o.receiver_id ≡ true)

refers_to_iff : (i : Input) (u : Utxo) → (refers_to i u ≡ true) ↔ Refers i u
unfolding refers_to
refers_to_iff i u = ground arith

total_output_lem :
    (acc : ℕ) (os : List Output)
    → acc < 2 ^ 32
    → total_output acc os ≡ (acc + sum_values os) % 2 ^ 32
unfolding total_output sum_values
total_output_lem acc [] h = omega arith
total_output_lem acc (o ∷ os) h = omega (
  arith,
  int_add_lem acc o.value,
  total_output_lem (int_add acc o.value) os (omega (arith, int_add_lem acc o.value)),
)

known_receivers_iff :
    (ws : List ℕ) (os : List Output) → (known_receivers ws os ≡ true) ↔ Known ws os
unfolding known_receivers
known_receivers_iff ws [] = ground arith
known_receivers_iff ws (o ∷ os) = ground (arith, known_receivers_iff ws os)

First-find_utxo : (us : UtxoList) (i : Input) (u : Utxo) → find_utxo us i ≡ some u → First i u us
unfolding find_utxo
First-find_utxo [] i u e = absurd (cc)
First-find_utxo (v ∷ us) i u e = elim (Bool-cases (refers_to i v)) [
  | inl yes_v ↦ here (ground arith) ((refers_to_iff i v).0 yes_v)
  | inr no_v ↦ there (λ r. cc ((refers_to_iff i v).1 r)) (First-find_utxo us i u (ground arith))
]

find_utxo-First : (i : Input) (u : Utxo) (us : UtxoList) → First i u us → find_utxo us i ≡ some u
unfolding find_utxo
find_utxo-First i u us (here {v = v} e r) = ground (arith, refers_to_iff i v)
find_utxo-First i u us (there {v = v} {us = vs} n f) =
    ground (arith, refers_to_iff i v, find_utxo-First i u vs f)

total_input-Draws :
    (us : UtxoList) (is : List Input) (acc t : ℕ)
    → acc < 2 ^ 32
    → total_input acc is us ≡ some t
    → (n : ℕ) × Draws us is n × (t ≡ (acc + n) % 2 ^ 32)
unfolding total_input
total_input-Draws us [] acc t h e = (0, nothing, ground arith)
total_input-Draws us (i ∷ is) acc t h e = elim (Option-cases (find_utxo us i)) [
  | inl missing ↦ absurd (ground arith)
  | inr (u, found) ↦
      let v = u.output.value in
      let (n, d, p) =
        total_input-Draws us is (int_add acc v) t (omega (arith, int_add_lem acc v))
          (ground arith) in
      (v + n, draw u (First-find_utxo us i u found) d refl, omega (arith, int_add_lem acc v))
]

Draws-total_input :
    (us : UtxoList) (is : List Input) (acc n : ℕ)
    → acc < 2 ^ 32
    → Draws us is n
    → total_input acc is us ≡ some ((acc + n) % 2 ^ 32)
unfolding total_input
Draws-total_input us [] acc n h nothing = ground arith
Draws-total_input us (i ∷ is) acc n h (draw {n = m} u f d e) = ground (
  arith,
  find_utxo-First i u us f,
  int_add_lem acc u.output.value,
  Draws-total_input us is (int_add acc u.output.value) m
      (omega (arith, int_add_lem acc u.output.value)) d,
)

-- What `checkSpendingConditions` accepts: nothing to nothing, or coins of the list for outputs of
-- the same total modulo 2^32, all of them to known wallets.
abbrev pub IsSpendable : Transaction → UtxoList → List ℕ → Type 0
IsSpendable t us ws =
    ((t.inputs ≡ []) × (t.outputs ≡ []))
    ⊎ ((t.inputs ≢ [])
        × ((n : ℕ) × Draws us t.inputs n × (n % 2 ^ 32 ≡ sum_values t.outputs % 2 ^ 32))
        × Known ws t.outputs)

check-IsSpendable :
    (t : Transaction) (us : UtxoList) (ws : List ℕ) (is : List Input)
    → t.inputs ≡ is
    → check_spending_conditions t us ws ≡ true
    → IsSpendable t us ws
unfolding check_spending_conditions
check-IsSpendable t us ws [] p e = inl (p, length-eq-zero t.outputs (ground (arith, ap length p)))
check-IsSpendable t us ws (i ∷ is) p e = elim (Option-cases (total_input 0 t.inputs us)) [
  | inl missing ↦ absurd (ground (arith, ap length p))
  | inr (s, found) ↦
      let (n, d, r) = total_input-Draws us t.inputs 0 s (omega arith) found in
      inr (
        λ z. cc (p, z),
        (n, d, ground (arith, ap length p, total_output_lem 0 t.outputs (omega arith))),
        ground (arith, ap length p, known_receivers_iff ws t.outputs),
      )
]

IsSpendable-check :
    (t : Transaction) (us : UtxoList) (ws : List ℕ)
    → IsSpendable t us ws
    → check_spending_conditions t us ws ≡ true
unfolding check_spending_conditions
IsSpendable-check t us ws (inl (p, q)) = ground (arith, ap length p, ap length q)
IsSpendable-check t us ws (inr (p, (n, d, r), k)) = ground (
  arith,
  length-eq-zero t.inputs,
  Draws-total_input us t.inputs 0 n (omega arith) d,
  total_output_lem 0 t.outputs (omega arith),
  known_receivers_iff ws t.outputs,
)

-- `checkSpendingConditions` accepts exactly the transactions that give nothing for nothing, and those
-- whose inputs draw coins of the list for outputs of the same total modulo 2^32, all to known wallets.
pub check_spending_conditions_iff :
    (t : Transaction) (us : UtxoList) (ws : List ℕ)
    → (check_spending_conditions t us ws ≡ true) ↔ IsSpendable t us ws
check_spending_conditions_iff t us ws =
    (check-IsSpendable t us ws t.inputs refl, IsSpendable-check t us ws)

-- Totals below 2^32 are compared exactly: an accepted transaction with inputs then pays out what
-- it draws.
pub check_conserves :
    (t : Transaction) (us : UtxoList) (ws : List ℕ) (n : ℕ)
    → t.inputs ≢ []
    → check_spending_conditions t us ws ≡ true
    → Draws us t.inputs n
    → n < 2 ^ 32
    → sum_values t.outputs < 2 ^ 32
    → n ≡ sum_values t.outputs
unfolding check_spending_conditions
check_conserves t us ws n p e d a b = ground (
  arith,
  length-eq-zero t.inputs,
  Draws-total_input us t.inputs 0 n (omega arith) d,
  total_output_lem 0 t.outputs (omega arith),
)

-- The totals are `int`: an output that is 2^32 larger, of coins that nobody put in, gets the same
-- answer.
check_mints :
    (t : Transaction) (us : UtxoList) (ws : List ℕ) (o : Output) (os : List Output)
    → check_spending_conditions
        (record t { outputs = record o { value = o.value + 2 ^ 32 } ∷ os })
        us
        ws
      ≡ check_spending_conditions (record t { outputs = o ∷ os }) us ws
unfolding check_spending_conditions known_receivers total_output
check_mints t us ws o os = ground (arith, int_add_lem 0 (o.value + 2 ^ 32), int_add_lem 0 o.value)
