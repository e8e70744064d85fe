-- ===== src/Validator/Acceptance.antt =====
-- The nodes accept the blocks that the leader makes: `InitializeCoins` and `CreateBlk` of
-- lib/cryptowallet/validator.cc against `Block::verify`.
use cosicoin.Base.{
  ℕ, ◌+◌, ◌%◌, ◌^◌, ◌<◌, ◌≤◌, ◌≡◌, refl, sym, ◌∙◌, inl, inr, true, some, List, [], ◌∷◌, ◌++◌, arith,
  Bool-cases, Option-cases, nat_eq, All, length, if◌then◌else◌, ◌==◌, ◌≢◌, Distinct, reverse,
  length-append,
}
use mathlib.Core.Path.{subst, ap}
use mathlib.Core.List.{append-nil, append_assoc}
use cosicoin.Base.Dict.{Dict, at_or, insert, lookup-insert, lookup}
use cosicoin.Blockchain.Coins.{input_eq, Input, Utxo, UtxoList, refers_to}
use cosicoin.Blockchain.Transaction.{Transaction, find_utxo, total_input, check_spending_conditions}
use cosicoin.Blockchain.Verify.{AllSpendable, all_inputs, all_inputs-append, verify_block_iff}
use cosicoin.Base.Sublist.{Sublist, stop, keep, omit}
use cosicoin.Base.Word.{int_add}
use cosicoin.Validator.State.{initial_coin, initial_coins, initialize_coins, Validator, coins_of}
use cosicoin.Validator.Creation.{OwnSpendable, create_blk-Created}
use cosicoin.Bracha.Node.{set_utxolists}
use cosicoin.Host.{Host}
use cosicoin.Blockchain.Block.{Block, verify_block}
use cosicoin.Validator.Pool.{create_blk}
use cosicoin.Base.Result.{ok}

-- What an input names among a wallet's coins, it names in the list too.
abbrev pub Covers : (ℕ → UtxoList) → UtxoList → Type 0
Covers coins us =
    (w : ℕ) (i : Input) (u : Utxo) → find_utxo (coins w) i ≡ some u → find_utxo us i ≡ some u

total_input-Covers :
    (own us : UtxoList) (is : List Input) (acc n : ℕ)
    → ((i : Input) (u : Utxo) → find_utxo own i ≡ some u → find_utxo us i ≡ some u)
    → total_input acc is own ≡ some n
    → total_input acc is us ≡ some n
unfolding total_input
total_input-Covers own us [] acc n g e = e
total_input-Covers own us (i ∷ is) acc n g e = elim (Option-cases (find_utxo own i)) [
  | inl missing ↦ absurd (ground arith)
  | inr (u, found) ↦
      ground (arith, g i u found, total_input-Covers own us is (int_add acc u.output.value) n g)
]

check-Covers :
    (t : Transaction) (own us : UtxoList) (ws : List ℕ)
    → ((i : Input) (u : Utxo) → find_utxo own i ≡ some u → find_utxo us i ≡ some u)
    → check_spending_conditions t own ws ≡ true
    → check_spending_conditions t us ws ≡ true
unfolding check_spending_conditions
check-Covers t own us ws g e = elim (Option-cases (total_input 0 t.inputs own)) [
  | inl missing ↦ ground arith
  | inr (n, found) ↦ ground (arith, total_input-Covers own us t.inputs 0 n g found)
]

pub AllSpendable-Covers :
    (coins : ℕ → UtxoList) (us : UtxoList) (ws : List ℕ) (ts : List Transaction)
    → Covers coins us
    → All (OwnSpendable coins ws) ts
    → AllSpendable us ws ts
AllSpendable-Covers coins us ws [] g a = tt
AllSpendable-Covers coins us ws (t ∷ ts) g a = (
  check-Covers t (coins t.sender_id) us ws (g t.sender_id) a.0,
  AllSpendable-Covers coins us ws ts g a.1,
)

-- The coins of the loop in `InitializeCoins`, all of them and those of one wallet.
abbrev minted : ℕ → ℕ → List ℕ → UtxoList
minted coins n [] = []
minted coins n (id ∷ ids) = initial_coin coins n id ∷ minted coins (n + 1) ids

abbrev minted_for : ℕ → ℕ → ℕ → List ℕ → UtxoList
minted_for w coins n [] = []
minted_for w coins n (id ∷ ids) =
    let rest = minted_for w coins (n + 1) ids in
    if id == w then initial_coin coins n id ∷ rest else rest

at_or-insert :
    (id w : ℕ) (us : UtxoList) (m : Dict ℕ UtxoList)
    → at_or [] w (insert id us m) ≡ (if id == w then us else at_or [] w m)
at_or-insert id w us m = ground (arith, lookup-insert m id w us)

minted_step :
    (coins n w id : ℕ) (ids : List ℕ) (m : Dict ℕ UtxoList)
    → at_or [] w (insert id (at_or [] id m ++ initial_coin coins n id ∷ []) m)
        ++ minted_for w coins (n + 1) ids
      ≡ at_or [] w m ++ minted_for w coins n (id ∷ ids)
minted_step coins n w id ids m = elim (Bool-cases (id == w)) [
  | inl mine ↦ ground (
    arith,
    at_or-insert id w (at_or [] id m ++ initial_coin coins n id ∷ []) m,
    append_assoc (at_or [] w m) (initial_coin coins n id ∷ []) (minted_for w coins (n + 1) ids),
  )
  | inr other ↦ ground (arith, at_or-insert id w (at_or [] id m ++ initial_coin coins n id ∷ []) m)
]

initial_coins-minted :
    (coins k n w : ℕ) (ids : List ℕ) (m : Dict ℕ UtxoList)
    → k ≡ n
    → n + length ids < 2 ^ 32
    → ((initial_coins coins k ids m).1 ≡ minted coins n ids)
      × (at_or [] w (initial_coins coins k ids m).0 ≡ at_or [] w m ++ minted_for w coins n ids)
unfolding initial_coins
initial_coins-minted coins k n w [] m q p = (refl, sym (append-nil (at_or [] w m)))
initial_coins-minted coins k n w (id ∷ ids) m q p =
    let m1 = insert id (at_or [] id m ++ initial_coin coins k id ∷ []) m in
    let (a, b) =
      initial_coins-minted coins ((k + 1) % 2 ^ 32) (n + 1) w ids m1 (omega (arith, q, p))
        (omega (arith, p)) in
    (
      cc (a, q),
      b
          ∙ subst
              (λ j.
                at_or [] w (insert id (at_or [] id m ++ initial_coin coins j id ∷ []) m)
                  ++ minted_for w coins (n + 1) ids
                ≡ at_or [] w m ++ minted_for w coins n (id ∷ ids))
              (sym q) (minted_step coins n w id ids m),
    )

minted_for_number :
    (w coins n : ℕ) (ids : List ℕ) (i : Input) (u : Utxo)
    → find_utxo (minted_for w coins n ids) i ≡ some u
    → n ≤ i.tx_id
unfolding find_utxo refers_to initial_coin
minted_for_number w coins n [] i u e = absurd (ground arith)
minted_for_number w coins n (id ∷ ids) i u e =
    ground (arith, minted_for_number w coins (n + 1) ids i u)

minted-Covers :
    (coins n : ℕ) (ids : List ℕ) → Covers (λ w. minted_for w coins n ids) (minted coins n ids)
unfolding find_utxo refers_to initial_coin
minted-Covers coins n [] w i u e = absurd (ground arith)
minted-Covers coins n (id ∷ ids) w i u e =
    ground (arith, minted_for_number w coins (n + 1) ids i u, minted-Covers coins (n + 1) ids w i u)

initialize_coins-Covers :
    (coins : ℕ) (v : Validator)
    → v.utxo_sets ≡ []
    → length v.wallets_ids < 2 ^ 32
    → Covers (λ w. coins_of w (initialize_coins coins v)) (initialize_coins coins v).node.utxolist
unfolding initialize_coins lookup set_utxolists
initialize_coins-Covers coins v z p w i u e =
    let (a, b) =
      initial_coins-minted coins 0 0 w v.wallets_ids v.utxo_sets refl (omega (arith, p)) in
    let own : at_or [] w (initial_coins coins 0 v.wallets_ids v.utxo_sets).0
        ≡ minted_for w coins 0 v.wallets_ids =
      b ∙ ap (λ m. at_or [] w m ++ minted_for w coins 0 v.wallets_ids) z in
    subst (λ us. find_utxo us i ≡ some u) (sym a)
      (minted-Covers coins 0 v.wallets_ids w i u (ap (λ us. find_utxo us i) (sym own) ∙ e))

length-all_inputs-Sublist :
    {xs ys : List Transaction} → Sublist xs ys → length (all_inputs xs) ≤ length (all_inputs ys)
unfolding all_inputs
length-all_inputs-Sublist stop = omega arith
length-all_inputs-Sublist (keep {x = t} {xs = xs} {ys = ys} p) = omega (
  arith,
  length-all_inputs-Sublist p,
  length-append t.inputs (all_inputs xs),
  length-append t.inputs (all_inputs ys),
)
length-all_inputs-Sublist (omit {x = t} {xs = xs} {ys = ys} p) =
    omega (arith, length-all_inputs-Sublist p, length-append t.inputs (all_inputs ys))

length-all_inputs-reverse :
    (ts : List Transaction) → length (all_inputs (reverse ts)) ≡ length (all_inputs ts)
unfolding all_inputs
length-all_inputs-reverse [] = refl
length-all_inputs-reverse (t ∷ ts) = omega (
  arith,
  length-all_inputs-reverse ts,
  ap length (all_inputs-append (reverse ts) (t ∷ [])),
  length-append (all_inputs (reverse ts)) (t.inputs ++ []),
  length-append t.inputs (all_inputs ts),
  length-append t.inputs [],
)

module _ (h : Host) where
  -- Coins are given out to wallets that had none, and with these coins the leader makes a block of its
  -- pool, whose transactions repeat no input of their own and have fewer than 2^31 inputs. The block
  -- passes `Block::verify` at every node that was told the initial coins: what `CreateBlk` checks
  -- wallet by wallet is enough for the nodes, which check against all the coins together.
  pub create_blk_verifies :
      (coins : ℕ) (v0 v : Validator) (b : Block)
      → v0.utxo_sets ≡ []
      → length v0.wallets_ids < 2 ^ 32
      → v.utxo_sets ≡ (initialize_coins coins v0).utxo_sets
      → v.wallets_ids ≡ v0.wallets_ids
      → v.node.is_lead ≡ true
      → v.memory_pool ≢ []
      → b.is_mutable ≡ true
      → b.txs ≡ []
      → All (λ t. Distinct t.inputs) v.memory_pool
      → length (all_inputs v.memory_pool) < 2 ^ 31
      → (c : Block) × (v' : Validator) × (create_blk h b v ≡ ok (true, c, v'))
        × (verify_block c (initialize_coins coins v0).node.utxolist v0.wallets_ids ≡ true)
  create_blk_verifies coins v0 v b z p s w l n m x a q =
      let (c, v', e, r) = create_blk-Created h b v l n m x a in
      let us = (initialize_coins coins v0).node.utxolist in
      let covers : Covers (λ w. coins_of w v) us =
        subst (λ sets. Covers (λ w. at_or [] w sets) us) (sym s)
          (initialize_coins-Covers coins v0 z p) in
      let spendable : AllSpendable us v0.wallets_ids c.txs =
        subst (λ ws. AllSpendable us ws c.txs) w
          (AllSpendable-Covers (λ w. coins_of w v) us v.wallets_ids c.txs covers r.spendable) in
      let few : length (all_inputs c.txs) < 2 ^ 31 = omega (
        arith,
        q,
        length-all_inputs-Sublist r.from_pool,
        length-all_inputs-reverse v.memory_pool,
      ) in
      (c, v', e, (verify_block_iff c us v0.wallets_ids few).1 (spendable, r.distinct))
