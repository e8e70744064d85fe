-- ===== src/Validator/Creation.antt =====
-- The block that the leader makes of its pool (`CreateBlk` of lib/cryptowallet/validator.cc).
use cosicoin.Base.{
  ℕ, ◌≡◌, refl, ◌≢◌, ◌∙◌, inl, inr, true, false, List, [], ◌∷◌, ◌++◌, arith, Bool-cases, nat_eq,
  All, All-reverse, Distinct, reverse, reverse-eq-nil, sym,
}
use mathlib.Core.Path.{subst, ap}
use mathlib.Core.List.{append-nil, append_assoc}
use cosicoin.Base.Sublist.{Sublist, stop, keep, omit}
use cosicoin.Base.Result.{ok}
use cosicoin.Host.{Host}
use cosicoin.Blockchain.Coins.{UtxoList, input_eq}
use cosicoin.Blockchain.Transaction.{Transaction, check_spending_conditions}
use cosicoin.Blockchain.Header.{calculate_merkle_root}
use cosicoin.Blockchain.Block.{Block, add_transaction, verify_tx_consist, finalize}
use cosicoin.Blockchain.Verify.{all_inputs, Distinct-add_consistent}
use cosicoin.Validator.State.{Validator, coins_of}
use cosicoin.Validator.Pool.{is_includable, create_loop, create_from, create_blk, touch_coins}
use cosicoin.Validator.Admission.{at_or-touch}

-- Spendable by its own sender.
abbrev pub OwnSpendable : (ℕ → UtxoList) → List ℕ → Transaction → Type 0
OwnSpendable coins ws t = check_spending_conditions t (coins t.sender_id) ws ≡ true

-- What the loop of `CreateBlk` made of the transactions `ts`, from the block `b`.
pub record Filled (coins : ℕ → UtxoList) (ts : List Transaction) (b : Block) (v : Validator)
    (c : Block) (v' : Validator) : Type 0 where
  pub chosen : List Transaction
  pub from_pool : Sublist chosen ts
  pub appended : c.txs ≡ b.txs ++ chosen
  pub spendable : All (OwnSpendable coins v.wallets_ids) chosen
  pub distinct : Distinct (all_inputs c.txs)
  pub open_still : c.is_mutable ≡ true
  pub same_header : c.header ≡ b.header
  pub same_pool : v'.memory_pool ≡ v.memory_pool
  pub same_node : v'.node ≡ v.node
  pub same_coins : (w : ℕ) → coins_of w v' ≡ coins w

-- The block with one more transaction.
abbrev grown : Transaction → Block → Block
grown t b = record b { txs = b.txs ++ t ∷ [] }

create_loop_include :
    (t : Transaction) (ts : List Transaction) (b : Block) (v : Validator)
    → is_includable t b v ≡ true
    → b.is_mutable ≡ true
    → create_loop (t ∷ ts) b v ≡ create_loop ts (grown t b) (touch_coins t.sender_id v)
unfolding create_loop add_transaction
create_loop_include t ts b v e m = ground arith

create_loop_skip :
    (t : Transaction) (ts : List Transaction) (b : Block) (v : Validator)
    → is_includable t b v ≡ false
    → create_loop (t ∷ ts) b v ≡ create_loop ts b (touch_coins t.sender_id v)
unfolding create_loop
create_loop_skip t ts b v e = ground arith

touch_coins-coins :
    (coins : ℕ → UtxoList) (id : ℕ) (v : Validator)
    → ((w : ℕ) → coins_of w v ≡ coins w)
    → (w : ℕ) → coins_of w (touch_coins id v) ≡ coins w
unfolding touch_coins
touch_coins-coins coins id v g w = at_or-touch id w v.utxo_sets ∙ g w

is_includable_inv :
    (coins : ℕ → UtxoList) (t : Transaction) (b : Block) (v : Validator)
    → ((w : ℕ) → coins_of w v ≡ coins w)
    → is_includable t b v ≡ true
    → OwnSpendable coins v.wallets_ids t × (verify_tx_consist b t ≡ true)
unfolding is_includable
is_includable_inv coins t b v g e = ground (arith, g t.sender_id)

Filled-skip :
    (coins : ℕ → UtxoList) (t : Transaction) (ts : List Transaction) (b c : Block)
    (v v' : Validator)
    → Filled coins ts b (touch_coins t.sender_id v) c v'
    → Filled coins (t ∷ ts) b v c v'
unfolding touch_coins
Filled-skip coins t ts b c v v' r = record {
  chosen = r.chosen;
  from_pool = omit r.from_pool;
  appended = r.appended;
  spendable = r.spendable;
  distinct = r.distinct;
  open_still = r.open_still;
  same_header = r.same_header;
  same_pool = r.same_pool;
  same_node = r.same_node;
  same_coins = r.same_coins;
}

Filled-include :
    (coins : ℕ → UtxoList) (t : Transaction) (ts : List Transaction) (b c : Block)
    (v v' : Validator)
    → OwnSpendable coins v.wallets_ids t
    → Filled coins ts (grown t b) (touch_coins t.sender_id v) c v'
    → Filled coins (t ∷ ts) b v c v'
unfolding touch_coins
Filled-include coins t ts b c v v' s r = record {
  chosen = t ∷ r.chosen;
  from_pool = keep r.from_pool;
  appended = r.appended ∙ append_assoc b.txs (t ∷ []) r.chosen;
  spendable = (s, r.spendable);
  distinct = r.distinct;
  open_still = r.open_still;
  same_header = r.same_header;
  same_pool = r.same_pool;
  same_node = r.same_node;
  same_coins = r.same_coins;
}

create_loop-Filled :
    (coins : ℕ → UtxoList) (ts : List Transaction) (b : Block) (v : Validator)
    → ((w : ℕ) → coins_of w v ≡ coins w)
    → b.is_mutable ≡ true
    → Distinct (all_inputs b.txs)
    → All (λ t. Distinct t.inputs) ts
    → (c : Block) × (v' : Validator) × (create_loop ts b v ≡ ok (c, v')) × Filled coins ts b v c v'
unfolding create_loop
create_loop-Filled coins [] b v g m d a = (
  b,
  v,
  refl,
  record {
    chosen = [];
    from_pool = stop;
    appended = sym (append-nil b.txs);
    spendable = tt;
    distinct = d;
    open_still = m;
    same_header = refl;
    same_pool = refl;
    same_node = refl;
    same_coins = g;
  },
)
create_loop-Filled coins (t ∷ ts) b v g m d a =
    let g1 = touch_coins-coins coins t.sender_id v g in
    elim (Bool-cases (is_includable t b v)) [
      | inl taken ↦
          let (s, consistent) = is_includable_inv coins t b v g taken in
          let d1 = Distinct-add_consistent b t d a.0 consistent in
          let (c, v', e, r) =
            create_loop-Filled coins ts (grown t b) (touch_coins t.sender_id v) g1 m d1 a.1 in
          (c, v', create_loop_include t ts b v taken m ∙ e, Filled-include coins t ts b c v v' s r)
      | inr skipped ↦
          let (c, v', e, r) =
            create_loop-Filled coins ts b (touch_coins t.sender_id v) g1 m d a.1 in
          (c, v', create_loop_skip t ts b v skipped ∙ e, Filled-skip coins t ts b c v v' r)
    ]

module _ (h : Host) where
  -- The block that `CreateBlk` gives back, and the validator after it.
  pub record Created (b : Block) (v : Validator) (c : Block) (v' : Validator) : Type 0 where
    pub from_pool : Sublist c.txs (reverse v.memory_pool)
    pub spendable : All (OwnSpendable (λ w. coins_of w v) v.wallets_ids) c.txs
    pub distinct : Distinct (all_inputs c.txs)
    pub closed : c.is_mutable ≡ false
    pub rooted : c.header ≡ calculate_merkle_root h b.header c.txs
    pub pool_empty : v'.memory_pool ≡ []
    pub same_node : v'.node ≡ v.node
    pub same_coins : (w : ℕ) → coins_of w v' ≡ coins_of w v

  -- The pool is emptied before the loop's first transaction is checked; nothing reads it there.
  abbrev drained : Validator → Validator
  drained v = record v { memory_pool = [] }

  abbrev sealed : Block → Block
  sealed c = record c { is_mutable = false; header = calculate_merkle_root h c.header c.txs }

  create_from_run :
      (t : Transaction) (ts : List Transaction) (b c : Block) (v v' : Validator)
      → create_loop (t ∷ ts) b (drained v) ≡ ok (c, v')
      → c.is_mutable ≡ true
      → create_from h (t ∷ ts) b v ≡ ok (true, sealed c, v')
  unfolding create_from finalize
  create_from_run t ts b c v v' e m = ground (arith, e)

  create_from-Created :
      (pool : List Transaction) (b : Block) (v : Validator)
      → pool ≢ []
      → b.is_mutable ≡ true
      → b.txs ≡ []
      → All (λ t. Distinct t.inputs) pool
      → pool ≡ reverse v.memory_pool
      → (c : Block) × (v' : Validator) × (create_from h pool b v ≡ ok (true, c, v'))
        × Created b v c v'
  unfolding all_inputs
  create_from-Created [] b v n m x a p = absurd (n refl)
  create_from-Created (t ∷ ts) b v n m x a p =
      let (c, v', e, r) =
        create_loop-Filled (λ w. coins_of w v) (t ∷ ts) b (drained v) (λ w. refl) m
          (subst (λ l. Distinct (all_inputs l)) (sym x) tt) a in
      let all_chosen : c.txs ≡ r.chosen = r.appended ∙ ap (λ l. l ++ r.chosen) x in
      (
        sealed c,
        v',
        create_from_run t ts b c v v' e r.open_still,
        record {
          from_pool =
              subst (λ l. Sublist l (reverse v.memory_pool)) (sym all_chosen)
                (subst (λ l. Sublist r.chosen l) p r.from_pool);
          spendable =
              subst (All (OwnSpendable (λ w. coins_of w v) v.wallets_ids)) (sym all_chosen)
                r.spendable;
          distinct = r.distinct;
          closed = refl;
          rooted = ground (arith, r.same_header);
          pool_empty = r.same_pool;
          same_node = r.same_node;
          same_coins = r.same_coins;
        },
      )

  -- `CreateBlk` of the leader, on an open block without transactions and a pool that is not empty and
  -- whose transactions repeat no input of their own: it throws nothing and returns 1. The block holds
  -- transactions of the pool, the newest first, each spendable from its sender's coins; no input occurs
  -- twice in it; it is closed with their Merkle root. The pool is empty then, the coins are as before.
  pub create_blk-Created :
      (b : Block) (v : Validator)
      → v.node.is_lead ≡ true
      → v.memory_pool ≢ []
      → b.is_mutable ≡ true
      → b.txs ≡ []
      → All (λ t. Distinct t.inputs) v.memory_pool
      → (c : Block) × (v' : Validator) × (create_blk h b v ≡ ok (true, c, v')) × Created b v c v'
  unfolding create_blk
  create_blk-Created b v l n m x a =
      let (c, v', e, r) =
        create_from-Created (reverse v.memory_pool) b v (λ z. n (reverse-eq-nil v.memory_pool z)) m
          x (All-reverse (λ t. Distinct t.inputs) v.memory_pool a) refl in
      (c, v', ground (arith, e), r)
