-- ===== src/Validator/Spent.antt =====
-- Which coins an agreed block takes away (`OnAgreeBlk` of lib/cryptowallet/validator.cc).
use cosicoin.Base.{
  zero, suc, ℕ, ◌+◌, ◌-◌, ◌<◌, ◌≡◌, refl, ◌∙◌, inl, inr, true, some, none, List, [], ◌∷◌, arith,
  Bool-cases, Option-cases, nat_eq, length, get_elem?, erase_at, ◌++◌, ◌≢◌, length-erase_at,
  get_elem?-erase_at-lt, get_elem?-erase_at-ge, Option, eqb, if◌then◌else◌,
}
use mathlib.Core.Path.{ap, sym}
use cosicoin.Base.Word.{int_add}
use cosicoin.Base.Dict.{insert, lookup-insert}
use cosicoin.Base.Result.{ok}
use cosicoin.Blockchain.Coins.{refers_to, Utxo, Input, UtxoList, index, erase}
use cosicoin.Blockchain.Transaction.{
  Transaction, find_utxo, check_spending_conditions, total_input, check_totals,
}
use cosicoin.Blockchain.Block.{Block}
use cosicoin.Validator.State.{Validator, coins_of}
use cosicoin.Validator.Settle.{spend_loop, settle_tx, settle_all, on_agree_blk}

-- A coin found, between the ones before it and the ones after it.
record Found (us : UtxoList) (i : Input) (k : ℕ) : Type 0 where
  before : UtxoList
  coin : Utxo
  after : UtxoList
  parts : us ≡ before ++ coin ∷ after
  without : erase us k ≡ before ++ after
  first : find_utxo us i ≡ some coin
  in_range : k < length us

index-Found : (us : UtxoList) (i : Input) (k : ℕ) → index us i ≡ some k → Found us i k
unfolding index find_utxo erase
index-Found [] i k e = absurd (ground arith)
index-Found (u ∷ us) i k e = elim (Bool-cases (refers_to i u)) [
  | inl here ↦ record {
    before = [];
    coin = u;
    after = us;
    parts = refl;
    without = ground arith;
    first = ground arith;
    in_range = ground arith;
  }
  | inr there ↦ elim (Option-cases (index us i)) [
    | inl missing ↦ absurd (ground arith)
    | inr (j, found) ↦
        let r = index-Found us i j found in
        record {
          before = u ∷ r.before;
          coin = r.coin;
          after = r.after;
          parts = cc (r.parts);
          without = ground (arith, r.without);
          first = ground (arith, r.first);
          in_range = ground (arith, r.in_range);
        }
  ]
]

find_utxo-index : (us : UtxoList) (i : Input) → index us i ≡ none → find_utxo us i ≡ none
unfolding find_utxo index
find_utxo-index [] i e = refl
find_utxo-index (u ∷ us) i e = elim (Option-cases (index us i)) [
  | inl missing ↦ ground (arith, find_utxo-index us i missing)
  | inr (j, found) ↦ ground arith
]

spend_loop_one :
    (i : Input) (k n : ℕ) (us : UtxoList)
    → index us i ≡ some k
    → k < length us
    → 0 < n
    → spend_loop (i ∷ []) 0 n us us ≡ ok (erase us k)
unfolding spend_loop
spend_loop_one i k n us e p q = ground arith

-- The loop on two coins, the second behind the first. Both places were looked up before the first
-- coin was taken out, so the second erase hits the entry behind the second coin.
spend_loop_two :
    (x y : Input) (a b n : ℕ) (us : UtxoList)
    → index us x ≡ some a
    → index us y ≡ some b
    → a < b
    → b + 1 < length us
    → 1 < n
    → spend_loop (x ∷ y ∷ []) 0 n us us ≡ ok (erase (erase us a) b)
unfolding spend_loop erase
spend_loop_two x y a b n us e d p q r = ground (arith, length-erase_at us a (omega (arith, p, q)))

second_stays :
    (a b : ℕ) (us : UtxoList) → a < b → get_elem? (erase (erase us a) b) (b - 1) ≡ get_elem? us b
unfolding erase
second_stays a b us l =
    get_elem?-erase_at-lt (erase_at us a) b (b - 1) (omega (arith, l))
    ∙ get_elem?-erase_at-ge us a (b - 1) (omega (arith, l))
    ∙ ap (get_elem? us) (omega (arith, l))

-- A coin is found at its place when an entry in front of it, or behind it, is taken out.
index-before :
    (us : UtxoList) (y : Input) (a b : ℕ)
    → index us y ≡ some b
    → a < b
    → index (erase us a) y ≡ some (b - 1)
unfolding index erase
index-before [] y a b e l = absurd (ground arith)
index-before (u ∷ us) y zero b e l = elim (Bool-cases (refers_to y u)) [
  | inl here ↦ absurd (ground (arith, e, here, l))
  | inr there ↦ elim (Option-cases (index us y)) [
    | inl missing ↦ absurd (ground (arith, e, there, missing))
    | inr (k, found) ↦ ground (arith, e, there, found)
  ]
]
index-before (u ∷ us) y (suc a) b e l = elim (Bool-cases (refers_to y u)) [
  | inl here ↦ absurd (ground (arith, e, here, l))
  | inr there ↦ elim (Option-cases (index us y)) [
    | inl missing ↦ absurd (ground (arith, e, there, missing))
    | inr (k, found) ↦
        let same : b ≡ k + 1 = ground (arith, e, there, found) in
        let rest = index-before us y a k found (omega (arith, l, same)) in
        ground (arith, there, rest, same, l)
  ]
]

find_utxo-before :
    (us : UtxoList) (y : Input) (a b : ℕ)
    → index us y ≡ some b
    → a < b
    → find_utxo (erase us a) y ≡ find_utxo us y
unfolding index erase find_utxo
find_utxo-before [] y a b e l = absurd (ground arith)
find_utxo-before (u ∷ us) y zero b e l = ground (arith, e, l)
find_utxo-before (u ∷ us) y (suc a) b e l = elim (Bool-cases (refers_to y u)) [
  | inl here ↦ ground (arith, here)
  | inr there ↦ elim (Option-cases (index us y)) [
    | inl missing ↦ absurd (ground (arith, e, there, missing))
    | inr (k, found) ↦
        let same : b ≡ k + 1 = ground (arith, e, there, found) in
        ground (arith, there, find_utxo-before us y a k found (omega (arith, l, same)))
  ]
]

find_utxo-after :
    (us : UtxoList) (y : Input) (k b : ℕ)
    → index us y ≡ some k
    → k < b
    → find_utxo (erase us b) y ≡ find_utxo us y
unfolding index erase find_utxo
find_utxo-after [] y k b e l = absurd (ground arith)
find_utxo-after (u ∷ us) y k zero e l = absurd (omega (arith, l))
find_utxo-after (u ∷ us) y k (suc b) e l = elim (Bool-cases (refers_to y u)) [
  | inl here ↦ ground (arith, here)
  | inr there ↦ elim (Option-cases (index us y)) [
    | inl missing ↦ absurd (ground (arith, e, there, missing))
    | inr (j, found) ↦
        let same : k ≡ j + 1 = ground (arith, e, there, found) in
        ground (arith, there, find_utxo-after us y j b found (omega (arith, l, same)))
  ]
]

second_found :
    (us : UtxoList) (y : Input) (a b : ℕ)
    → index us y ≡ some b
    → a < b
    → find_utxo (erase (erase us a) b) y ≡ find_utxo us y
second_found us y a b e l =
    find_utxo-after (erase us a) y (b - 1) b (index-before us y a b e l) (omega (arith, l))
    ∙ find_utxo-before us y a b e l

-- A transaction with one input is judged by the coin that is found for it.
check-one :
    (t : Transaction) (y : Input) (us vs : UtxoList) (ws : List ℕ)
    → t.inputs ≡ y ∷ []
    → find_utxo us y ≡ find_utxo vs y
    → check_spending_conditions t us ws ≡ check_spending_conditions t vs ws
unfolding check_spending_conditions total_input
check-one t y us vs ws p q =
    let one : total_input 0 (y ∷ []) us ≡ total_input 0 (y ∷ []) vs =
      ap (λ (o : Option Utxo). elim o [ none ↦ none | some u ↦ some (int_add 0 u.output.value) ])
        q in
    let total : total_input 0 t.inputs us ≡ total_input 0 t.inputs vs =
      ap (λ is. total_input 0 is us) p ∙ (one ∙ sym (ap (λ is. total_input 0 is vs) p)) in
    ap
      (λ o.
        if eqb (length t.inputs) 0 then eqb (length t.outputs) 0 else check_totals ws t.outputs o)
      total

-- The validator with this list as the wallet's coins.
abbrev settled : ℕ → UtxoList → Validator → Validator
settled id live v = record v { utxo_sets = insert id live v.utxo_sets }

settled_self : (id : ℕ) (live : UtxoList) (v : Validator) → coins_of id (settled id live v) ≡ live
settled_self id live v = ground (arith, lookup-insert v.utxo_sets id id live)

settled_other :
    (id w : ℕ) (live : UtxoList) (v : Validator)
    → ¬ (id ≡ w)
    → coins_of w (settled id live v) ≡ coins_of w v
settled_other id w live v n = ground (arith, lookup-insert v.utxo_sets id w live)

on_agree_blk_run :
    (b : Block) (v : Validator) (t : Transaction) (is : List Input) (live : UtxoList)
    → b.txs ≡ t ∷ []
    → t.inputs ≡ is
    → spend_loop is 0 (length t.outputs) (coins_of t.sender_id v) (coins_of t.sender_id v) ≡ ok live
    → on_agree_blk b v ≡ ok (settled t.sender_id live v)
unfolding on_agree_blk settle_all settle_tx
on_agree_blk_run b v t is live x y e = ap (λ ts. settle_all ts v) x ∙ rw (y, e) refl

check-index :
    (t : Transaction) (us : UtxoList) (ws : List ℕ) (i : Input)
    → t.inputs ≡ i ∷ []
    → check_spending_conditions t us ws ≡ true
    → (k : ℕ) × (index us i ≡ some k)
unfolding check_spending_conditions total_input
check-index t us ws i y c = elim (Option-cases (index us i)) [
  | inl missing ↦ absurd (ground (arith, ap length y, find_utxo-index us i missing))
  | inr found ↦ found
]

length-pos : {A : Type 0} (xs : List A) → xs ≢ [] → 0 < length xs
length-pos [] n = absurd (n refl)
length-pos (x ∷ xs) n = omega arith

-- A block of one transaction whose one input is a coin of the sender, that has an output and that the
-- check accepts: the sender's list loses exactly the first coin that the input names, and the lists of
-- the other wallets stay.
pub on_agree_blk_one :
    (b : Block) (v : Validator) (t : Transaction) (i : Input)
    → b.txs ≡ t ∷ []
    → t.inputs ≡ i ∷ []
    → t.outputs ≢ []
    → check_spending_conditions t (coins_of t.sender_id v) v.wallets_ids ≡ true
    → (v' : Validator) × (before : UtxoList) × (coin : Utxo) × (after : UtxoList) × (on_agree_blk b
          v
        ≡ ok v')
      × (coins_of t.sender_id v ≡ before ++ coin ∷ after)
      × (find_utxo (coins_of t.sender_id v) i ≡ some coin)
      × (coins_of t.sender_id v' ≡ before ++ after)
      × ((w : ℕ) → ¬ (t.sender_id ≡ w) → coins_of w v' ≡ coins_of w v)
on_agree_blk_one b v t i x y o c =
    let us = coins_of t.sender_id v in
    let (k, found) = check-index t us v.wallets_ids i y c in
    let r = index-Found us i k found in
    let loop = spend_loop_one i k (length t.outputs) us found r.in_range (length-pos t.outputs o) in
    (
      settled t.sender_id (erase us k) v,
      r.before,
      r.coin,
      r.after,
      on_agree_blk_run b v t (i ∷ []) (erase us k) x y loop,
      r.parts,
      r.first,
      settled_self t.sender_id (erase us k) v ∙ r.without,
      λ w n. settled_other t.sender_id w (erase us k) v n,
    )

-- A block of one transaction that has two outputs or more and spends two of its sender's coins, the
-- second behind the first and not the last: the update succeeds, but the second coin is still there, and
-- every transaction that spends it alone is judged by the spending conditions as it was before.
pub on_agree_blk_two :
    (bl : Block) (v : Validator) (t : Transaction) (x y : Input) (a b : ℕ)
    → bl.txs ≡ t ∷ []
    → t.inputs ≡ x ∷ y ∷ []
    → 1 < length t.outputs
    → index (coins_of t.sender_id v) x ≡ some a
    → index (coins_of t.sender_id v) y ≡ some b
    → a < b
    → b + 1 < length (coins_of t.sender_id v)
    → (v' : Validator) × (on_agree_blk bl v ≡ ok v')
      × (get_elem? (coins_of t.sender_id v') (b - 1) ≡ get_elem? (coins_of t.sender_id v) b)
      × ((u : Transaction) (ws : List ℕ)
          → u.inputs ≡ y ∷ []
          → check_spending_conditions u (coins_of t.sender_id v') ws
            ≡ check_spending_conditions u (coins_of t.sender_id v) ws)
on_agree_blk_two bl v t x y a b p q r d e l m =
    let us = coins_of t.sender_id v in
    let live = erase (erase us a) b in
    let loop = spend_loop_two x y a b (length t.outputs) us d e l m r in
    (
      settled t.sender_id live v,
      on_agree_blk_run bl v t (x ∷ y ∷ []) live p q loop,
      ap (λ c. get_elem? c (b - 1)) (settled_self t.sender_id live v) ∙ second_stays a b us l,
      λ u ws only.
          check-one u y (coins_of t.sender_id (settled t.sender_id live v)) us ws only
            (ap (λ c. find_utxo c y) (settled_self t.sender_id live v) ∙ second_found us y a b e l),
    )
