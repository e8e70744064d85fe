-- ===== src/Validator/Settlement.antt =====
-- What an agreed block does to the coins (`OnAgreeBlk` of lib/cryptowallet/validator.cc).
use cosicoin.Base.{
  ℕ, ◌+◌, ◌≡◌, ◌∙◌, inl, inr, List, [], ◌∷◌, arith, Bool-cases, Option-cases, nat_eq, length, ◌==◌,
  if◌then◌else◌, sym,
}
use mathlib.Core.Path.{subst, ap}
use cosicoin.Base.Sublist.{Sublist, Sublist-refl, Sublist-trans, Sublist-erase_at}
use cosicoin.Base.Dict.{lookup-insert}
use cosicoin.Base.Result.{ok, >>=-eq-ok}
use cosicoin.Blockchain.Coins.{Input, UtxoList, index, erase}
use cosicoin.Blockchain.Transaction.{Transaction}
use cosicoin.Blockchain.Block.{Block}
use cosicoin.Validator.State.{Validator, coins_of}
use cosicoin.Validator.Settle.{spend_loop, settle_tx, settle_all, on_agree_blk}

spend_loop-Sublist :
    (xs : List Input) (i outputs : ℕ) (ulist live out : UtxoList)
    → spend_loop xs i outputs ulist live ≡ ok out
    → Sublist out live
unfolding spend_loop erase
spend_loop-Sublist [] i outputs ulist live out e =
    subst (λ l. Sublist l live) (ground (arith, e)) (Sublist-refl live)
spend_loop-Sublist (x ∷ xs) i outputs ulist live out e = elim (Option-cases (index ulist x)) [
  | inl missing ↦ spend_loop-Sublist xs (i + 1) outputs ulist live out (ground (arith, e))
  | inr (idx, found) ↦
      Sublist-trans (Sublist-erase_at live idx)
        (spend_loop-Sublist xs (i + 1) outputs ulist (erase live idx) out (ground (arith, e)))
]

-- A transaction settled: its sender's coins are what the loop leaves, the others stay.
settle_tx_inv :
    (t : Transaction) (v v' : Validator)
    → settle_tx t v ≡ ok v'
    → (live : UtxoList) × (spend_loop t.inputs 0
          (length t.outputs)
          (coins_of t.sender_id v)
          (coins_of t.sender_id v)
        ≡ ok live)
      × ((w : ℕ) → coins_of w v' ≡ (if t.sender_id == w then live else coins_of w v))
unfolding settle_tx
settle_tx_inv t v v' e =
    let coins = coins_of t.sender_id v in
    let (live, p, q) = >>=-eq-ok (spend_loop t.inputs 0 (length t.outputs) coins coins) _ e in
    (live, p, λ w. ground (arith, q, lookup-insert v.utxo_sets t.sender_id w live))

settle_tx-Sublist :
    (t : Transaction) (v v' : Validator)
    → settle_tx t v ≡ ok v'
    → (w : ℕ) → Sublist (coins_of w v') (coins_of w v)
settle_tx-Sublist t v v' e w =
    let (live, p, q) = settle_tx_inv t v v' e in
    let left =
      spend_loop-Sublist t.inputs 0 (length t.outputs) (coins_of t.sender_id v)
        (coins_of t.sender_id v) live p in
    elim (Bool-cases (t.sender_id == w)) [
      | inl mine ↦
          let same : t.sender_id ≡ w = ground arith in
          subst (λ l. Sublist l (coins_of w v))
            (sym (q w ∙ ap (λ c. if c then live else coins_of w v) mine))
            (subst (λ id. Sublist live (coins_of id v)) same left)
      | inr other ↦
          subst (λ l. Sublist l (coins_of w v))
            (sym (q w ∙ ap (λ c. if c then live else coins_of w v) other))
            (Sublist-refl (coins_of w v))
    ]

settle_all-Sublist :
    (ts : List Transaction) (v v' : Validator)
    → settle_all ts v ≡ ok v'
    → (w : ℕ) → Sublist (coins_of w v') (coins_of w v)
unfolding settle_all
settle_all-Sublist [] v v' e w =
    let same : v ≡ v' = ground (arith, e) in
    subst (λ u. Sublist (coins_of w u) (coins_of w v)) same (Sublist-refl (coins_of w v))
settle_all-Sublist (t ∷ ts) v v' e w =
    let (v1, p, q) = >>=-eq-ok (settle_tx t v) _ e in
    Sublist-trans (settle_tx-Sublist t v v1 p w) (settle_all-Sublist ts v1 v' q w)

-- An agreed block takes coins away from wallets and gives none: whatever it pays, each wallet's list
-- is its old list with some entries left out.
pub on_agree_blk-Sublist :
    (b : Block) (v v' : Validator) (w : ℕ)
    → on_agree_blk b v ≡ ok v'
    → Sublist (coins_of w v') (coins_of w v)
unfolding on_agree_blk
on_agree_blk-Sublist b v v' w e = settle_all-Sublist b.txs v v' e w
