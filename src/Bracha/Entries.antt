-- ===== src/Bracha/Entries.antt =====
-- The entries of the maps that `updateRecvMessages` fills (lib/bracha/node.cc).
use cosicoin.Base.{
  ℕ, ◌+◌, ◌≡◌, ◌⊎◌, inl, inr, true, false, none, some, List, contains, arith, nat_eq, list_eq,
  list_beq_iff, Bool-cases,
}
use cosicoin.Base.Text.{Bytes}
use cosicoin.Base.Dict.{Dict, lookup, has_key, lookup-insert}
use cosicoin.Blockchain.Block.{Block}
use cosicoin.Bracha.Node.{add_hash}
use cosicoin.Bracha.Receive.{insert_new, count_up}

pub insert_new_inv :
    (x y : Bytes) (b c : Block) (m : Dict Bytes Block)
    → lookup y (insert_new x b m) ≡ some c
    → (lookup y m ≡ some c) ⊎ ((x ≡ y) × (b ≡ c) × (has_key x m ≡ false))
unfolding insert_new
insert_new_inv x y b c m e = elim (Bool-cases (has_key x m)) [
  | inl old ↦ inl (ground (arith, old, e))
  | inr new ↦ ground (arith, new, e, lookup-insert m x y b, list_beq_iff x y)
]

pub insert_new-has_key :
    (x y : Bytes) (b : Block) (m : Dict Bytes Block)
    → (x ≡ y) ⊎ (has_key y m ≡ true)
    → has_key y (insert_new x b m) ≡ true
unfolding insert_new
insert_new-has_key x y b m e = ground (arith, e, lookup-insert m x y b, list_beq_iff x y)

pub count_up-has_key :
    (x y : Bytes) (m : Dict Bytes ℕ)
    → has_key y (count_up x m) ≡ true
    → (x ≡ y) ⊎ (has_key y m ≡ true)
unfolding count_up
count_up-has_key x y m e = ground (
  arith,
  e,
  lookup-insert m x y (elim (lookup x m) [ none ↦ 1 | some k ↦ k + 1 ]),
  list_beq_iff x y,
)

pub add_hash-contains :
    (x y : Bytes) (s : List Bytes)
    → contains (add_hash x s) y ≡ true
    → (x ≡ y) ⊎ (contains s y ≡ true)
unfolding add_hash
add_hash-contains x y s e = ground (arith, list_beq_iff x y)
