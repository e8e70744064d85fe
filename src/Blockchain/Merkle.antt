-- ===== src/Blockchain/Merkle.antt =====
-- The loop of `calculateMerkleRoot` (lib/blockchain/header.cc) computes the root of a tree.
use cosicoin.Base.{
  ℕ, zero, suc, ◌+◌, ◌*◌, ◌/◌, ◌^◌, ◌<◌, ◌≤◌, ◌≡◌, refl, ap, List, [], ◌∷◌, ◌++◌, length, take,
  drop, leb, arith, if◌then◌else◌, le→leb, false, length-take, length-drop,
}
use native.Mathlib.Nat.{pow-suc}
use native.Mathlib.Decide.{dec_le}
use cosicoin.Base.Text.{Bytes}
use cosicoin.Host.{Host}
use cosicoin.Blockchain.Header.{even_out, next_level}

abbrev twice : ℕ → ℕ
twice zero = zero
twice (suc n) = suc (suc (twice n))

twice_lem : (n : ℕ) → twice n ≡ 2 * n
twice_lem zero = refl
twice_lem (suc n) = omega (arith, twice_lem n)

two_pow-suc : (k : ℕ) → 2 ^ suc k ≡ twice (2 ^ k)
two_pow-suc k = omega (arith, twice_lem (2 ^ k), pow-suc 2 k)

even_out-step : (x y : Bytes) (hs : List Bytes) → even_out (x ∷ y ∷ hs) ≡ x ∷ y ∷ even_out hs
unfolding even_out
even_out-step x y [] = refl
even_out-step x y (z ∷ hs) = ground arith

take-nil : (n : ℕ) → take {A = Bytes} n [] ≡ []
take-nil zero = refl
take-nil (suc n) = refl

drop-nil : (n : ℕ) → drop {A = Bytes} n [] ≡ []
drop-nil zero = refl
drop-nil (suc n) = refl

module _ (h : Host) where
  open h use {hash}

  -- The tree of depth `k` over up to 2^k leaves, from the root down: a right half that is missing is
  -- replaced by the left one.
  unfoldable pub tree : ℕ → List Bytes → Bytes
  tree zero [] = []
  tree zero (x ∷ xs) = x
  tree (suc k) xs =
      if leb (length xs) (2 ^ k)
      then hash (tree k xs ++ tree k xs)
      else hash (tree k (take (2 ^ k) xs) ++ tree k (drop (2 ^ k) xs))

  -- One level by direct recursion.
  unfoldable pub pair_level : List Bytes → List Bytes
  pair_level [] = []
  pair_level (x ∷ []) = hash (x ++ x) ∷ []
  pair_level (x ∷ y ∷ xs) = hash (x ++ y) ∷ pair_level xs

  pub next_level-eq-pair_level : (hs : List Bytes) → next_level h hs ≡ pair_level hs
  unfolding next_level pair_level
  next_level-eq-pair_level [] = refl
  next_level-eq-pair_level (x ∷ []) = refl
  next_level-eq-pair_level (x ∷ y ∷ hs) =
      rw (even_out-step x y hs) (ap (◌∷◌ (hash (x ++ y))) (next_level-eq-pair_level hs))

  pub length-pair_level : (hs : List Bytes) → length (pair_level hs) ≡ (length hs + 1) / 2
  unfolding pair_level
  length-pair_level [] = refl
  length-pair_level (x ∷ []) = refl
  length-pair_level (x ∷ y ∷ hs) = omega (arith, length-pair_level hs)

  take-pair_level :
      (n : ℕ) (hs : List Bytes) → take n (pair_level hs) ≡ pair_level (take (twice n) hs)
  unfolding pair_level
  take-pair_level zero hs = refl
  take-pair_level (suc n) [] = refl
  take-pair_level (suc n) (x ∷ []) = rw (take-nil n)
  take-pair_level (suc n) (x ∷ y ∷ hs) = ap (◌∷◌ (hash (x ++ y))) (take-pair_level n hs)

  drop-pair_level :
      (n : ℕ) (hs : List Bytes) → drop n (pair_level hs) ≡ pair_level (drop (twice n) hs)
  unfolding pair_level
  drop-pair_level zero hs = refl
  drop-pair_level (suc n) [] = refl
  drop-pair_level (suc n) (x ∷ []) = rw (drop-nil n)
  drop-pair_level (suc n) (x ∷ y ∷ hs) = drop-pair_level n hs

  tree_narrow :
      (k : ℕ) (hs : List Bytes)
      → length hs ≤ 2 ^ k
      → tree (suc k) hs ≡ hash (tree k hs ++ tree k hs)
  unfolding tree
  tree_narrow k hs p = rw (le→leb (length hs) (2 ^ k) p)

  tree_wide :
      (k : ℕ) (hs : List Bytes)
      → 2 ^ k < length hs
      → tree (suc k) hs ≡ hash (tree k (take (2 ^ k) hs) ++ tree k (drop (2 ^ k) hs))
  unfolding tree
  tree_wide k hs p = let e : leb (length hs) (2 ^ k) ≡ false = ground arith in rw e

  tree_leaves :
      (hs : List Bytes) → 0 < length hs → length hs ≤ 2 → tree 1 hs ≡ tree 0 (pair_level hs)
  unfolding tree pair_level
  tree_leaves [] p q = absurd (omega arith)
  tree_leaves (x ∷ []) p q = refl
  tree_leaves (x ∷ y ∷ []) p q = refl
  tree_leaves (x ∷ y ∷ z ∷ hs) p q = absurd (omega arith)

  -- A tree over some leaves is the tree over the level above them.
  pub tree-pair_level :
      (k : ℕ) (hs : List Bytes)
      → 0 < length hs
      → length hs ≤ 2 ^ (suc k)
      → tree (suc k) hs ≡ tree k (pair_level hs)
  tree-pair_level zero hs p q = tree_leaves hs p (omega arith)
  tree-pair_level (suc k) hs p q = elim (dec_le (length hs) (2 ^ suc k)) [
    | yes low ↦
        let short : length (pair_level hs) ≤ 2 ^ k =
          omega (arith, length-pair_level hs, pow-suc 2 k) in
        rw (tree_narrow (suc k) hs low, tree_narrow k (pair_level hs) short)
          (rw (tree-pair_level k hs p low))
    | no high ↦
        let m : ℕ = 2 ^ suc k in
        let t = take m hs in
        let d = drop m hs in
        let long : 2 ^ k < length (pair_level hs) =
          omega (arith, length-pair_level hs, pow-suc 2 k) in
        let left : tree (suc k) t ≡ tree k (pair_level t) =
          tree-pair_level k t (omega (arith, length-take m hs, pow-suc 2 k))
            (omega (arith, length-take m hs)) in
        let right : tree (suc k) d ≡ tree k (pair_level d) =
          tree-pair_level k d (omega (arith, length-drop m hs))
            (omega (arith, length-drop m hs, pow-suc 2 (suc k))) in
        rw (tree_wide (suc k) hs (omega arith), tree_wide k (pair_level hs) long)
          (rw (left, right, take-pair_level (2 ^ k) hs, drop-pair_level (2 ^ k) hs, two_pow-suc k))
  ]
