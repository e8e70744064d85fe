-- ===== src/Blockchain/MerkleRoot.antt =====
-- `calculateMerkleRoot` ends, and with the root of the tree over the digests
-- (lib/blockchain/header.cc).
use cosicoin.Base.{
  ℕ, zero, suc, ◌+◌, ◌/◌, ◌%◌, ◌^◌, ◌<◌, ◌≤◌, ◌≡◌, refl, sym, ap, ◌∙◌, some, List, [], ◌∷◌, ◌++◌,
  map, length, last_or, arith, length-map, length-append, lt→ltb,
}
use native.Mathlib.Nat.{pow-suc}
use native.Mathlib.Decide.{dec_le}
use cosicoin.Base.Text.{Bytes}
use cosicoin.Host.{Host}
use cosicoin.Blockchain.Transaction.{Transaction, get_digest}
use cosicoin.Blockchain.Header.{merkle_loop, merkle_root_of}
use cosicoin.Blockchain.Merkle.{
  tree, pair_level, next_level-eq-pair_level, length-pair_level, tree-pair_level,
}

-- The depth of the tree over `n` leaves.
abbrev pub Depth : ℕ → ℕ → Type 0
Depth zero n = n ≡ 1
Depth (suc k) n = (2 ^ k < n) × (n ≤ 2 ^ (suc k))

Depth-suc : (k n : ℕ) → Depth k n → (j : ℕ) × Depth j (suc n)
Depth-suc zero n d = (1, omega arith)
Depth-suc (suc k) n d = elim (dec_le (suc n) (2 ^ suc k)) [
  | yes fits ↦ (suc k, omega arith)
  | no full ↦ (suc (suc k), omega (arith, pow-suc 2 (suc k)))
]

pub Depth-total : (n : ℕ) → 0 < n → (k : ℕ) × Depth k n
Depth-total zero p = elim p [ ]
Depth-total (suc zero) p = (0, omega arith)
Depth-total (suc (suc n)) p =
    let (k, d) = Depth-total (suc n) (omega arith) in Depth-suc k (suc n) d

suc-le-two_pow : (k : ℕ) → k + 1 ≤ 2 ^ k
suc-le-two_pow zero = omega arith
suc-le-two_pow (suc k) = omega (arith, suc-le-two_pow k, pow-suc 2 k)

Depth-lt : (k n : ℕ) → Depth k n → k < n
Depth-lt zero n d = omega arith
Depth-lt (suc k) n d = omega (arith, suc-le-two_pow k)

Depth-half : (k n : ℕ) → Depth (suc k) n → Depth k ((n + 1) / 2)
Depth-half zero n d = omega arith
Depth-half (suc k) n d = omega (arith, pow-suc 2 k, pow-suc 2 (suc k))

module _ (h : Host) where
  merkle_loop_leaf :
      (f : ℕ) (hs : List Bytes) → length hs ≡ 1 → merkle_loop h (suc f) hs ≡ some (tree h 0 hs)
  unfolding merkle_loop tree
  merkle_loop_leaf f [] e = absurd (omega arith)
  merkle_loop_leaf f (x ∷ []) e = refl
  merkle_loop_leaf f (x ∷ y ∷ hs) e = absurd (omega arith)

  merkle_loop_step :
      (f : ℕ) (hs : List Bytes)
      → 1 < length hs
      → merkle_loop h (suc f) hs ≡ merkle_loop h f (pair_level h hs)
  unfolding merkle_loop
  merkle_loop_step f hs p =
      rw (lt→ltb 1 (length hs) p) (ap (merkle_loop h f) (next_level-eq-pair_level h hs))

  -- Fuel above the depth is enough.
  pub merkle_loop-tree :
      (f k : ℕ) (hs : List Bytes)
      → Depth k (length hs)
      → k < f
      → merkle_loop h f hs ≡ some (tree h k hs)
  merkle_loop-tree zero k hs d p = elim p [ ]
  merkle_loop-tree (suc f) zero hs d p = merkle_loop_leaf f hs d
  merkle_loop-tree (suc f) (suc k) hs d p =
      merkle_loop_step f hs (omega (arith, suc-le-two_pow k))
      ∙ merkle_loop-tree f k (pair_level h hs)
          (rw (length-pair_level h hs) (Depth-half k (length hs) d)) (omega arith)
      ∙ ap some (sym (tree-pair_level h k hs (omega arith) d.1))

  loop_digests :
      (k : ℕ) (t : Transaction) (ts : List Transaction)
      → Depth k (length (t ∷ ts))
      → merkle_loop h (length (t ∷ ts)) (map (get_digest h) (t ∷ ts))
        ≡ some (tree h k (map (get_digest h) (t ∷ ts)))
  loop_digests k t ts d =
      merkle_loop-tree (length (t ∷ ts)) k (map (get_digest h) (t ∷ ts))
        (rw (length-map (t ∷ ts) (get_digest h)) d) (Depth-lt k (length (t ∷ ts)) d)

  merkle_root_of-Depth :
      (k : ℕ) (t : Transaction) (ts : List Transaction)
      → Depth k (length (t ∷ ts))
      → merkle_root_of h (t ∷ ts) ≡ tree h k (map (get_digest h) (t ∷ ts))
  unfolding merkle_root_of
  merkle_root_of-Depth k t ts d = rw (loop_digests k t ts d, merkle_root_of)

  -- For at least one transaction the loop ends on the fuel that it is given, and the root is that of
  -- the least tree that holds all the digests.
  pub merkle_root_of-tree :
      (t : Transaction) (ts : List Transaction)
      → (k : ℕ) × Depth k (length (t ∷ ts))
        × (merkle_loop h (length (t ∷ ts)) (map (get_digest h) (t ∷ ts))
            ≡ some (merkle_root_of h (t ∷ ts)))
        × (merkle_root_of h (t ∷ ts) ≡ tree h k (map (get_digest h) (t ∷ ts)))
  merkle_root_of-tree t ts =
      let (k, d) = Depth-total (length (t ∷ ts)) (omega arith) in
      let e = merkle_root_of-Depth k t ts d in (k, d, loop_digests k t ts d ∙ ap some (sym e), e)

  pair_level_odd :
      (x : Bytes) (hs : List Bytes)
      → length hs % 2 ≡ 0
      → pair_level h (x ∷ hs ++ last_or x hs ∷ []) ≡ pair_level h (x ∷ hs)
  unfolding pair_level
  pair_level_odd x [] p = refl
  pair_level_odd x (y ∷ []) p = absurd (omega arith)
  pair_level_odd x (y ∷ z ∷ hs) p = ap (◌∷◌ (h.hash (x ++ y))) (pair_level_odd z hs (omega arith))

  map_last :
      (f : Transaction → Bytes) (t : Transaction) (ts : List Transaction)
      → map f (ts ++ last_or t ts ∷ []) ≡ map f ts ++ last_or (f t) (map f ts) ∷ []
  map_last f t [] = refl
  map_last f t (x ∷ ts) = ap (◌∷◌ (f x)) (map_last f x ts)

  same_root :
      (k : ℕ) (t : Transaction) (ts us : List Transaction)
      → 1 < length (t ∷ ts)
      → 1 < length (t ∷ us)
      → Depth k (length (t ∷ ts))
      → Depth k (length (t ∷ us))
      → pair_level h (map (get_digest h) (t ∷ ts)) ≡ pair_level h (map (get_digest h) (t ∷ us))
      → merkle_root_of h (t ∷ ts) ≡ merkle_root_of h (t ∷ us)
  same_root zero t ts us p q c d e = absurd (omega arith)
  same_root (suc k) t ts us p q c d e =
      let f = get_digest h in
      merkle_root_of-Depth (suc k) t ts c
      ∙ tree-pair_level h k (map f (t ∷ ts)) (omega arith) (rw (length-map (t ∷ ts) f) c.1)
      ∙ ap (tree h k) e
      ∙ sym (tree-pair_level h k (map f (t ∷ us)) (omega arith) (rw (length-map (t ∷ us) f) d.1))
      ∙ sym (merkle_root_of-Depth (suc k) t us d)

  Depth-even : (k n : ℕ) → Depth k n → 1 < n → n % 2 ≡ 1 → Depth k (n + 1)
  Depth-even zero n d p o = absurd (omega arith)
  Depth-even (suc k) n d p o = omega (arith, pow-suc 2 k)

  -- An odd number of transactions, more than one, and the same with the last one repeated have the
  -- same root.
  merkle_root_of_repeat_last :
      (t : Transaction) (ts : List Transaction)
      → 0 < length ts
      → length ts % 2 ≡ 0
      → merkle_root_of h (t ∷ ts ++ last_or t ts ∷ []) ≡ merkle_root_of h (t ∷ ts)
  merkle_root_of_repeat_last t ts p o =
      let f = get_digest h in
      let (k, d) = Depth-total (length (t ∷ ts)) (omega arith) in
      let n : length (t ∷ ts ++ last_or t ts ∷ []) ≡ length (t ∷ ts) + 1 =
        omega (arith, length-append ts (last_or t ts ∷ [])) in
      sym (
        same_root k t ts (ts ++ last_or t ts ∷ []) (omega arith) (omega arith) d
          (rw n (Depth-even k (length (t ∷ ts)) d (omega arith) (omega arith)))
          (rw (map_last f t ts) (sym (pair_level_odd (f t) (map f ts) (rw (length-map ts f) o)))))
