-- ===== src/Blockchain/Header.antt =====
-- `Header`: include/blockchain/header.h and lib/blockchain/header.cc.
use cosicoin.Base.{
  ℕ, zero, suc, ◌%◌, Bool, not, ◌&&◌, Option, none, some, List, [], ◌∷◌, ◌++◌, map, length,
  get_elem?, last_or, eqb, ltb, if◌then◌else◌, ◌==◌, nat_eq, list_eq,
}
use cosicoin.Base.Text.{Bytes}
use cosicoin.Host.{Host}
use cosicoin.Blockchain.Transaction.{Transaction, get_digest}

pub record Header : Type 0 where
  pub prev_block_digest : Bytes
  pub merkle_root : Bytes

-- `operator==`
unfoldable pub header_beq : Header → Header → Bool
header_beq a b = (a.prev_block_digest == b.prev_block_digest) && (a.merkle_root == b.merkle_root)

-- `operator!=`
unfoldable pub header_ne : Header → Header → Bool
unfolding header_beq
header_ne a b = not (header_beq a b)

-- `getID`
unfoldable pub get_id : Host → Header → Bytes
get_id h x = h.hash (x.prev_block_digest ++ x.merkle_root)

-- `if (hashes.size() % 2 != 0) hashes.push_back(hashes.back());`
unfoldable pub even_out : List Bytes → List Bytes
even_out hs = if eqb (length hs % 2) 0 then hs else hs ++ last_or [] hs ∷ []

-- The loop over the pairs of one level.
unfoldable pub hash_pairs : Host → List Bytes → List Bytes
hash_pairs h [] = []
hash_pairs h (a ∷ []) = []
hash_pairs h (a ∷ b ∷ hs) = h.hash (a ++ b) ∷ hash_pairs h hs

-- One round of the `while` loop.
unfoldable pub next_level : Host → List Bytes → List Bytes
unfolding even_out hash_pairs
next_level h hs = hash_pairs h (even_out hs)

-- `while (hashes.size() > 1)`, then `hashes[0]`; `none` says that the fuel ran out.
unfoldable pub merkle_loop : Host → ℕ → List Bytes → Option Bytes
merkle_loop h zero hs = none
merkle_loop h (suc f) hs =
    let rest = merkle_loop h f (next_level h hs) in
    if ltb 1 (length hs) then rest else get_elem? hs 0

-- `calculateMerkleRoot`, on as much fuel as there are transactions.
unfoldable pub merkle_root_of : Host → List Transaction → Bytes
merkle_root_of h [] = []
merkle_root_of h (t ∷ ts) = elim (merkle_loop h (length (t ∷ ts)) (map (get_digest h) (t ∷ ts))) [
  | none ↦ []
  | some root ↦ root
]

unfoldable pub calculate_merkle_root : Host → Header → List Transaction → Header
calculate_merkle_root h x ts = record x { merkle_root = merkle_root_of h ts }
