-- ===== src/Storage/Links.antt =====
-- The blocks of the database form a chain (`addBlock` of lib/database/database.cc).
use cosicoin.Base.{
  refl, ◌≡◌, some, List, [], ◌∷◌, ◌++◌, arith, nat_eq, list_eq, list_beq_iff, last_or, contains,
  false, Bool-cases, contains-append, true, Bool, inl, sym, inr,
}
use mathlib.Core.Path.{subst}
use cosicoin.Base.Text.{Bytes}
use cosicoin.Base.Dict.{Dict, lookup, insert, lookup-insert, lookup-insert_self}
use cosicoin.Base.Result.{ok, Result, err}
use cosicoin.Host.{Host}
use cosicoin.Blockchain.Block.{Block, block_digest}
use cosicoin.Storage.Database.{
  continues, Database, add_digested, add_block, empty_database, append_block,
}

module _ (h : Host) where
  -- A block is stored under this digest, which is its own, and follows the block before.
  pub record Stored (m : Dict Bytes Block) (x : Bytes) : Type 0 where
    pub block : Block
    pub found : lookup x m ≡ some block
    pub digested : block_digest h block ≡ ok x

  -- Each block but the first names the digest before its own.
  pub data Linked (m : Dict Bytes Block) : List Bytes → Type 0 where
    empty : Linked m []
    first : (x : Bytes) → Stored m x → Linked m (x ∷ [])
    follows :
        {y : Bytes} {ds : List Bytes} (x : Bytes) (s : Stored m x)
        → s.block.header.prev_block_digest ≡ last_or y ds
        → Linked m (y ∷ ds)
        → Linked m (y ∷ ds ++ x ∷ [])

  lookup-insert_other :
      (m : Dict Bytes Block) (x y : Bytes) (b c : Block)
      → ¬ (y ≡ x)
      → lookup x m ≡ some c
      → lookup x (insert y b m) ≡ some c
  lookup-insert_other m x y b c n p = ground (arith, p, lookup-insert m y x b, list_beq_iff y x)

  -- The same block, in a map with one more block.
  abbrev kept :
      (m : Dict Bytes Block) (x y : Bytes) (b : Block)
      → ¬ (y ≡ x)
      → Stored m x
      → Stored (insert y b m) x
  kept m x y b n s = record {
    block = s.block;
    found = lookup-insert_other m x y b s.block n s.found;
    digested = s.digested;
  }

  contains-ne :
      (xs : List Bytes) (x z : Bytes)
      → contains (xs ++ x ∷ []) z ≡ false
      → (contains xs z ≡ false) × ¬ (z ≡ x)
  contains-ne xs x z e = ground (arith, contains-append xs (x ∷ []) z, list_beq_iff x z)

  Linked-insert :
      (m : Dict Bytes Block) (z : Bytes) (b : Block) (ds : List Bytes)
      → contains ds z ≡ false
      → Linked m ds
      → Linked (insert z b m) ds
  Linked-insert m z b ds n empty = empty
  Linked-insert m z b ds n (first x s) = first x (kept m x z b (contains-ne [] x z n).1 s)
  Linked-insert m z b ds n (follows {y = y} {ds = es} x s p l) =
      let (rest, other) = contains-ne (y ∷ es) x z n in
      follows x (kept m x z b other s) p (Linked-insert m z b (y ∷ es) rest l)

  Linked-extend :
      (x : Bytes) (b : Block) (m : Dict Bytes Block) (ds : List Bytes)
      → block_digest h b ≡ ok x
      → contains ds x ≡ false
      → continues ds b.header.prev_block_digest ≡ true
      → Linked m ds
      → Linked (insert x b m) (ds ++ x ∷ [])
  unfolding continues
  Linked-extend x b m [] p n c l =
      first x (record { block = b; found = lookup-insert_self x b m; digested = p })
  Linked-extend x b m (y ∷ ds) p n c l =
      follows x (record { block = b; found = lookup-insert_self x b m; digested = p })
        (sym ((list_beq_iff (last_or y ds) b.header.prev_block_digest).0 c))
        (Linked-insert m x b (y ∷ ds) n l)

  -- The databases that calls of `addBlock` reach, where no block has the digest of an earlier one.
  pub data Grown : Database → Type 0 where
    fresh : Grown empty_database
    adds :
        {d : Database} (writable : Bool) (b : Block)
        → Grown d
        → ((x : Bytes) → block_digest h b ≡ ok x → contains d.digests x ≡ false)
        → Grown (add_block h writable b d).1

  digested-Linked :
      (writable : Bool) (b : Block) (d : Database) (r : Result Bytes)
      → block_digest h b ≡ r
      → ((x : Bytes) → block_digest h b ≡ ok x → contains d.digests x ≡ false)
      → continues d.digests b.header.prev_block_digest ≡ true
      → Linked d.blocks d.digests
      → Linked (add_digested h writable b d r).1.blocks (add_digested h writable b d r).1.digests
  unfolding add_digested append_block
  digested-Linked writable b d (err e) p n c l = l
  digested-Linked writable b d (ok x) p n c l = Linked-extend x b d.blocks d.digests p (n x p) c l

  -- As long as no digest comes twice: each digest of the chain is that of the block stored under it,
  -- and each block but the first names the digest before its own. This holds after calls that throw.
  pub Grown-Linked : {d : Database} → Grown d → Linked d.blocks d.digests
  unfolding add_block
  Grown-Linked fresh = empty
  Grown-Linked (adds {d = d} writable b before n) =
      elim (Bool-cases (continues d.digests b.header.prev_block_digest)) [
        | inl next_one ↦
            let same : add_block h writable b d ≡ add_digested h writable b d (block_digest h b) =
              rw next_one refl in
            subst (λ r. Linked r.1.blocks r.1.digests) (sym same)
              (digested-Linked writable b d (block_digest h b) refl n next_one
                (Grown-Linked before))
        | inr other ↦
            let same : add_block h writable b d ≡ (ok 1, d) = rw other refl in
            subst (λ r. Linked r.1.blocks r.1.digests) (sym same) (Grown-Linked before)
      ]
