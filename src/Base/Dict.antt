-- ===== src/Base/Dict.antt =====
-- `std::map` and `std::unordered_map` as association lists with one entry for a key. The program
-- relies on no order of the entries; a list in any order stands for a map in any order.
use mathlib.Core.Path.{◌≡◌, refl}
use mathlib.Core.Bool.{Bool, true, false}
use mathlib.Core.Option.{Option, none, some}
use mathlib.Core.List.{List, [], ◌∷◌}
use native.Mathlib.Omega.{arith}
use cosicoin.Base.Tests.{if◌then◌else◌}
use cosicoin.Base.Equality.{Eq, ◌==◌}

abbrev pub Dict {ℓ κ} : Type ℓ → Type κ → Type (ℓ ⊔ κ)
Dict K V = List (K × V)

module _ {ℓ κ} {K : Type ℓ} {V : Type κ} ⦃e : Eq K⦄ where
  -- `find`
  unfoldable pub lookup : K → Dict K V → Option V
  lookup k [] = none
  lookup k (entry ∷ m) = if entry.0 == k then some entry.1 else lookup k m

  -- `count(k)`, `find(k) != end()`
  abbrev pub has_key : K → Dict K V → Bool
  has_key k m = elim (lookup k m) [ none ↦ false | some _ ↦ true ]

  -- `m[k] = v`
  unfoldable pub insert : K → V → Dict K V → Dict K V
  insert k v [] = (k, v) ∷ []
  insert k v (entry ∷ m) = if entry.0 == k then (entry.0, v) ∷ m else entry ∷ insert k v m

  -- `m.erase(k)`
  unfoldable pub erase : K → Dict K V → Dict K V
  erase k [] = []
  erase k ((j, w) ∷ m) = if j == k then m else (j, w) ∷ erase k m

  -- `m[k]` where it is read: the value's default when the key is missing.
  abbrev pub at_or : V → K → Dict K V → V
  at_or d k m = elim (lookup k m) [ none ↦ d | some v ↦ v ]

  pub lookup-insert :
      (m : Dict K V) (old new : K) (v : V)
      → lookup new (insert old v m) ≡ (if old == new then some v else lookup new m)
  unfolding insert lookup
  lookup-insert [] old new v = refl
  lookup-insert ((i, w) ∷ m) old new v =
      ground (arith, lookup-insert m old new v, e.beq_iff i old, e.beq_iff i new, e.beq_iff old new)

  pub lookup-insert_self : (k : K) (v : V) (m : Dict K V) → lookup k (insert k v m) ≡ some v
  lookup-insert_self k v m = ground (arith, lookup-insert m k k v, e.beq_iff k k)
