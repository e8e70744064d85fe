-- ===== src/Base/Sublist.antt =====
-- Lists with some elements left out.
use Prim.Native.Nat.{ℕ, zero, suc}
use mathlib.Core.List.{List, [], ◌∷◌}
use cosicoin.Base.Lists.{erase_at}

pub data Sublist {ℓ} {A : Type ℓ} : List A → List A → Type ℓ where
  stop : Sublist [] []
  keep : {x : A} {xs ys : List A} → Sublist xs ys → Sublist (x ∷ xs) (x ∷ ys)
  omit : {x : A} {xs ys : List A} → Sublist xs ys → Sublist xs (x ∷ ys)

module _ {ℓ} {A : Type ℓ} where
  pub Sublist-refl : (xs : List A) → Sublist xs xs
  Sublist-refl [] = stop
  Sublist-refl (x ∷ xs) = keep (Sublist-refl xs)

  pub Sublist-trans :
      {ys zs : List A} → Sublist ys zs → {xs : List A} → Sublist xs ys → Sublist xs zs
  Sublist-trans stop p = p
  Sublist-trans (omit q) p = omit (Sublist-trans q p)
  Sublist-trans (keep q) (omit p) = omit (Sublist-trans q p)
  Sublist-trans (keep q) (keep p) = keep (Sublist-trans q p)

  pub Sublist-erase_at : (xs : List A) (i : ℕ) → Sublist (erase_at xs i) xs
  Sublist-erase_at [] i = stop
  Sublist-erase_at (x ∷ xs) zero = omit (Sublist-refl xs)
  Sublist-erase_at (x ∷ xs) (suc i) = keep (Sublist-erase_at xs i)
