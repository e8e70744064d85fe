-- ===== src/Blockchain/InputSet.antt =====
-- `std::set<Input>`, ordered by `operator<` of `Input`: `Block::verify` counts with it.
use cosicoin.Base.{
  suc, ◌+◌, ◌≤◌, ◌≡◌, refl, ◌↔◌, true, false, ◌||◌, List, [], ◌∷◌, length, contains, Distinct,
  arith, if◌then◌else◌, nat_eq, ◌++◌,
}
use cosicoin.Blockchain.Coins.{Input, input_lt, input_eq, input_beq, input_beq_iff}

-- `insert`: an element that is neither less nor greater than one in the set is in it already.
unfoldable pub set_insert : Input → List Input → List Input
set_insert x [] = x ∷ []
set_insert x (y ∷ ys) =
    if input_lt x y then x ∷ y ∷ ys else if input_lt y x then y ∷ set_insert x ys else y ∷ ys

-- `insert(first, last)`
unfoldable pub insert_range : List Input → List Input → List Input
insert_range [] s = s
insert_range (x ∷ xs) s = insert_range xs (set_insert x s)

-- The elements of a set rise.
abbrev pub Above : Input → List Input → Type 0
Above x [] = Unit
Above x (y ∷ ys) = (input_lt x y ≡ true) × Above x ys

abbrev pub IsRising : List Input → Type 0
IsRising [] = Unit
IsRising (x ∷ xs) = Above x xs × IsRising xs

lt_trans : (a b c : Input) → input_lt a b ≡ true → input_lt b c ≡ true → input_lt a c ≡ true
unfolding input_lt
lt_trans a b c p q = ground arith

lt_total : (a b : Input) → input_lt a b ≡ false → input_lt b a ≡ false → a ≡ b
unfolding input_lt
lt_total a b p q = ground arith

lt-ne : (a b : Input) → input_lt a b ≡ true → input_beq b a ≡ false
unfolding input_lt
lt-ne a b p = ground arith

gt-ne : (a b : Input) → input_lt b a ≡ true → input_beq b a ≡ false
unfolding input_lt
gt-ne a b p = ground arith

Above-trans : (a b : Input) (xs : List Input) → input_lt a b ≡ true → Above b xs → Above a xs
Above-trans a b [] p h = tt
Above-trans a b (x ∷ xs) p h = (lt_trans a b x p h.0, Above-trans a b xs p h.1)

Above-not_in : (x : Input) (xs : List Input) → Above x xs → contains xs x ≡ false
Above-not_in x [] h = refl
Above-not_in x (y ∷ ys) h = ground (arith, lt-ne x y h.0, Above-not_in x ys h.1)

set_insert-Above :
    (a x : Input) (s : List Input) → input_lt a x ≡ true → Above a s → Above a (set_insert x s)
unfolding set_insert
set_insert-Above a x [] p h = (p, tt)
set_insert-Above a x (y ∷ ys) p h = ground (arith, set_insert-Above a x ys p h.1)

set_insert-IsRising : (x : Input) (s : List Input) → IsRising s → IsRising (set_insert x s)
unfolding set_insert
set_insert-IsRising x [] h = (tt, tt)
set_insert-IsRising x (y ∷ ys) h =
    ground (arith, Above-trans x y ys, set_insert-Above y x ys, set_insert-IsRising x ys h.1)

contains-set_insert :
    (x z : Input) (s : List Input) → contains (set_insert x s) z ≡ (input_beq x z || contains s z)
unfolding set_insert
contains-set_insert x z [] = refl
contains-set_insert x z (y ∷ ys) = ground (arith, lt_total x y, contains-set_insert x z ys)

length-set_insert :
    (x : Input) (s : List Input)
    → IsRising s
    → length (set_insert x s) ≡ (if contains s x then length s else suc (length s))
unfolding set_insert
length-set_insert x [] h = refl
length-set_insert x (y ∷ ys) h = ground (
  arith,
  lt-ne x y,
  gt-ne x y,
  lt_total x y,
  Above-trans x y ys,
  Above-not_in x ys,
  length-set_insert x ys h.1,
  input_beq_iff y x,
)

-- The elements that are in the set already, or come twice, do not count.
length-insert_range-le :
    (xs s : List Input) → IsRising s → length (insert_range xs s) ≤ length xs + length s
unfolding insert_range
length-insert_range-le [] s h = omega arith
length-insert_range-le (x ∷ xs) s h = ground (
  arith,
  length-set_insert x s h,
  length-insert_range-le xs (set_insert x s) (set_insert-IsRising x s h),
)

-- No element of the first list is in the second.
abbrev pub Apart : List Input → List Input → Type 0
Apart [] s = Unit
Apart (x ∷ xs) s = (contains s x ≡ false) × Apart xs s

Apart-set_insert :
    (x : Input) (xs s : List Input)
    → Apart xs (set_insert x s) ↔ ((contains xs x ≡ false) × Apart xs s)
Apart-set_insert x [] s = ground arith
Apart-set_insert x (y ∷ xs) s = ground (
  arith,
  contains-set_insert x y s,
  Apart-set_insert x xs s,
  input_beq_iff x y,
  input_beq_iff y x,
)

-- The set grows by the length of the list exactly when its elements are new and distinct.
length-insert_range_iff :
    (xs s : List Input)
    → IsRising s
    → (length (insert_range xs s) ≡ length xs + length s) ↔ (Distinct xs × Apart xs s)
unfolding insert_range
length-insert_range_iff [] s h = ground arith
length-insert_range_iff (x ∷ xs) s h = ground (
  arith,
  length-set_insert x s h,
  length-insert_range-le xs (set_insert x s) (set_insert-IsRising x s h),
  length-insert_range_iff xs (set_insert x s) (set_insert-IsRising x s h),
  Apart-set_insert x xs s,
)

Apart-nil : (xs : List Input) → Apart xs []
Apart-nil [] = tt
Apart-nil (x ∷ xs) = (refl, Apart-nil xs)

-- Inserted into the empty set, a list keeps its length exactly when no element occurs twice.
pub length-insert_range-Distinct :
    (xs : List Input) → (length (insert_range xs []) ≡ length xs) ↔ Distinct xs
length-insert_range-Distinct xs = ground (arith, length-insert_range_iff xs [] tt, Apart-nil xs)

pub length-insert_range_nil-le : (xs : List Input) → length (insert_range xs []) ≤ length xs
length-insert_range_nil-le xs = omega (arith, length-insert_range-le xs [] tt)

pub insert_range-append :
    (xs ys s : List Input) → insert_range (xs ++ ys) s ≡ insert_range ys (insert_range xs s)
unfolding insert_range
insert_range-append [] ys s = refl
insert_range-append (x ∷ xs) ys s = insert_range-append xs ys (set_insert x s)
