-- ===== src/Base/Result.antt =====
-- C++ exceptions as values.
use mathlib.Core.Logic.{◌⊎◌, inl, inr}
use mathlib.Core.Path.{◌≡◌, refl}
use mathlib.Core.Bool.{Bool, true, false}

-- What the sources throw, and a failed `assert`.
pub data Error : Type 0 where
  immutable_block mutable_block key_length_error json_error : Error
  random_error file_error no_such_block unexpected_value : Error
  invalid_argument assertion_failed undefined_behaviour : Error

pub data Result {ℓ} (V : Type ℓ) : Type ℓ where
  err : Error → Result V
  ok : V → Result V

-- `assert(b)`, or `if (!b) throw e`.
abbrev pub guard : Bool → Error → Result (Unit {0})
guard false e = err e
guard true _ = ok tt

infixl 5 ◌>>=◌ ◌>>◌
abbrev pub ◌>>=◌ {ℓ κ} : {V : Type ℓ} {W : Type κ} → Result V → (V → Result W) → Result W
err e >>= k = err e
ok v >>= k = k v

module _ {ℓ κ} {V : Type ℓ} {W : Type κ} where
  -- A sequence that returns has a first part that returns.
  pub >>=-eq-ok :
      (m : Result V) (k : V → Result W) {w : W}
      → (m >>= k) ≡ ok w
      → (v : V) × (m ≡ ok v) × (k v ≡ ok w)
  >>=-eq-ok (err e) k p = cc
  >>=-eq-ok (ok v) k p = (v, refl, p)

abbrev pub ◌>>◌ {ℓ} : {W : Type ℓ} → Result (Unit {0}) → Result W → Result W
first >> k = first >>= λ _. k

-- A result that is an exception.
abbrev pub Throws {ℓ} : {V : Type ℓ} → Result V → Type ℓ
Throws m = (e : Error) × (m ≡ err e)

module _ {ℓ κ} {V : Type ℓ} {W : Type κ} where
  pub Throws-first : (m : Result V) (k : V → Result W) → Throws m → Throws (m >>= k)
  Throws-first (err e) k t = (e, refl)
  Throws-first (ok v) k (e, p) = absurd (cc p)

  pub Throws-rest : (m : Result V) (k : V → Result W) → ((v : V) → Throws (k v)) → Throws (m >>= k)
  Throws-rest (err e) k t = (e, refl)
  Throws-rest (ok v) k t = t v

pub Result-cases {ℓ} :
    {V : Type ℓ} (r : Result V) → ((e : Error) × (r ≡ err e)) ⊎ ((v : V) × (r ≡ ok v))
Result-cases (err e) = inl (e, refl)
Result-cases (ok v) = inr (v, refl)

pub ok-inj {ℓ} : {V : Type ℓ} {v w : V} → ok v ≡ ok w → v ≡ w
ok-inj p = cc p
