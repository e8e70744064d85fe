-- ===== src/Base/Text.antt =====
-- `std::string` as its bytes, and `std::to_string` of an unsigned number.
use Prim.Native.Nat.{ℕ, zero, suc, ◌+◌, ◌*◌, ◌/◌, ◌%◌, ◌<◌}
use Prim.Native.Char.{code}
use Prim.Native.String.{String}
use mathlib.Core.Path.{◌≡◌}
use mathlib.Core.List.{List, [], ◌∷◌, ◌++◌}
use native.Mathlib.Omega.{arith}
use cosicoin.Base.Tests.{ltb, if◌then◌else◌}

abbrev pub Bytes : Type 0
Bytes = List ℕ

-- The bytes of an ASCII literal.
abbrev pub text : String → Bytes
text String.[] = []
text (String.◌∷◌ c s) = code c ∷ text s

-- The decimal digits, on fuel.
to_string_fuel : ℕ → ℕ → Bytes
to_string_fuel zero n = []
to_string_fuel (suc f) n =
    let rest = to_string_fuel f (n / 10) in
    if ltb n 10 then (b'0' + n) ∷ [] else rest ++ ((b'0' + n % 10) ∷ [])

unfoldable pub to_string : ℕ → Bytes
unfolding to_string_fuel
to_string n = to_string_fuel (suc n) n

-- More fuel than the number changes nothing.
to_string_fuel_enough : (f g n : ℕ) → n < f → n < g → to_string_fuel f n ≡ to_string_fuel g n
unfolding to_string_fuel
to_string_fuel_enough zero g n h k = elim h [ ]
to_string_fuel_enough (suc f) zero n h k = elim k [ ]
to_string_fuel_enough (suc f) (suc g) n h k = ground (arith, to_string_fuel_enough f g (n / 10))

-- A last digit is a last byte.
pub to_string-push_digit :
    (a d : ℕ) → 0 < a → d < 10 → to_string (10 * a + d) ≡ to_string a ++ ((b'0' + d) ∷ [])
unfolding to_string
to_string-push_digit a d h k =
    ground (arith, to_string_fuel_enough (10 * a + d) (suc a) ((10 * a + d) / 10))

pub to_string_digit : (d : ℕ) → d < 10 → to_string d ≡ (b'0' + d) ∷ []
unfolding to_string
to_string_digit d h = ground arith
