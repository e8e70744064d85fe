-- ===== src/Base/Word.antt =====
-- Machine integers. A `uint64_t` is a number below 2^64; an `int` is kept as its bit pattern, a
-- number below 2^32, and the conversions are written out.
use Prim.Native.Nat.{ℕ, ◌+◌, ◌-◌, ◌%◌, ◌^◌, ◌<◌}
use mathlib.Core.Path.{◌≡◌}
use native.Mathlib.Omega.{arith}
use cosicoin.Base.Tests.{ltb, if◌then◌else◌}
use cosicoin.Base.{Bool}

-- `int total; total += v` for an unsigned 64-bit `v`: the sum is taken modulo 2^64 and stored in
-- 32 bits.
unfoldable pub int_add : ℕ → ℕ → ℕ
int_add a v = ((a + v) % 2 ^ 64) % 2 ^ 32

-- An `int` that meets a 64-bit unsigned operand is sign-extended.
unfoldable pub int_to_u64 : ℕ → ℕ
int_to_u64 x = if ltb x (2 ^ 31) then x else x + 2 ^ 64 - 2 ^ 32

-- `<` of two `int`s by their bit patterns.
unfoldable pub int_lt : ℕ → ℕ → Bool
int_lt x y = ltb ((x + 2 ^ 31) % 2 ^ 32) ((y + 2 ^ 31) % 2 ^ 32)

pub int_add_lem : (a v : ℕ) → int_add a v ≡ (a + v) % 2 ^ 32
unfolding int_add
int_add_lem a v = omega arith

pub int_to_u64_small : (x : ℕ) → x < 2 ^ 31 → int_to_u64 x ≡ x
unfolding int_to_u64
int_to_u64_small x h = ground arith

-- A number that fits is stored unchanged.
pub mod_small : (n m : ℕ) → n < m → n % m ≡ n
mod_small n m h = grind arith
