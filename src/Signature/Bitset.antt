-- ===== src/Signature/Bitset.antt =====
-- `bitset_to_string` and `string_to_bitset`. A bitset is the list of its bits from index 0.
use cosicoin.Base.{
  ℕ, zero, suc, ◌+◌, ◌*◌, ◌/◌, ◌%◌, Bool, false, List, [], ◌∷◌, ◌++◌, eqb, take, if◌then◌else◌,
}
use cosicoin.Base.Text.{Bytes}

abbrev pub key_len : ℕ
key_len = 256

-- The bits of a byte, least significant first: `(byte >> j) & 1` for `j` from 0.
unfoldable pub byte_bits : ℕ → ℕ → List Bool
byte_bits zero b = []
byte_bits (suc j) b = eqb (b % 2) 1 ∷ byte_bits j (b / 2)

-- `byte |= bits[j] << j`
unfoldable pub bits_byte : List Bool → ℕ
bits_byte [] = 0
bits_byte (b ∷ bs) = (if b then 1 else 0) + 2 * bits_byte bs

unfoldable pub string_bits : Bytes → List Bool
string_bits [] = []
string_bits (c ∷ s) = byte_bits 8 c ++ string_bits s

-- A bitset of `n` bits: what no character sets is 0. (A write past the end is undefined in C++:
-- `sign` and `verify` crop the string to `key_len / 8` bytes first, `signature_to_json` does not.)
unfoldable pub fit : ℕ → List Bool → List Bool
fit zero bits = []
fit (suc n) [] = false ∷ fit n []
fit (suc n) (b ∷ bits) = b ∷ fit n bits

unfoldable pub string_to_bitset : Bytes → List Bool
string_to_bitset s = fit key_len (string_bits s)

-- `n` bytes from groups of eight bits.
unfoldable pub pack : ℕ → List Bool → Bytes
pack zero bits = []
pack (suc n) (a ∷ b ∷ c ∷ d ∷ e ∷ f ∷ g ∷ h ∷ bits) =
    bits_byte (a ∷ b ∷ c ∷ d ∷ e ∷ f ∷ g ∷ h ∷ []) ∷ pack n bits
pack (suc n) bits = []

unfoldable pub bitset_to_string : List Bool → Bytes
bitset_to_string bits = pack (key_len / 8) bits

-- `m.substr(0, KEY_LEN_ / 8)` when the message is longer than that.
unfoldable pub crop : Bytes → Bytes
crop m = take (key_len / 8) m
