-- ===== src/Signature/Roundtrip.antt =====
-- `bitset_to_string` undoes `string_to_bitset` on the strings that are signed and used as keys.
use cosicoin.Base.{
  ℕ, zero, suc, ◌*◌, ◌/◌, ◌<◌, ◌≡◌, refl, ap, Bool, List, [], ◌∷◌, length, All, arith, ◌^◌,
}
use native.Mathlib.Nat.{pow-suc}
use cosicoin.Base.Text.{Bytes}
use cosicoin.Signature.Bitset.{
  key_len, byte_bits, bits_byte, string_bits, fit, pack, string_to_bitset, bitset_to_string,
}
use cosicoin.Signature.Lamport.{length-fit}

abbrev pub IsByte : ℕ → Type 0
IsByte c = c < 256

bits_byte-byte_bits : (n c : ℕ) → c < 2 ^ n → bits_byte (byte_bits n c) ≡ c
unfolding bits_byte byte_bits
bits_byte-byte_bits zero c h = omega arith
bits_byte-byte_bits (suc n) c h =
    ground (arith, bits_byte-byte_bits n (c / 2) (omega (arith, pow-suc 2 n)))

pub fit-length : (bits : List Bool) → fit (length bits) bits ≡ bits
unfolding fit
fit-length [] = refl
fit-length (b ∷ bits) = ap (◌∷◌ b) (fit-length bits)

length-string_bits : (s : Bytes) → length (string_bits s) ≡ 8 * length s
unfolding string_bits byte_bits
length-string_bits [] = refl
length-string_bits (c ∷ s) = omega (arith, length-string_bits s)

pack-string_bits : (s : Bytes) → All IsByte s → pack (length s) (string_bits s) ≡ s
unfolding pack string_bits byte_bits
pack-string_bits [] h = refl
pack-string_bits (c ∷ s) (h, hs) = ground (arith, bits_byte-byte_bits 8 c h, pack-string_bits s hs)

-- A string of `key_len / 8` bytes comes back from its bitset.
pub bitset_to_string-string_to_bitset :
    (s : Bytes) → length s ≡ key_len / 8 → All IsByte s → bitset_to_string (string_to_bitset s) ≡ s
unfolding bitset_to_string string_to_bitset
bitset_to_string-string_to_bitset s e h =
    let n : length (string_bits s) ≡ key_len = omega (arith, length-string_bits s) in
    rw (← n, fit-length (string_bits s), ← e) (pack-string_bits s h)

pub length-string_to_bitset : (s : Bytes) → length (string_to_bitset s) ≡ key_len
unfolding string_to_bitset
length-string_to_bitset s = length-fit key_len (string_bits s)
