-- ===== src/Hardware/Padding.antt =====
-- `Wrapper::charToBinaryString` and `Wrapper::padding` of lib/interf/wrapper.cc.
use cosicoin.Base.{
  ℕ, [], ◌∷◌, ◌++◌, nat_eq, list_eq, length, if◌then◌else◌, ◌^◌, ◌+◌, ◌*◌, ◌%◌, ◌-◌, replicate, ltb,
}
use cosicoin.Base.Text.{Bytes, to_string}
use cosicoin.Texts.Keys.{bits_text}
use cosicoin.Signature.Bitset.{byte_bits}

-- `charToBinaryString`: eight characters for each byte, the highest bit first.
unfoldable pub char_to_binary : Bytes → Bytes
char_to_binary [] = []
char_to_binary (c ∷ s) = bits_text (byte_bits 8 c) ++ char_to_binary s

-- A "1", the zeros that are left of so many characters, and the length. A loop up to a negative
-- number makes no round.
unfoldable pub fill : ℕ → Bytes → Bytes → Bytes
fill total bin str_len =
    let zeros = replicate (total - length bin - length str_len - 1) b'0' in
    (bin ++ b'1' ∷ []) ++ (zeros ++ str_len)

-- `padding`, of a text of fewer than 2^28 bytes, whose number of bits fits the int `len`.
unfoldable pub padding : Bytes → Bytes
unfolding fill
padding s =
    let bin = char_to_binary s in
    let str_len = char_to_binary (to_string (length bin)) in
    if ltb (length bin) 448 then fill 512 bin str_len else fill (512 + 512) bin str_len

-- `number_blocks` of `calculate_hash` and `time_hw_hash`: 0 for one block of the board, else 1.
unfoldable pub number_blocks : Bytes → ℕ
number_blocks s = if ltb ((length s * 8) % 2 ^ 32) 448 then 0 else 1
