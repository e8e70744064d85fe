-- ===== src/Hardware/Words.antt =====
-- The words that go to the board and come from it: `stringToUint32Array` and `uint32ArrayToString` of
-- lib/interf/wrapper.c.
use cosicoin.Base.{
  ℕ, zero, suc, List, [], ◌∷◌, ◌++◌, nat_eq, list_eq, ◌==◌, ◌&&◌, if◌then◌else◌, ◌^◌, ◌+◌, ◌*◌, ◌%◌,
  ◌/◌, ◌-◌, leb, take, reverse, drop,
}
use cosicoin.Base.Text.{Bytes}

abbrev pub array_size : ℕ
array_size = 32

-- `strtoul(s, &ptr, 10)` of a string without blanks and signs, which `padding` makes: the digits up
-- to the first other character.
unfoldable pub decimal : ℕ → Bytes → ℕ
decimal acc [] = acc
decimal acc (c ∷ s) =
    let rest = decimal (10 * acc + (c - b'0')) s in if leb b'0' c && leb c b'9' then rest else acc

-- The words of the first substrings of eight characters; past the end of the string they stay 0.
unfoldable pub string_words : ℕ → Bytes → List ℕ
string_words zero s = []
string_words (suc n) [] = 0 ∷ string_words n []
string_words (suc n) (c ∷ s) = decimal 0 (take 8 (c ∷ s)) % 2 ^ 32 ∷ string_words n (drop 8 (c ∷ s))

-- `stringToUint32Array`: the first word stands last.
unfoldable pub string_to_array : Bytes → List ℕ
string_to_array s = reverse (string_words array_size s)

-- The four characters of a word, the lowest byte first.
unfoldable pub word_chars : ℕ → ℕ → Bytes
word_chars zero w = []
word_chars (suc k) w = w % 256 ∷ word_chars k (w / 256)

unfoldable pub words_chars : List ℕ → Bytes
words_chars [] = []
words_chars (w ∷ ws) = word_chars 4 w ++ words_chars ws

-- `uint32ArrayToString`, from the last word to the first, without the final NUL.
unfoldable pub array_to_string : List ℕ → Bytes
array_to_string ws = words_chars (reverse ws)

-- `std::string(s)` of a C string ends at the first NUL.
unfoldable pub until_nul : Bytes → Bytes
until_nul [] = []
until_nul (c ∷ s) = let rest = until_nul s in if c == 0 then [] else c ∷ rest
