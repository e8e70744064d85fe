-- ===== src/Hardware/Loaded.antt =====
-- Which words `interface_c` writes, and what the hash depends on.
use mathlib.Core.List.{append_assoc}
use cosicoin.Base.{
  ℕ, zero, suc, List, [], ◌∷◌, ◌++◌, ◌≡◌, refl, sym, ap, ◌∙◌, arith, inl, inr, nat_eq, list_eq,
  ◌==◌, length, if◌then◌else◌, ◌≤◌, ◌^◌, ◌+◌, ◌%◌, ◌-◌, take, drop, take-length, map, Bool-cases,
  ltb, replicate, reverse,
}
use cosicoin.Base.Text.{Bytes, to_string}
use cosicoin.Hardware.Interface.{
  at_word, load_writes, second_half, controls, calculate_hash, calculate_hash_c, Board,
}
use cosicoin.Hardware.Words.{decimal, string_words, array_size, string_to_array}
use cosicoin.Hardware.Padding.{padding, char_to_binary, fill, number_blocks}
use cosicoin.Texts.Keys.{bits_text}
use cosicoin.Signature.Bitset.{byte_bits}

-- The values that are written to the registers of data.
unfoldable pub data_words : List (ℕ × ℕ) → List ℕ
data_words [] = []
data_words ((r, v) ∷ ws) = let rest = data_words ws in if r == 0 then rest else v ∷ rest

-- The words of an array from `i` on.
range : List ℕ → ℕ → ℕ → List ℕ
range b i zero = []
range b i (suc n) = at_word b i ∷ range b (suc i) n

range-cons : (w : ℕ) (b : List ℕ) (i n : ℕ) → range (w ∷ b) (suc i) n ≡ range b i n
unfolding range
range-cons w b i zero = refl
range-cons w b i (suc n) = ap (◌∷◌ (at_word b i)) (range-cons w b (suc i) n)

range-take : (b : List ℕ) (n : ℕ) → n ≤ length b → range b 0 n ≡ take n b
unfolding range
range-take b zero h = refl
range-take [] (suc n) h = absurd (omega (arith, h))
range-take (w ∷ b) (suc n) h = ap (◌∷◌ w) (range-cons w b 0 n ∙ range-take b n (omega (arith, h)))

range-drop : (b : List ℕ) (i n : ℕ) → length b ≡ i + n → range b i n ≡ drop i b
unfolding range
range-drop b zero n h =
    range-take b n (omega (arith, h)) ∙ (ap (λ k. take k b) (omega (arith, h)) ∙ take-length b)
range-drop [] (suc i) n h = absurd (omega (arith, h))
range-drop (w ∷ b) (suc i) n h = range-cons w b i n ∙ range-drop b i n (omega (arith, h))

-- The words are written once each: the upper half of the array in rising order, then for two blocks
-- the lower half, and for one block five words of it.
data_words-load_writes :
    (k : ℕ) (b : List ℕ)
    → length b ≡ array_size
    → data_words (load_writes k (controls k) b) ≡ drop 16 b ++ take (if k == 0 then 5 else 16) b
unfolding data_words load_writes second_half controls range
data_words-load_writes k b h = elim (Bool-cases (k == 0)) [
  | inl p ↦ rw (load_writes, p, ← range-drop b 16 16 h, ← range-take b 5 (omega (arith, h))) refl
  | inr p ↦ rw (load_writes, p, ← range-drop b 16 16 h, ← range-take b 16 (omega (arith, h))) refl
]

-- The word of one byte.
byte_word : ℕ → ℕ
byte_word c = decimal 0 (bits_text (byte_bits 8 c)) % 2 ^ 32

string_words-char_to_binary :
    (k : ℕ) (s rest : Bytes)
    → k ≤ length s
    → string_words k (char_to_binary s ++ rest) ≡ map byte_word (take k s)
unfolding string_words char_to_binary bits_text byte_bits byte_word
string_words-char_to_binary zero s rest h = refl
string_words-char_to_binary (suc k) [] rest h = absurd (omega (arith, h))
string_words-char_to_binary (suc k) (c ∷ s) rest h =
    ap (◌∷◌ (byte_word c)) (string_words-char_to_binary k s rest (omega (arith, h)))

fill-starts :
    (total : ℕ) (bin str_len : Bytes) → (rest : Bytes) × (fill total bin str_len ≡ bin ++ rest)
unfolding fill
fill-starts total bin str_len =
    let zeros : Bytes = replicate (total - length bin - length str_len - 1) b'0' in
    (b'1' ∷ (zeros ++ str_len), append_assoc bin (b'1' ∷ []) (zeros ++ str_len))

padding-starts : (s : Bytes) → (rest : Bytes) × (padding s ≡ char_to_binary s ++ rest)
unfolding padding
padding-starts s =
    let bin = char_to_binary s in
    let str_len = char_to_binary (to_string (length bin)) in
    elim (Bool-cases (ltb (length bin) 448)) [
      | inl short ↦ let (rest, p) = fill-starts 512 bin str_len in (rest, rw (padding, short) p)
      | inr long ↦ let (rest, p) = fill-starts 1024 bin str_len in (rest, rw (padding, long) p)
    ]

string_to_array-padding :
    (s : Bytes)
    → array_size ≤ length s
    → string_to_array (padding s) ≡ reverse (map byte_word (take array_size s))
unfolding string_to_array
string_to_array-padding s h =
    let (rest, p) = padding-starts s in
    rw p (ap reverse (string_words-char_to_binary array_size s rest h))

-- The hash of the board depends on the first 32 bytes and on the number of blocks alone.
pub calculate_hash_same_start :
    (board : Board) (fuel : ℕ) (a b : Bytes) (s : board.State)
    → array_size ≤ length a
    → array_size ≤ length b
    → take array_size a ≡ take array_size b
    → number_blocks a ≡ number_blocks b
    → calculate_hash board fuel a s ≡ calculate_hash board fuel b s
unfolding calculate_hash calculate_hash_c
calculate_hash_same_start board fuel a b s ha hb start n =
    let same : string_to_array (padding a) ≡ string_to_array (padding b) =
      string_to_array-padding a ha
      ∙ ap (λ t. reverse (map byte_word t)) start
      ∙ sym (string_to_array-padding b hb) in
    rw (same, n) refl
