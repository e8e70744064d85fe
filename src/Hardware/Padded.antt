-- ===== src/Hardware/Padded.antt =====
-- The padding fills one or two blocks of the board, and what of it reaches the board.
use cosicoin.Base.{
  zero, suc, [], ◌∷◌, ◌≡◌, refl, arith, nat_eq, list_eq, length, ◌*◌, length-append, ℕ, ◌<◌,
  replicate, ◌+◌, ◌≤◌, ap, if◌then◌else◌, ◌==◌, ◌/◌, ◌++◌, ◌-◌, ◌%◌, sym, ◌∙◌,
}
use cosicoin.Base.Text.{Bytes, to_string, to_string_digit, to_string-push_digit}
use cosicoin.Hardware.Padding.{char_to_binary, fill, padding, number_blocks}
use cosicoin.Texts.Keys.{bits_text}
use cosicoin.Signature.Bitset.{byte_bits}

length-char_to_binary : (s : Bytes) → length (char_to_binary s) ≡ 8 * length s
unfolding char_to_binary bits_text byte_bits
length-char_to_binary [] = refl
length-char_to_binary (c ∷ s) =
    omega
      (arith, length-append (bits_text (byte_bits 8 c)) (char_to_binary s), length-char_to_binary s)

length-push_digit : (n : ℕ) → 10 ≤ n → length (to_string n) ≡ length (to_string (n / 10)) + 1
length-push_digit n h =
    let e : 10 * (n / 10) + n % 10 ≡ n = omega arith in
    let pushed = to_string-push_digit (n / 10) (n % 10) (omega (arith, h)) (omega arith) in
    omega (
      arith,
      ap length (ap to_string (sym e) ∙ pushed),
      length-append (to_string (n / 10)) ((b'0' + n % 10) ∷ []),
    )

length-to_string_digit : (n : ℕ) → n < 10 → length (to_string n) ≡ 1
length-to_string_digit n h = ap length (to_string_digit n h)

-- A number below a thousand has at most three digits.
length-to_string : (n : ℕ) → n < 1000 → length (to_string n) ≤ 3
length-to_string n h = ground (
  arith,
  length-push_digit n,
  length-push_digit (n / 10),
  length-to_string_digit n,
  length-to_string_digit (n / 10),
  length-to_string_digit (n / 10 / 10),
)

length-replicate {ℓ} : {A : Type ℓ} (n : ℕ) (a : A) → length (replicate n a) ≡ n
length-replicate zero a = refl
length-replicate (suc n) a = ap suc (length-replicate n a)

length-fill :
    (total : ℕ) (bin str_len : Bytes)
    → length bin + length str_len + 1 ≤ total
    → length (fill total bin str_len) ≡ total
unfolding fill
length-fill total bin str_len h =
    let zeros : Bytes = replicate (total - length bin - length str_len - 1) b'0' in
    let sum : length ((bin ++ b'1' ∷ []) ++ (zeros ++ str_len)) ≡ total = omega (
      arith,
      h,
      length-append (bin ++ b'1' ∷ []) (zeros ++ str_len),
      length-append bin (b'1' ∷ []),
      length-append zeros str_len,
      length-replicate {A = ℕ} (total - length bin - length str_len - 1) b'0',
    ) in
    sum

-- The padded text of at most 124 bytes fills one block of 512 characters if there are fewer than 56
-- bytes, and two blocks if there are more.
pub length-padding :
    (s : Bytes) → length s ≤ 124 → length (padding s) ≡ (if number_blocks s == 0 then 512 else 1024)
unfolding padding number_blocks
length-padding s h =
    let bin = char_to_binary s in
    let str_len = char_to_binary (to_string (length bin)) in
    ground (
      arith,
      length-char_to_binary s,
      length-char_to_binary (to_string (length bin)),
      length-to_string (length bin),
      length-fill 512 bin str_len,
      length-fill 1024 bin str_len,
    )
