-- ===== src/Hardware/Interface.antt =====
-- `interface_c` of lib/interf/interface.c, `calculate_hash_c` and `calculate_hash` of lib/interf, and
-- the test program verilog_code/main.c. The board, its registers in mapped memory, is a parameter;
-- opening and closing the memory, the times and the output of the test program are left out.
use cosicoin.Base.{
  ℕ, zero, suc, Option, none, some, List, [], ◌∷◌, ◌++◌, nat_eq, list_eq, ◌==◌, if◌then◌else◌,
  get_or, reverse,
}
use cosicoin.Base.Text.{Bytes}
use mathlib.Core.Option
use cosicoin.Hardware.Words.{array_to_string, until_nul, string_to_array}
use cosicoin.Hardware.Padding.{padding, number_blocks}

-- What the board does on an access of a register.
pub record Board : Type 1 where
  pub State : Type 0
  pub write : ℕ → ℕ → State → State
  pub read : ℕ → State → ℕ × State

-- The control words for one block, or for two.
pub record Controls : Type 0 where
  pub start : ℕ
  pub first_read : ℕ
  pub second_read : ℕ
  pub third_read : ℕ
  pub fourth_read : ℕ
  pub fifth_read : ℕ
  pub first_output_read : ℕ
  pub second_output_read : ℕ
  pub finish : ℕ

abbrev pub one_block : Controls
one_block = record {
  start = 0x1;
  first_read = 0x5;
  second_read = 0x9;
  third_read = 0x11;
  fourth_read = 0x0;
  fifth_read = 0x0;
  first_output_read = 0x81;
  second_output_read = 0x101;
  finish = 0x201;
}

abbrev pub two_blocks : Controls
two_blocks = record {
  start = 0x3;
  first_read = 0x7;
  second_read = 0xb;
  third_read = 0x13;
  fourth_read = 0x23;
  fifth_read = 0x43;
  first_output_read = 0x83;
  second_output_read = 0x103;
  finish = 0x203;
}

unfoldable pub controls : ℕ → Controls
controls number_blocks = if number_blocks == 0 then one_block else two_blocks

-- `block[i]` of an array of 32 words.
abbrev pub at_word : List ℕ → ℕ → ℕ
at_word b i = get_or b i 0

-- The writes of the second half, only made when there are two blocks.
unfoldable pub second_half : Controls → List ℕ → List (ℕ × ℕ)
second_half c b =
    (1, at_word b 5)
    ∷ (2, at_word b 6)
    ∷ (3, at_word b 7)
    ∷ (4, at_word b 8)
    ∷ (5, at_word b 9)
    ∷ (6, at_word b 10)
    ∷ (7, at_word b 11)
    ∷ (0, c.fourth_read)
    ∷ (1, at_word b 12)
    ∷ (2, at_word b 13)
    ∷ (3, at_word b 14)
    ∷ (4, at_word b 15)
    ∷ (0, c.fifth_read)
    ∷ []

-- The writes up to the loop that waits, as pairs of a register and a value.
unfoldable pub load_writes : ℕ → Controls → List ℕ → List (ℕ × ℕ)
unfolding second_half
load_writes number_blocks c b =
    ((1, at_word b 16)
      ∷ (2, at_word b 17)
      ∷ (3, at_word b 18)
      ∷ (4, at_word b 19)
      ∷ (5, at_word b 20)
      ∷ (6, at_word b 21)
      ∷ (7, at_word b 22)
      ∷ (0, 0)
      ∷ (0, c.start)
      ∷ (0, c.first_read)
      ∷ (1, at_word b 23)
      ∷ (2, at_word b 24)
      ∷ (3, at_word b 25)
      ∷ (4, at_word b 26)
      ∷ (5, at_word b 27)
      ∷ (6, at_word b 28)
      ∷ (7, at_word b 29)
      ∷ (0, c.second_read)
      ∷ (1, at_word b 30)
      ∷ (2, at_word b 31)
      ∷ (3, at_word b 0)
      ∷ (4, at_word b 1)
      ∷ (5, at_word b 2)
      ∷ (6, at_word b 3)
      ∷ (7, at_word b 4)
      ∷ (0, c.third_read)
      ∷ [])
    ++ (if number_blocks == 0 then [] else second_half c b)

-- `block` of verilog_code/main.c, a message of 448 bits with its padding.
abbrev pub test_words : List ℕ
test_words =
    0x1c0 ∷ 0 ∷ 0 ∷ 0 ∷ 0 ∷ 0 ∷ 0 ∷ 0 ∷ 0 ∷ 0 ∷ 0 ∷ 0 ∷ 0 ∷ 0 ∷ 0 ∷ 0 ∷ 0 ∷ 0x80000000 ∷ 0x6e6f7071
    ∷ 0x6d6e6f70 ∷ 0x6c6d6e6f ∷ 0x6b6c6d6e ∷ 0x6a6b6c6d ∷ 0x696a6b6c ∷ 0x68696a6b ∷ 0x6768696a
    ∷ 0x66676869 ∷ 0x65666768 ∷ 0x64656667 ∷ 0x63646566 ∷ 0x62636465 ∷ 0x61626364 ∷ []

module _ (board : Board) where
  open board use {State, write, read}

  unfoldable pub write_all : List (ℕ × ℕ) → State → State
  write_all [] s = s
  write_all ((r, v) ∷ ws) s = write_all ws (write r v s)

  -- `while (hw_base[0] == 0x0) {}`; `none` says that the fuel ran out.
  unfoldable pub wait_ready : ℕ → State → Option State
  wait_ready zero s = none
  wait_ready (suc fuel) s =
      let (v, s') = read 0 s in let rest = wait_ready fuel s' in if v == 0 then rest else some s'

  -- The registers from `r` on, so many of them.
  unfoldable pub read_registers : ℕ → ℕ → State → List ℕ × State
  read_registers r zero s = ([], s)
  read_registers r (suc n) s =
      let (v, s1) = read r s in let (vs, s2) = read_registers (suc r) n s1 in (v ∷ vs, s2)

  -- What follows the loop: eight words, the last one first, and the state.
  unfoldable pub read_output : Controls → State → List ℕ × State
  unfolding read_registers
  read_output c s0 =
      let (out, s1) = read_registers 1 7 (write 0 c.first_output_read s0) in
      let (out8, s2) = read 1 (write 0 c.second_output_read s1) in
      (out8 ∷ reverse out, write 0 0 (write 0 c.finish s2))

  -- `interface_c`
  unfoldable pub interface_c : ℕ → List ℕ → ℕ → State → Option (List ℕ × State)
  unfolding controls load_writes write_all wait_ready read_output
  interface_c fuel b number_blocks s =
      let c = controls number_blocks in
      Option.map (read_output c) (wait_ready fuel (write_all (load_writes number_blocks c b) s))

  -- `calculate_hash_c`: the string that is made of the words of the board.
  unfoldable pub calculate_hash_c : ℕ → Bytes → ℕ → State → Option (Bytes × State)
  calculate_hash_c fuel input number_blocks s =
      Option.map (λ r. (array_to_string r.0, r.1))
        (interface_c fuel (string_to_array input) number_blocks s)

  -- `Wrapper::calculate_hash`. The pointer to the time, which is never set, is left out.
  unfoldable pub calculate_hash : ℕ → Bytes → State → Option (Bytes × State)
  calculate_hash fuel input s =
      Option.map (λ r. (until_nul r.0, r.1))
        (calculate_hash_c fuel (padding input) (number_blocks input) s)

  -- `main` of verilog_code/main.c, whose accesses are those of `interface_c` for two blocks: the words
  -- in the order in which it prints them.
  unfoldable pub test_program : ℕ → State → Option (List ℕ × State)
  test_program fuel s = Option.map (λ r. (reverse r.0, r.1)) (interface_c fuel test_words 1 s)
