-- ===== src/Tests/Boards.antt =====
-- The hash hardware at a board that counts its accesses.
use cosicoin.Base.{
  ℕ, ◌++◌, ◌≡◌, refl, arith, nat_eq, list_eq, length, ◌+◌, replicate, some, ◌∷◌, [],
}
use cosicoin.Base.Text.{Bytes}
use cosicoin.Hardware.Interface.{
  Board, calculate_hash, test_program, interface_c, controls, load_writes, write_all, wait_ready,
  read_output, read_registers, second_half,
}
use cosicoin.Hardware.Padding.{number_blocks, padding}
use cosicoin.Hardware.Loaded.{calculate_hash_same_start}
use cosicoin.Hardware.Padded.{length-padding}

abbrev board : Board
board = record { State = ℕ; write = λ r v s. s + 1; read = λ r s. (r + s, s + 1) }

abbrev long_text : Bytes
long_text = replicate 60 b'a'

abbrev other_text : Bytes
other_text = replicate 32 b'a' ++ replicate 28 b'b'

length-padding_example : length (padding long_text) ≡ 1024
unfolding number_blocks
length-padding_example = length-padding long_text (omega arith)

-- Two texts of 60 bytes that differ after the first 32.
calculate_hash_same_start_example :
    calculate_hash board 5 long_text 0 ≡ calculate_hash board 5 other_text 0
unfolding number_blocks
calculate_hash_same_start_example =
    calculate_hash_same_start board 5 long_text other_text 0 (omega arith) (omega arith) refl refl

-- The test program, on a board whose registers answer with their number and the time.
test_program_runs : test_program board 1 0 ≡ some (42 ∷ 44 ∷ 46 ∷ 48 ∷ 50 ∷ 52 ∷ 54 ∷ 50 ∷ [], 52)
unfolding test_program interface_c controls load_writes write_all wait_ready read_output
    read_registers second_half
test_program_runs = refl
