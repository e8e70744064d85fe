-- ===== src/Hardware/Answers.antt =====
-- `interface_c` comes back once the board is ready.
use cosicoin.Base.{
  ℕ, zero, suc, true, false, some, List, ◌≡◌, refl, ap, ◌∙◌, arith, nat_eq, list_eq, ◌==◌, length,
  ◌<◌, length-reverse,
}
use cosicoin.Hardware.Interface.{
  Board, wait_ready, read_registers, read_output, interface_c, Controls, write_all, load_writes,
  controls,
}

module _ (board : Board) where
  open board use {State, read}

  -- The board leaves its register 0 at 0 for so many reads.
  pub data Answers : ℕ → State → Type 0 where
    at_once : (s : State) → ((read 0 s).0 == 0) ≡ false → Answers 0 s
    later :
        {n : ℕ} (s : State)
        → ((read 0 s).0 == 0) ≡ true
        → Answers n (read 0 s).1
        → Answers (suc n) s

  wait_ready_returns :
      (fuel : ℕ) {n : ℕ} (s : State)
      → Answers n s
      → n < fuel
      → (s' : State) × (wait_ready board fuel s ≡ some s')
  unfolding wait_ready
  wait_ready_returns zero s a h = absurd (omega (arith, h))
  wait_ready_returns (suc fuel) s (at_once _ p) h = ((read 0 s).1, rw p refl)
  wait_ready_returns (suc fuel) s (later _ p a) h =
      let (s', q) = wait_ready_returns fuel (read 0 s).1 a (omega (arith, h)) in (s', rw p q)

  length-read_registers : (n r : ℕ) (s : State) → length (read_registers board r n s).0 ≡ n
  unfolding read_registers
  length-read_registers zero r s = refl
  length-read_registers (suc n) r s = ap suc (length-read_registers n (suc r) (read r s).1)

  length-read_output : (c : Controls) (s : State) → length (read_output board c s).0 ≡ 8
  unfolding read_output
  length-read_output c s = ap suc (
      length-reverse (read_registers board 1 7 (board.write 0 c.first_output_read s)).0
      ∙ length-read_registers 7 1 (board.write 0 c.first_output_read s))

  -- When the board is ready after fewer polls than there is fuel, `interface_c` returns eight words.
  interface_c_returns :
      (fuel n k : ℕ) (b : List ℕ) (s : State)
      → Answers n (write_all board (load_writes k (controls k) b) s)
      → n < fuel
      → (out : List ℕ) × (s' : State) × (interface_c board fuel b k s ≡ some (out, s'))
        × (length out ≡ 8)
  unfolding interface_c
  interface_c_returns fuel n k b s a h =
      let (s1, p) =
        wait_ready_returns fuel (write_all board (load_writes k (controls k) b) s) a h in
      (
        (read_output board (controls k) s1).0,
        (read_output board (controls k) s1).1,
        rw p refl,
        length-read_output (controls k) s1,
      )
