-- ===== src/Hardware.antt =====
-- The hash of the board: include/interf, lib/interf and the test program verilog_code/main.c.
pub mod Padding
pub mod Words
pub mod Interface
pub mod Padded
pub mod Loaded
pub mod Answers
