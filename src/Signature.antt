-- ===== src/Signature.antt =====
-- Lamport one-time signatures: include/signature/hash.h and lib/signature/hash.cc.
pub mod Bitset
pub mod Keys
pub mod Sign
pub mod Lamport
pub mod Roundtrip
