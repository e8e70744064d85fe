-- ===== src/Validator.antt =====
-- The validator: include/cryptowallet/validator.h and lib/cryptowallet/validator.cc.
pub mod State
pub mod Events
pub mod Pool
pub mod Settle
pub mod Admission
pub mod Creation
pub mod Acceptance
pub mod Reruns
pub mod Listen
pub mod Settlement
pub mod Spent
pub mod Proposal
