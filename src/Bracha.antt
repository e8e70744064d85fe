-- ===== src/Bracha.antt =====
-- The consensus node: include/bracha/node.h and lib/bracha/node.cc.
pub mod Node
pub mod Receive
pub mod Broadcast
pub mod Keys
pub mod Chain
pub mod Frame
pub mod Quorum
pub mod Entries
pub mod Trust
pub mod Sent
pub mod Quiet
pub mod Live
pub mod Rounds
pub mod Start
pub mod Run
pub mod Fault
