-- ===== src/Tests.antt =====
-- The theorems at concrete inputs, and runs of the model.
mod Sample
mod Signatures
mod Chain
mod Nodes
mod Validators
mod Services
mod Boards
mod Codec
mod Texts
mod Votes
