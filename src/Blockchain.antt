-- ===== src/Blockchain.antt =====
-- The data of the chain: include/blockchain and lib/blockchain.
pub mod Coins
pub mod Transaction
pub mod Spending
pub mod Digest
pub mod Equality
pub mod Header
pub mod Merkle
pub mod MerkleRoot
pub mod InputSet
pub mod Block
pub mod Verify
pub mod Lifecycle
pub mod Message
pub mod CoinOrder
