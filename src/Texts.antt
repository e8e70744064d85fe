-- ===== src/Texts.antt =====
-- The JSON texts of keys, signatures, transactions and blocks: `to_string` and `from_string`.
pub mod Plain
pub mod Keys
pub mod KeysBack
pub mod SignaturesBack
pub mod Transactions
pub mod CoinsBack
pub mod TransactionsBack
pub mod Blocks
pub mod PartsBack
pub mod BlocksBack
pub mod Missing
