-- ===== src/Wallet.antt =====
-- The wallet: include/cryptowallet/wallet.h, lib/cryptowallet/wallet.cc and lib/json/jsonparser.cc.
pub mod Info
pub mod Create
pub mod Accepted
pub mod Paid
