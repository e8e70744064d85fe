-- ===== src/Storage.antt =====
-- The database: include/database/database.h and lib/database/database.cc.
pub mod Database
pub mod Links
pub mod Reload
pub mod Unsigned
