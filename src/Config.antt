-- ===== src/Config.antt =====
-- The configuration: include/config/settings.h and lib/config/settings.cc.
pub mod Settings
pub mod Roundtrip
