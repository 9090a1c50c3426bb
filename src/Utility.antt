-- ===== src/Utility.antt =====
-- The helpers of the package utility.
pub mod Kvstore
pub mod Wildcard
pub mod Pool
pub mod Array
pub mod Context
pub mod Naming
