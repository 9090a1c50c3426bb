-- ===== src/Filesystem.antt =====
-- The package filesystem.
pub mod Block
pub mod Lru
