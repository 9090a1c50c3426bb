-- ===== src/Filesystem/Block.antt =====
-- The package filesystem/block.
pub mod Index
pub mod Disk
pub mod IndexFile
pub mod ContentFile
pub mod Engine
pub mod Dump
mod Tests
