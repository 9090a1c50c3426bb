-- ===== src/Api.antt =====
-- The package api: what it answers with.
pub mod AcceptEncoder
pub mod Tags
pub mod Params
