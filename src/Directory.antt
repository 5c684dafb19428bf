-- ===== src/Directory.antt =====
-- The package directory/: an agent directory served over HTTP.
pub mod Cards
pub mod Resolver
pub mod Cursor
pub mod Handler
