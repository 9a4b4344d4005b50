-- ===== src/Plugin.antt =====
-- The validator plugin, crate plugin-agave.
pub mod Message
pub mod Transaction
pub mod BTree
pub mod Channel
pub mod Encoding
