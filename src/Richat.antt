-- ===== src/Richat.antt =====
-- The relay process, crate richat.
pub mod Binary
pub mod SlotInfo
pub mod Channel
pub mod BlockMeta
pub mod Blockhash
pub mod Grpc
mod Tests
