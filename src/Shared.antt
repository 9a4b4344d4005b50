-- ===== src/Shared.antt =====
-- What the other crates share, crate shared.
pub mod Shutdown
pub mod Wakes
pub mod Taskset
pub mod Ids
mod Tests
