-- ===== src/Filter.antt =====
-- The filters of a subscription, crate filter.
pub mod Sets
pub mod Message
pub mod Parse
pub mod Accounts
pub mod Occurs
pub mod Holds
pub mod Compile
pub mod Selects
pub mod AccountUpdates
pub mod Transactions
pub mod TransactionUpdates
pub mod Slots
pub mod Blocks
pub mod BlockUpdates
pub mod Slices
pub mod Updates
pub mod Total
pub mod Limits
pub mod Config
pub mod Accepted
pub mod Request
mod Tests
