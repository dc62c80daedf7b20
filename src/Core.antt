-- ===== src/Core.antt =====
-- crates/core: what the off-chain services share.
pub mod Snapshots
pub mod Machine
pub mod Blocks
pub mod Transactions
mod Examples
mod QueueExamples
mod BlockExamples
