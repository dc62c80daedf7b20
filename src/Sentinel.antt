-- ===== src/Sentinel.antt =====
-- crates/sentinel: the sentinel service, which votes on proposed transactions by commit and reveal.
pub mod Types
pub mod Events
pub mod Hashing
pub mod Engine
pub mod Voting
pub mod Tally
pub mod Outcomes
pub mod Dispatch
pub mod Lifecycle
pub mod Pointwise
pub mod Advance
pub mod Independence
pub mod Runs
pub mod Openings
pub mod Accounts
pub mod Evidence
pub mod Tallies
pub mod Deadlines
pub mod Binding
pub mod Service
mod Examples
