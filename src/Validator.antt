-- ===== src/Validator.antt =====
-- crates/validator: the service that takes part in key generation and signing.
pub mod Epoch
pub mod Types
pub mod Nonces
pub mod Preprocess
pub mod Packets
pub mod Sign
pub mod Timeouts
pub mod Links
pub mod Progress
pub mod Quorum
pub mod Requests
pub mod Groups
pub mod Merkle
pub mod Participation
pub mod Keygen
pub mod Dispatch
pub mod Frame
pub mod Rollover
pub mod Stalls
pub mod Complaints
mod Examples
mod GroupExamples
mod RolloverExamples
