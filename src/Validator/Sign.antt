-- ===== src/Validator/Sign.antt =====
-- crates/validator/src/state/sign.rs and transactions.rs: the signing ceremony's handlers, passed on. The
-- handlers of packets stand in `Packets`, those of deadlines in `Timeouts`.
mod Opening
mod Rounds
mod Ending
unfoldable pub use Opening.*
unfoldable pub use Rounds.*
unfoldable pub use Ending.*
