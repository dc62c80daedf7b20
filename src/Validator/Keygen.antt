-- ===== src/Validator/Keygen.antt =====
-- crates/validator/src/state/keygen.rs: the handlers of the key generation, passed on.
mod Ceremony
mod Collecting
mod Sharing
mod Confirming
mod Complaints
mod Clock
unfoldable pub use Ceremony.*
unfoldable pub use Collecting.*
unfoldable pub use Sharing.*
unfoldable pub use Confirming.*
unfoldable pub use Complaints.*
unfoldable pub use Clock.*
