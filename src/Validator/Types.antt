-- ===== src/Validator/Types.antt =====
-- The validator's data, passed on.
mod Words
mod States
mod Commands
mod Events
mod Config
pub use Words.*
pub use States.*
pub use Commands.*
pub use Events.*
pub use Config.*
