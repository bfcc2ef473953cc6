-- ===== src/Filters.antt =====
-- src/shared/message-filters.ts: message filters.
pub mod Model
pub mod Validation
pub mod Conditions
pub mod Collapse
pub mod Evaluation
pub mod Firing
pub mod Runs
pub mod Effects
pub mod Applied
unfoldable pub use Model.*
unfoldable pub use Validation.*
unfoldable pub use Conditions.*
unfoldable pub use Collapse.*
unfoldable pub use Evaluation.*
