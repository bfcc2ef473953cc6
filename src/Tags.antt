-- ===== src/Tags.antt =====
-- src/shared/message-tags.ts: message tags, their catalog and their assignment to messages.
pub mod Names
pub mod Entries
pub mod Catalog
pub mod Assignments
pub mod Fresh
pub mod Catalogs
pub mod Updates
pub mod States
pub mod Deletion
pub mod Reads
pub mod Keys
pub mod Schema
unfoldable pub use Names.*
unfoldable pub use Catalog.*
unfoldable pub use Assignments.*
