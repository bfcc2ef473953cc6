-- ===== src/Organization.antt =====
-- src/main/mail-organization.ts: tags, filters and the junk model in the stored state.
pub mod State
pub mod FilterList
pub mod Runs
pub mod Reordering
pub mod Stored
unfoldable pub use State.*
unfoldable pub use FilterList.*
