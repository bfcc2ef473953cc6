-- ===== src/Identities.antt =====
-- src/shared/identities.ts: the identities that mail is sent from.
pub mod Normal
pub mod Choice
pub mod Stored
pub mod Signature
pub mod Defaults
pub mod Invariant
pub mod Kept
pub mod Edits
pub mod Reached
pub mod Moves
pub mod Resolution
pub mod Lines
pub mod Rounds
unfoldable pub use Normal.*
unfoldable pub use Choice.*
unfoldable pub use Stored.*
