-- ===== src/Queue.antt =====
-- src/main/app-service.ts: drafts, the outbox, and the changes that wait for the mail server.
pub mod Model
pub mod Heads
pub mod Delivery
pub mod Replay
pub mod Commands
pub mod Drafts
pub mod Summaries
pub mod Lists
pub mod Draining
pub mod Outbox
pub mod OutboxReplay
pub mod PendingReplay
pub mod Replayed
pub mod Progress
pub mod Losses
pub mod Refusals
pub mod Rejected
pub mod Cancelled
pub mod Interleaving
pub mod Flights
pub mod Worlds
pub mod Begun
pub mod InFlight
unfoldable pub use Model.*
unfoldable pub use Heads.*
unfoldable pub use Delivery.*
unfoldable pub use Replay.*
unfoldable pub use Commands.*
unfoldable pub use Drafts.*
unfoldable pub use Summaries.*
