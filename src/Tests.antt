-- ===== src/Tests.antt =====
-- The theorems at concrete values, with a runtime of plain ASCII texts and natural numbers.
pub mod Data
pub mod Tags
pub mod Filters
pub mod Views
pub mod Identities
pub mod Queue
