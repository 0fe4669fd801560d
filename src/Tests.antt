-- ===== src/Tests.antt =====
-- The theorems at concrete inputs, and the data for them.
pub mod Data
pub mod Amounts
pub mod Bills
pub mod Edits
pub mod Changes
pub mod Debts
pub mod Repeats
pub mod Templates
pub mod Syncing
pub mod Entry
pub mod Files
pub mod Sealed
pub mod Requests
