-- ===== src/Tests.antt =====
-- The theorems at concrete inputs.
pub mod Data
pub mod Store
pub mod Successes
pub mod Answers
pub mod Purchases
pub mod Tokens
pub mod Services
pub mod Processes
pub mod Schedules
pub mod Migrations
pub mod Lives
pub mod Shop
pub mod Users
