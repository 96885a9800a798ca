-- ===== src/Store.antt =====
-- internal/store: the store service.
pub mod Domain
pub mod Tables
pub mod Repositories
pub mod Cases
pub mod UserInfo
pub mod AuthAdapter
pub mod Interceptors
pub mod Service
pub mod Updates
pub mod Admission
pub mod Effects
pub mod Spec
pub mod Opening
pub mod Transfers
pub mod Buying
pub mod Success
pub mod Reading
pub mod Answers
pub mod Answering
pub mod Sending
pub mod Purchasing
pub mod Refusals
pub mod RefusedPurchases
pub mod Ledger
pub mod Inventory
pub mod Concurrent
pub mod Migrations
