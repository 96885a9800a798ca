-- ===== src/Auth.antt =====
-- internal/auth: the auth service.
pub mod Domain
pub mod Users
pub mod Authenticator
pub mod Service
pub mod Accounts
pub mod Registry
pub mod Return
