-- ===== src/Gateway.antt =====
-- internal/gateway: the HTTP gateway.
pub mod Domain
pub mod Adapters
pub mod Handlers
pub mod Middleware
pub mod Routes
pub mod Bearer
pub mod Views
