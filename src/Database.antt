-- ===== src/Database.antt =====
-- internal/pkg/database: connections, transactions and the PostgreSQL settings.
pub mod Statement
mod Sessions
mod Transaction
mod Settings
pub mod Rules
pub mod Atomicity
unfoldable pub use Sessions.*
unfoldable pub use Transaction.*
unfoldable pub use Settings.*
