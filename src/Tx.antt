-- ===== src/Tx.antt =====
-- The transaction client, internal/tx.
pub mod Address
pub mod Types
pub mod Errors
pub mod Endpoints
pub mod Client
pub mod Fee
mod Tests
