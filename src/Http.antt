-- ===== src/Http.antt =====
-- The HTTP API, internal/http.
pub mod Types
pub mod Terms
pub mod Sending
pub mod Pour
mod Tests
