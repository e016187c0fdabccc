-- ===== src/Chain.antt =====
-- One connected chain, internal/chain/chain.go and refill.go.
pub mod Broadcaster
pub mod Flush
pub mod Status
pub mod Refill
pub mod Open
mod Tests
