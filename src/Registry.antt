-- ===== src/Registry.antt =====
-- The registry of chains, pkg/chainregistry.
pub mod Types
pub mod Policy
pub mod Fields
pub mod Overrides
pub mod Raw
pub mod State
pub mod Store
pub mod Live
pub mod Channels
mod Tests
