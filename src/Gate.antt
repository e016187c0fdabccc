-- ===== src/Gate.antt =====
-- The abuse controls, internal/abuse: nonces, API keys, predicates and the gate itself.
pub mod Nonce
pub mod ApiKey
pub mod Predicate
pub mod Admit
mod Tests
