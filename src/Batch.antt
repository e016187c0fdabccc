-- ===== src/Batch.antt =====
-- The batching of requests, internal/batch: a window for each signing account, and the pool.
pub mod Window
pub mod Pool
mod Tests
