-- ===== src/Concurrency.antt =====
-- src/core/concurrency
pub mod BoundedQueue
