-- ===== src/Concurrency.antt =====
-- src/concurrency and src/include/concurrency.
pub mod Transaction
pub mod LockQueue
pub mod LockManager
pub mod WaitsFor
mod Tests
