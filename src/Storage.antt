-- ===== src/Storage.antt =====
-- src/storage and src/include/storage.
pub mod Disk
pub mod HeaderPage
pub mod TablePage
pub mod TableHeap
pub mod TableIterator
mod Tests
