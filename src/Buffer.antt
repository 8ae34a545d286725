-- ===== src/Buffer.antt =====
-- The buffer pool: src/buffer and src/include/buffer.
pub mod Replacer
pub mod Lru
pub mod Pool
mod Tests
