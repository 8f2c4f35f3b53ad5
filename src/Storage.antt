-- ===== src/Storage.antt =====
-- The storage adapters: src/Blocxxi/Storage.
pub mod Memory
pub mod File
pub mod Tests
