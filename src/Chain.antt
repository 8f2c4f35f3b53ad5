-- ===== src/Chain.antt =====
-- The local chain: src/Blocxxi/Chain.
pub mod Ports
pub mod Kernel
mod Tests
