-- ===== src/Node.antt =====
-- The node and its services: src/Blocxxi/Node.
pub mod Service
pub mod Lifecycle
pub mod Tests
