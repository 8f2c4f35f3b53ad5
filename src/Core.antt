-- ===== src/Core.antt =====
-- The developer-facing primitives: src/Blocxxi/Core.
pub mod Status
pub mod Primitives
pub mod EventRecord
pub mod Tests
