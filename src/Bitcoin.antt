-- ===== src/Bitcoin.antt =====
-- The Bitcoin adapter: src/Blocxxi/Bitcoin/adapter.h and adapter.cpp.
pub mod Wire
pub mod Message
pub mod Merkle
pub mod Target
pub mod Block
pub mod Headers
pub mod Sync
pub mod Peer
pub mod Fetch
pub mod Import
pub mod Ingestion
mod Tests
