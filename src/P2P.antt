-- ===== src/P2P.antt =====
-- The peer-to-peer layer: src/Blocxxi/P2P/kademlia.
pub mod Krpc
pub mod Compact
pub mod EventDht
pub mod Tests
