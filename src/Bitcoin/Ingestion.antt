-- ===== src/Bitcoin/Ingestion.antt =====
-- src/Blocxxi/Bitcoin/ingestion.h and ingestion.cpp: the readings of a Bitcoin node over HTTP.
pub mod Base64
pub mod Json
pub mod Observations
pub mod Poll
pub mod Config
mod Tests
