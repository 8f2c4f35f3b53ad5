-- ===== src/Crypto.antt =====
-- The crypto value types: src/Blocxxi/Crypto.
pub mod Hash
pub mod Signature
