-- ===== src/Codec.antt =====
-- The codecs: src/Blocxxi/Codec.
pub mod Hex
pub mod Bencode
mod Tests
