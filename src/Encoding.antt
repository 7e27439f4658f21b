-- ===== src/Encoding.antt =====
-- The encoder of a result tree (encoding/).
pub mod PathCache
pub mod Encoder
