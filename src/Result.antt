-- ===== src/Result.antt =====
-- The result trees of one connection (result/).
pub mod Multiplexer
