-- ===== src/LogDb.antt =====
-- The package logdb: where a log stands in the chain.
pub mod Bits
pub mod Sequence
