-- ===== src/Block.antt =====
-- The package block.
pub mod Signed
pub mod GasLimit
