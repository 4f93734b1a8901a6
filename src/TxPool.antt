-- ===== src/TxPool.antt =====
-- The package txpool: the transactions that wait for a block.
pub mod ObjectMap
