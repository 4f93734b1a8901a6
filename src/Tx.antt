-- ===== src/Tx.antt =====
-- The package tx: the cost of a transaction, and its reserved fields.
pub mod Gas
pub mod Reserved
pub mod Body
