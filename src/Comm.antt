-- ===== src/Comm.antt =====
-- The package comm: what a node exchanges with its peers.
pub mod Sync
