-- ===== src/Builtin.antt =====
-- The native parts of the built-in contracts.
pub mod Authority
