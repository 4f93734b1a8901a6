-- ===== src/Poa/Proposer.antt =====
-- poa/proposer.go. An address is a number.
use rmit.Prelude.{ℕ, Bool}

pub record Proposer : Type 0 where
  pub address : ℕ
  pub active : Bool
