-- ===== src/Bft.antt =====
-- The package bft: votes of a round, and the finality that they give.
pub mod Rounds
pub mod Justifier
pub mod Walk
pub mod Engine
pub mod Search
pub mod Finality
pub mod Casts
