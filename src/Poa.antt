-- ===== src/Poa.antt =====
-- The package poa: who may produce a block, and when.
pub mod Proposer
pub mod Slots
pub mod Candidates
pub mod SchedulerV1
pub mod SchedulerV2
pub mod Scheduler
