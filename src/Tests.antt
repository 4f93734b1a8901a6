-- ===== src/Tests.antt =====
-- Tests of the models on concrete inputs, and each theorem with a hypothesis at such an input.
mod Tracers
mod Blocks
mod Proposers
mod Chains
mod Finality
mod Finalizing
mod Snapshots
mod Pools
mod Draws
mod Pages
mod Places
mod Masters
mod Endorsements
mod Validation
mod Turns
mod Packing
mod Peers
mod Transactions
mod Adoption
