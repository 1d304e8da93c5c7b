-- ===== src/Core.antt =====
-- crates/hand-core: the contract-neutral state machines.
pub mod Operation
pub mod Materialization
