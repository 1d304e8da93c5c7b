-- ===== src/Core/Materialization.antt =====
-- crates/hand-core/src/materialization: durable target materialization.
pub mod Spec
pub mod Record
pub mod Memory
pub mod Lifecycle
pub mod Capacity
pub mod History
pub mod Termination
pub mod Fencing
pub mod Materializer
pub mod Validity
mod Tests
