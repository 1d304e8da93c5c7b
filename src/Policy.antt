-- ===== src/Policy.antt =====
-- crates/hand-policy: the vocabulary that every other crate shares.
pub mod Identity
pub mod Secret
pub mod Connector
