-- ===== src/Aws.antt =====
-- crates/hand-brain-aws/src: the AWS adapter.
pub mod Registry
