-- ===== src/Aws/Registry.antt =====
-- crates/hand-brain-aws/src/registry.rs: the DynamoDB registry of physical targets. Item has the
-- rows of its table, Expression its condition and update expressions, Writes the requests.
pub mod Item
pub mod Expression
pub mod Writes
pub mod Table
pub mod Quota
pub mod Client
pub mod Settle
mod Rows
mod Refine
mod Reread
mod Represents
mod Commit
mod Passes
mod Sequential
mod Fresh
mod Found
mod Takeover
mod Replaced
mod Round
mod Acquire
mod Install
mod Expire
mod Close
mod Counting
mod Confirmed
mod Tests
mod TableTests
