-- ===== src/Transaction.antt =====
-- crates/ducklake/src/transaction: what a transaction records, resolves against concurrent commits
-- and writes.
pub mod Typedefs
pub mod Change
pub mod Handles
pub mod ChangeSet
pub mod CommitState
pub mod Record
pub mod Executors
pub mod Attempt
pub mod Commit
pub mod Applied
