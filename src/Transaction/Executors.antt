-- ===== src/Transaction/Executors.antt =====
-- crates/ducklake/src/transaction/executors: what a change writes.
pub mod InlineWrite
pub mod TableWrite
