-- ===== src/Primitives.antt =====
-- crates/ducklake/src/primitives.
pub mod DiffIterator
