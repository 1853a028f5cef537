-- ===== src/Spec.antt =====
-- crates/ducklake/src/spec: the rows of the metadata tables.
pub mod Entities
