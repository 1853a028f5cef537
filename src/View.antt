-- ===== src/View.antt =====
-- crates/ducklake/src/view: the SQL of views.
pub mod Sql
