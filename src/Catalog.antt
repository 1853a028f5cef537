-- ===== src/Catalog.antt =====
-- crates/ducklake/src/catalog: the point-in-time capture of schemas, tables, views and macros that a
-- transaction reads and alters.
pub mod Arena
pub mod Entities
pub mod Views
pub mod Lookup
pub mod Listing
pub mod Layout
pub mod Operations
pub mod TableUpdates
pub mod TableReads
pub mod Columns
