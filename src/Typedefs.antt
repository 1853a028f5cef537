-- ===== src/Typedefs.antt =====
-- crates/ducklake/src/typedefs: the types that users of the SDK hand in and get back.
pub mod Names
pub mod Regex
pub mod Identifier
pub mod Tags
pub mod Schema
pub mod Layout
pub mod Path
