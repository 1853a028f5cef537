-- ===== src/Caches.antt =====
-- crates/ducklake/src/caches: what is known of a snapshot.
pub mod TableStats
pub mod Snapshot
