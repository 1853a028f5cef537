-- ===== src/Caches/Snapshot.antt =====
-- crates/ducklake/src/caches/snapshot.rs: the counters of a snapshot.
use ducklake_sdk.Common.Int.{ℤ}

-- `SnapshotInfo`, less its time.
pub record SnapshotInfo : Type 0 where
  pub id : ℤ
  pub schema_version : ℤ
  pub next_catalog_id : ℤ
  pub next_file_id : ℤ
