-- ===== src/Spec/Entities.antt =====
-- crates/ducklake/src/spec/entities.rs: the rows that a commit writes.
use ducklake_sdk.Common.{Bool, Option}
use ducklake_sdk.Common.Int.{ℤ}
use ducklake_sdk.Common.Text.{Text}

-- `DucklakeColumn`.
pub record DucklakeColumn : Type 0 where
  pub column_id : ℤ
  pub begin_snapshot : ℤ
  pub end_snapshot : Option ℤ
  pub table_id : ℤ
  pub column_order : Option ℤ
  pub column_name : Text
  pub column_type : Text
  pub initial_default : Option Text
  pub default_value : Option Text
  pub nulls_allowed : Bool
  pub parent_column : Option ℤ
  pub default_value_type : Option Text
  pub default_value_dialect : Option Text

-- `DucklakeDataFile`.
pub record DucklakeDataFile : Type 0 where
  pub data_file_id : ℤ
  pub table_id : ℤ
  pub begin_snapshot : ℤ
  pub end_snapshot : Option ℤ
  pub file_order : Option ℤ
  pub path : Text
  pub path_is_relative : Bool
  pub file_format : Text
  pub record_count : ℤ
  pub file_size_bytes : Option ℤ
  pub footer_size : Option ℤ
  pub row_id_start : Option ℤ
  pub partition_id : Option ℤ
  pub encryption_key : Option Text
  pub mapping_id : Option ℤ
  pub partial_max : Option ℤ

-- `DucklakeDeleteFile`.
pub record DucklakeDeleteFile : Type 0 where
  pub delete_file_id : ℤ
  pub table_id : ℤ
  pub begin_snapshot : ℤ
  pub end_snapshot : Option ℤ
  pub data_file_id : ℤ
  pub path : Text
  pub path_is_relative : Bool
  pub format : Text
  pub delete_count : Option ℤ
  pub file_size_bytes : Option ℤ
  pub footer_size : Option ℤ
  pub encryption_key : Option Text
  pub partial_max : Option ℤ

-- `DucklakeSnapshot`, less its time.
pub record DucklakeSnapshot : Type 0 where
  pub snapshot_id : ℤ
  pub schema_version : ℤ
  pub next_catalog_id : ℤ
  pub next_file_id : ℤ

-- `DucklakeSnapshotChanges`, less the author's words.
pub record DucklakeSnapshotChanges : Type 0 where
  pub snapshot_id : ℤ
  pub changes_made : Text

-- `DucklakeFileColumnStats`.
pub record DucklakeFileColumnStats : Type 0 where
  pub data_file_id : ℤ
  pub table_id : ℤ
  pub column_id : ℤ
  pub column_size_bytes : Option ℤ
  pub value_count : Option ℤ
  pub null_count : Option ℤ
  pub min_value : Option Text
  pub max_value : Option Text
  pub contains_nan : Option Bool
  pub extra_stats : Option Text

-- `DucklakeFilePartitionValue`.
pub record DucklakeFilePartitionValue : Type 0 where
  pub data_file_id : ℤ
  pub table_id : ℤ
  pub partition_key_index : ℤ
  pub partition_value : Option Text

-- `DucklakeInlinedDelete`.
pub record DucklakeInlinedDelete : Type 0 where
  pub file_id : ℤ
  pub row_id : ℤ
  pub begin_snapshot : ℤ
