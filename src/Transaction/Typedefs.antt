-- ===== src/Transaction/Typedefs.antt =====
-- crates/ducklake/src/transaction/typedefs.rs and typedefs/data/statistics.rs: the data that a
-- transaction has written. `V` is the type of literal values, `B` that of the columns of an Arrow
-- record batch.
use ducklake_sdk.Common.{ℕ, Bool, List, Option}
use ducklake_sdk.Common.Int.{ℤ}
use ducklake_sdk.Common.Text.{Text}
use ducklake_sdk.Typedefs.Layout.{DucklakePath}
use ducklake_sdk.Catalog.Entities.{ColumnRef}

-- `FileColumnStats`.
pub record FileColumnStats (V : Type 0) : Type 0 where
  pub size_bytes : Option ℕ
  pub min_value : Option V
  pub max_value : Option V
  pub null_count : Option ℕ
  pub contains_nan : Option Bool

-- `ArrayColumnStats`.
pub record ArrayColumnStats (V : Type 0) : Type 0 where
  pub min_value : Option V
  pub max_value : Option V
  pub null_count : Option ℕ
  pub contains_nan : Option Bool

-- `CommitDeleteFile`.
pub record CommitDeleteFile : Type 0 where
  pub path : DucklakePath
  pub encryption_key : Option Text
  pub num_deletes : ℕ
  pub file_size_bytes : Option ℕ
  pub footer_size_bytes : Option ℕ

-- `CommitDataFile`.
pub record CommitDataFile (V : Type 0) : Type 0 where
  pub path : DucklakePath
  pub encryption_key : Option Text
  pub partition_values : Option (List (Option Text))
  pub num_rows : ℕ
  pub file_size_bytes : Option ℕ
  pub footer_size_bytes : Option ℕ
  pub column_stats : List (ColumnRef × FileColumnStats V)
  pub delete_files : List CommitDeleteFile
  pub inline_deletes : List ℤ

-- `CommitInlineData`: a record batch is its number of rows and its columns.
pub record CommitInlineData (V B : Type 0) : Type 0 where
  pub num_rows : ℕ
  pub columns : B
  pub column_stats : List (ColumnRef × ArrayColumnStats V)
