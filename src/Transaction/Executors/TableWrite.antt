-- ===== src/Transaction/Executors/TableWrite.antt =====
-- `write_table_data` of crates/ducklake/src/transaction/executors/table_write.rs, with the file rows
-- of transaction_changes.rs that it collects. `none` stands for a panic.
pub mod FileCounter
pub mod FileIds
pub mod Maximum
pub mod Minimum
pub mod Ranges
pub mod Order
pub mod Success
use ducklake_sdk.Common.{
  ℕ, zero, suc, ◌≡◌, Bool, true, false, List, [], ◌∷◌, ◌++◌, map, Option, none, some, ltb,
  get_elem?,
}
use ducklake_sdk.Common.Options.{◌>>=◌}
use ducklake_sdk.Common.Int.{ℤ, pos, wrap_i64}
use ducklake_sdk.Common.IntMap.{IntMap, or_default, insert}
use ducklake_sdk.Common.Text.{Text, codes}
use ducklake_sdk.Typedefs.Path.{path_text, is_relative}
use ducklake_sdk.Catalog.Arena.{get}
use ducklake_sdk.Catalog.Entities.{ArenaIdx, ColumnRef}
use ducklake_sdk.Caches.TableStats.{
  Ordering, TableStats, ColumnStats, default_table, advance_row_id, add_record_count,
  add_file_size_bytes, update_column, update_contains_null, update_contains_nan, update_min_value,
  update_max_value,
}
use ducklake_sdk.Spec.Entities.{
  DucklakeDataFile, DucklakeDeleteFile, DucklakeFileColumnStats, DucklakeFilePartitionValue,
  DucklakeInlinedDelete,
}
use ducklake_sdk.Transaction.Typedefs.{CommitDataFile, CommitDeleteFile, FileColumnStats}
use ducklake_sdk.Transaction.CommitState.{
  CommitState, table_id, file_id, partition_id, update_table_stats,
}

-- `FileChanges`.
pub record FileChanges : Type 0 where
  pub data_files : List DucklakeDataFile
  pub partition_values : List DucklakeFilePartitionValue
  pub column_stats : List DucklakeFileColumnStats
  pub delete_files : List DucklakeDeleteFile
  pub inline_deletes : IntMap (List DucklakeInlinedDelete)

-- The part of `TransactionChanges` that table writes collect. A set of IDs is a list.
pub record WriteChanges : Type 0 where
  pub files : FileChanges
  pub written_columns : IntMap (List ℤ)

-- What the loop over the data files has collected: rows, and the IDs of the columns with statistics.
pub record Written : Type 0 where
  pub files : FileChanges
  pub column_ids : List ℤ

-- `as i64` on `usize`.
unfoldable pub as_i64 : ℕ → ℤ
unfolding wrap_i64
as_i64 n = wrap_i64 (pos n)

abbrev pub map_option : {A B : Type 0} → (A → B) → Option A → Option B
map_option f none = none
map_option f (some a) = some (f a)

module _ {V : Type 0} where
  -- `CommitState::column_id`.
  unfoldable pub column_id : CommitState V → ColumnRef → Option ℤ
  unfolding get
  column_id s r = do
    table ← get s.catalog.table_arena r.table_ref
    column ← get_elem? table.columns.arena r.column_idx
    some column.id

  -- `state.table_stats(table_id).next_row_id()`.
  unfoldable pub next_row_id : CommitState V → ℤ → Option ℤ
  unfolding default_table
  next_row_id s id = do
    all_stats ← s.table_stats
    some (or_default default_table all_stats id).next_row_id

  -- The rows of the delete files of a data file, each with a file ID of its own.
  unfoldable pub delete_file_rows :
      ℤ → ℤ → List CommitDeleteFile → CommitState V → List DucklakeDeleteFile × CommitState V
  unfolding file_id as_i64
  delete_file_rows table data_file [] s = ([], s)
  delete_file_rows table data_file (f ∷ files) s =
      let (id, s1) = file_id s in
      let (rows, s2) = delete_file_rows table data_file files s1 in
      let row : DucklakeDeleteFile = record {
        delete_file_id = id;
        table_id = table;
        begin_snapshot = s.snapshot_id;
        end_snapshot = none;
        data_file_id = data_file;
        path = path_text f.path;
        path_is_relative = is_relative f.path;
        format = codes "parquet";
        delete_count = some (as_i64 f.num_deletes);
        file_size_bytes = map_option as_i64 f.file_size_bytes;
        footer_size = map_option as_i64 f.footer_size_bytes;
        encryption_key = f.encryption_key;
        partial_max = none;
      } in
      (row ∷ rows, s2)

-- `partition_values.iter().enumerate()`.
unfoldable pub partition_rows : ℤ → ℤ → ℕ → List (Option Text) → List DucklakeFilePartitionValue
unfolding as_i64
partition_rows data_file table i [] = []
partition_rows data_file table i (value ∷ values) =
    record {
      data_file_id = data_file;
      table_id = table;
      partition_key_index = as_i64 i;
      partition_value = value;
    }
    ∷ partition_rows data_file table (suc i) values

abbrev pub optional_partition_rows :
    ℤ → ℤ → Option (List (Option Text)) → List DucklakeFilePartitionValue
optional_partition_rows data_file table none = []
optional_partition_rows data_file table (some values) = partition_rows data_file table 0 values

-- `files.inline_deletes.entry(table_id).or_default().extend(…)`, if there are any.
abbrev pub extend_inline_deletes :
    ℤ → ℤ → ℤ → List ℤ → IntMap (List DucklakeInlinedDelete) → IntMap (List DucklakeInlinedDelete)
extend_inline_deletes table data_file snapshot [] deletes = deletes
extend_inline_deletes table data_file snapshot (row ∷ rows) deletes = insert deletes table (
    or_default [] deletes table
    ++ map (λ r. record { file_id = data_file; row_id = r; begin_snapshot = snapshot })
        (row ∷ rows))

module _ {V : Type 0} where
  -- The partition of a file that has partition values.
  abbrev pub file_partition_id :
      CommitState V → ArenaIdx → Option (List (Option Text)) → Option (Option ℤ × CommitState V)
  file_partition_id s table_ref none = some (none, s)
  file_partition_id s table_ref (some values) = do
    (id, t) ← partition_id s table_ref
    some (some id, t)

  -- The row of a data file.
  abbrev pub data_file_row : ℤ → ℤ → ℤ → ℤ → Option ℤ → CommitDataFile V → DucklakeDataFile
  data_file_row id table snapshot start partition f = record {
    data_file_id = id;
    table_id = table;
    begin_snapshot = snapshot;
    end_snapshot = none;
    file_order = some id;
    path = path_text f.path;
    path_is_relative = is_relative f.path;
    file_format = codes "parquet";
    record_count = as_i64 f.num_rows;
    file_size_bytes = map_option as_i64 f.file_size_bytes;
    footer_size = map_option as_i64 f.footer_size_bytes;
    row_id_start = some start;
    partition_id = partition;
    encryption_key = f.encryption_key;
    mapping_id = none;
    partial_max = none;
  }

-- Values are compared and written by code of typedefs/value.
module _ {V : Type 0} (partial_cmp : V → V → Option Ordering) (display_value : V → Text) where
  -- What the statistics of a column in a file change in those of the table.
  unfoldable pub merge_column : FileColumnStats V → ColumnStats V → ColumnStats V
  unfolding update_contains_null update_contains_nan update_min_value update_max_value
  merge_column stats column =
      update_max_value partial_cmp
        (update_min_value partial_cmp
          (update_contains_nan
            (update_contains_null column (map_option (λ c. ltb 0 c) stats.null_count))
            stats.contains_nan)
          stats.min_value)
        stats.max_value

  unfoldable pub merge_columns :
      ℤ → List (ColumnRef × FileColumnStats V) → CommitState V → Option (CommitState V)
  unfolding column_id merge_column update_table_stats update_column
  merge_columns table [] s = some s
  merge_columns table ((r, stats) ∷ columns) s = do
    column ← column_id s r
    t ←
        update_table_stats s table
          (λ all_stats. update_column all_stats column (merge_column stats))
    merge_columns table columns t

  -- `update_table_stats_from_file`.
  unfoldable pub update_table_stats_from_file :
      CommitState V → ℤ → CommitDataFile V → Option (CommitState V)
  unfolding update_table_stats advance_row_id add_record_count add_file_size_bytes as_i64
      merge_columns
  update_table_stats_from_file s table f = do
    t ← update_table_stats s table (λ stats.
        add_file_size_bytes
          (add_record_count (advance_row_id stats (as_i64 f.num_rows)) (as_i64 f.num_rows))
          (map_option as_i64 f.file_size_bytes))
    merge_columns table f.column_stats t

  -- The row of the statistics of one column in a file.
  unfoldable pub column_stats_row : ℤ → ℤ → ℤ → FileColumnStats V → DucklakeFileColumnStats
  unfolding as_i64
  column_stats_row data_file table column stats = record {
    data_file_id = data_file;
    table_id = table;
    column_id = column;
    column_size_bytes = map_option as_i64 stats.size_bytes;
    value_count = none;
    null_count = map_option as_i64 stats.null_count;
    min_value = map_option display_value stats.min_value;
    max_value = map_option display_value stats.max_value;
    contains_nan = stats.contains_nan;
    extra_stats = none;
  }

  unfoldable pub column_stats_rows :
      CommitState V
      → ℤ
      → ℤ
      → List (ColumnRef × FileColumnStats V)
      → Option (List DucklakeFileColumnStats)
  unfolding column_id column_stats_row
  column_stats_rows s data_file table [] = some []
  column_stats_rows s data_file table ((r, stats) ∷ columns) = do
    column ← column_id s r
    rows ← column_stats_rows s data_file table columns
    some (column_stats_row data_file table column stats ∷ rows)

  -- The body of the loop over the data files: one more file. `w` is what has been collected.
  unfoldable pub write_file :
      ArenaIdx → ℤ → CommitDataFile V → Written → CommitState V → Option (Written × CommitState V)
  unfolding file_id next_row_id update_table_stats_from_file partition_id delete_file_rows
      partition_rows column_stats_rows as_i64
  write_file table_ref table f w s = do
    let (id, s1) = file_id s
    start ← next_row_id s1 table
    s2 ← update_table_stats_from_file s1 table f
    (partition, s3) ← file_partition_id s2 table_ref f.partition_values
    let (deletes, s4) = delete_file_rows table id f.delete_files s3
    columns ← column_stats_rows s4 id table f.column_stats
    some (
      record {
        files = record {
          data_files =
              w.files.data_files ++ (data_file_row id table s.snapshot_id start partition f ∷ []);
          partition_values =
              w.files.partition_values ++ optional_partition_rows id table f.partition_values;
          column_stats = w.files.column_stats ++ columns;
          delete_files = w.files.delete_files ++ deletes;
          inline_deletes =
              extend_inline_deletes table id s.snapshot_id f.inline_deletes w.files.inline_deletes;
        };
        column_ids = w.column_ids ++ map (λ row. row.column_id) columns;
      },
      s4,
    )

  unfoldable pub write_files :
      ArenaIdx
      → ℤ
      → List (CommitDataFile V)
      → Written
      → CommitState V
      → Option (Written × CommitState V)
  unfolding write_file
  write_files table_ref table [] w s = some (w, s)
  write_files table_ref table (f ∷ data_files) w s = do
    (w1, s1) ← write_file table_ref table f w s
    write_files table_ref table data_files w1 s1

  -- `write_table_data`.
  unfoldable pub write_table_data :
      WriteChanges
      → CommitState V
      → ArenaIdx
      → List (CommitDataFile V)
      → Option (WriteChanges × CommitState V)
  unfolding table_id write_files
  write_table_data changes s table_ref data_files = do
    (table, s1) ← table_id s table_ref
    (w, s2) ←
        write_files table_ref table data_files (record { files = changes.files; column_ids = [] })
          s1
    some (
      record {
        files = w.files;
        written_columns =
            insert changes.written_columns table
              (or_default [] changes.written_columns table ++ w.column_ids);
      },
      s2,
    )
