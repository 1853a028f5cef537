-- ===== src/Tests/Writes.antt =====
-- Two data files for one table, and the bounds of their column.
use ducklake_sdk.Common.{
  ℕ, ◌≤◌, ◌≡◌, refl, inl, inr, List, [], ◌∷◌, ◌++◌, map, none, some, Option, false, arith, ltb,
  if◌then◌else◌, Bool-cases,
}
use ducklake_sdk.Common.Int.{pos}
use ducklake_sdk.Common.IntMap.{or_default, lookup}
use ducklake_sdk.Common.Text.{codes}
use ducklake_sdk.Common.Text.Decimal.{display_nat}
use ducklake_sdk.Typedefs.Layout.{relative}
use ducklake_sdk.Typedefs.Schema.{literal, int64}
use ducklake_sdk.Catalog.Arena.{get}
use ducklake_sdk.Catalog.Entities.{CatalogTable, CatalogColumn, primitive}
use ducklake_sdk.Caches.TableStats.{Ordering, less, equal, greater, default_column, default_table}
use ducklake_sdk.Spec.Entities.{DucklakeDataFile, DucklakeDeleteFile}
use ducklake_sdk.Transaction.Typedefs.{CommitDataFile}
use ducklake_sdk.Transaction.CommitState.{CommitState, table_id}
use ducklake_sdk.Transaction.Executors.TableWrite.{
  WriteChanges, next_row_id, column_id, write_table_data,
}
use ducklake_sdk.Transaction.Executors.TableWrite.Ranges.{
  ranges, row_id_after, range_of, write_table_data-ranges,
}
use ducklake_sdk.Transaction.Executors.TableWrite.FileIds.{
  id_after_files, data_file_ids, delete_file_ids, id_of, ids_of, write_table_data_file_ids,
}
use ducklake_sdk.Transaction.Executors.TableWrite.Success.{
  IsSome, KnowsFiles, write_table_data-IsSome,
}
use ducklake_sdk.Transaction.Executors.TableWrite.Order.{TotalOrder}
use ducklake_sdk.Transaction.Executors.TableWrite.Minimum.{
  min_after, LowerBound, update_min_value-LowerBound,
}
use ducklake_sdk.Transaction.Executors.TableWrite.Maximum.{
  max_after, UpperBound, update_max_value-UpperBound,
}
use ducklake_sdk.Tests.Conflicts.{small_catalog}

abbrev pub compare_values : ℕ → ℕ → Option Ordering
compare_values a b = if ltb a b then some less else if ltb b a then some greater else some equal

cmp_total : (a b : ℕ) → (o : Ordering) × (compare_values a b ≡ some o)
cmp_total a b = elim (Bool-cases (ltb a b)) [
  | inl h ↦ (less, ground (arith, h))
  | inr h ↦ elim (Bool-cases (ltb b a)) [
    | inl k ↦ (greater, ground (arith, h, k))
    | inr k ↦ (equal, ground (arith, h, k))
  ]
]

Le-trans : (a b c : ℕ) → a ≤ b → b ≤ c → a ≤ c
Le-trans a b c h k = omega arith

Le-refl : (a : ℕ) → a ≤ a
Le-refl a = omega arith

cmp_less : (a b : ℕ) → compare_values a b ≡ some less → a ≤ b
cmp_less a b h = ground arith

cmp_equal : (a b : ℕ) → compare_values a b ≡ some equal → a ≤ b × b ≤ a
cmp_equal a b h = (ground arith, ground arith)

cmp_greater : (a b : ℕ) → compare_values a b ≡ some greater → b ≤ a
cmp_greater a b h = ground arith

-- The values are numbers.
abbrev numbers : TotalOrder ℕ
numbers = record {
  partial_cmp = compare_values;
  Le = λ a b. a ≤ b;
  Le-refl = Le-refl;
  Le-trans = Le-trans;
  cmp_total = cmp_total;
  cmp_less = cmp_less;
  cmp_equal = cmp_equal;
  cmp_greater = cmp_greater;
}

abbrev key_column : CatalogColumn ℕ
key_column = record {
  id = pos 1;
  name = codes "k";
  dtype = primitive int64;
  parent_column = none;
  nullable = false;
  tags = [];
  initial_default = none;
  default_value = literal none;
}

abbrev table : CatalogTable ℕ
table = record {
  id = some (pos 3);
  name = record { schema = codes "main"; name = codes "t" };
  columns = record {
    arena = key_column ∷ [];
    by_id = (pos 1, 0) ∷ [];
    root_columns = (codes "k", 0) ∷ [];
    next_column_id = some (pos 2);
  };
  partition = none;
  sort_info = none;
  tags = [];
  path = relative (codes "t/");
}

abbrev pub s : CommitState ℕ
s = record {
  snapshot_id = pos 2;
  schema_version = pos 1;
  next_catalog_id = pos 4;
  next_file_id = pos 6;
  catalog = record small_catalog {
    table_arena = record { arena = table ∷ []; by_id = (pos 3, 0) ∷ [] };
  };
  table_stats = some [];
  original_table_stats = some [];
}

abbrev file : ℕ → CommitDataFile ℕ
file rows = record {
  path = relative (codes "f.parquet");
  encryption_key = none;
  partition_values = none;
  num_rows = rows;
  file_size_bytes = some 100;
  footer_size_bytes = none;
  column_stats =
      (
        record { table_ref = 0; column_idx = 0 },
        record {
          size_bytes = none;
          min_value = some 1;
          max_value = some rows;
          null_count = some 0;
          contains_nan = none;
        },
      )
      ∷ [];
  delete_files =
      record {
        path = relative (codes "d.parquet");
        encryption_key = none;
        num_deletes = 2;
        file_size_bytes = some 10;
        footer_size_bytes = none;
      }
      ∷ [];
  inline_deletes = [];
}

abbrev files : List (CommitDataFile ℕ)
files = file 5 ∷ file 7 ∷ []

abbrev nothing : WriteChanges
nothing = record {
  files = record {
    data_files = [];
    partition_values = [];
    column_stats = [];
    delete_files = [];
    inline_deletes = [];
  };
  written_columns = [];
}

pub has_id : table_id s 0 ≡ some (pos 3, s)
unfolding table_id get
has_id = refl

knows : KnowsFiles s files
unfolding column_id get
knows = ((((pos 1, refl), tt), refl), (((((pos 1, refl), tt), refl)), tt))

write_table_data-IsSome_example :
    IsSome (write_table_data compare_values display_nat nothing s 0 files)
write_table_data-IsSome_example =
    write_table_data-IsSome compare_values display_nat nothing s s 0 (pos 3) [] files has_id refl
      knows

pub starts_at_zero : next_row_id s (pos 3) ≡ some (pos 0)
unfolding next_row_id or_default lookup default_table
starts_at_zero = refl

wrote : IsSome (write_table_data compare_values display_nat nothing s 0 files)
wrote =
    write_table_data-IsSome compare_values display_nat nothing s s 0 (pos 3) [] files has_id refl
      knows

write_table_data-ranges_example :
    (next_row_id wrote.0.1 (pos 3) ≡ some (row_id_after (pos 0) files))
    × (rows : List DucklakeDataFile) × (wrote.0.0.files.data_files
        ≡ nothing.files.data_files ++ rows)
    × (map range_of rows ≡ ranges (pos 0) files)
write_table_data-ranges_example =
    write_table_data-ranges compare_values display_nat nothing wrote.0.0 s s wrote.0.1 0 (pos 3)
      files (pos 0) has_id starts_at_zero wrote.1

update_min_value-LowerBound_example :
    LowerBound numbers
      (none ∷ some 3 ∷ none ∷ some 1 ∷ [])
      (min_after numbers default_column (some 3 ∷ none ∷ some 1 ∷ [])).min_value
unfolding default_column
update_min_value-LowerBound_example =
    update_min_value-LowerBound numbers default_column (some 3 ∷ none ∷ some 1 ∷ [])

update_max_value-UpperBound_example :
    UpperBound numbers
      (none ∷ some 3 ∷ none ∷ some 1 ∷ [])
      (max_after numbers default_column (some 3 ∷ none ∷ some 1 ∷ [])).max_value
unfolding default_column
update_max_value-UpperBound_example =
    update_max_value-UpperBound numbers default_column (some 3 ∷ none ∷ some 1 ∷ [])

write_table_data_file_ids_example :
    (wrote.0.1.next_file_id ≡ id_after_files (pos 6) files)
    × (rows : List DucklakeDataFile) × (deletes : List DucklakeDeleteFile)
    × (wrote.0.0.files.data_files ≡ nothing.files.data_files ++ rows)
    × (wrote.0.0.files.delete_files ≡ nothing.files.delete_files ++ deletes)
    × (map id_of rows ≡ data_file_ids (pos 6) files)
    × (map ids_of deletes ≡ delete_file_ids (pos 6) files)
write_table_data_file_ids_example =
    write_table_data_file_ids compare_values display_nat nothing wrote.0.0 s s wrote.0.1 0 (pos 3)
      files has_id wrote.1
