-- ===== src/Catalog/TableUpdates.antt =====
-- The mutations of crates/ducklake/src/catalog/views/table.rs and column.rs that leave the names of tables
-- alone: what they make of a table.
pub mod Name
use ducklake_sdk.Common.{
  ℕ, Bool, true, false, List, [], ◌∷◌, ◌++◌, map, length, suc, ◌&&◌, not, Option, none, some,
  if◌then◌else◌, list_eq, nat_eq,
}
use ducklake_sdk.Common.Dict
use ducklake_sdk.Common.Dict.{is_some}
use ducklake_sdk.Common.Int.{ℤ}
use ducklake_sdk.Common.Text.{Text, codes}
use ducklake_sdk.Common.Error.{
  Result, ok, err, DucklakeError, ◌>>=◌, ◌>>◌, is_ok, ok_or, transpose, unwrap, not_found,
  column_not_found, invalid_changes, panicked,
}
use ducklake_sdk.Typedefs.Tags
use ducklake_sdk.Typedefs.Tags.{Tag, Tags}
use ducklake_sdk.Typedefs.Schema.{DataType, ColumnDefault, Column}
use ducklake_sdk.Typedefs.Layout.{PartitionColumn, SortExpression}
use ducklake_sdk.Catalog.Arena.{find}
use ducklake_sdk.Catalog.Entities.{
  Catalog, ArenaIdx, CatalogTable, CatalogColumns, CatalogColumn, CatalogDataType, ColumnRef,
  CatalogTablePartition, CatalogSortColumn,
}
use ducklake_sdk.Catalog.Columns.ToSchema.{schema_column_from_arena_index}
use ducklake_sdk.Catalog.Layout.{from_partition, from_sort_info, references_column, partitioned_by}
use ducklake_sdk.Catalog.Columns.{
  arena_idx_by_path, column_of, write_column, rename_column, remove_column,
}
use ducklake_sdk.Catalog.Columns.Add.{add_column}
use ducklake_sdk.Catalog.Operations.{partition_refs, refs_of}

-- `remove_tag` of catalog/views/mod.rs.
abbrev pub removed_tag : Tags → Text → Result Tags
unfolding Tags.get Tags.remove
removed_tag tags key = elim (Tags.get tags key) [
  | none ↦ err (not_found (codes "tag") key)
  | some value ↦ ok (Tags.remove tags key)
]

abbrev path_parent : {V : Type 0} → CatalogColumns V → List Text → Result (Option ArenaIdx)
unfolding arena_idx_by_path
path_parent columns [] = ok none
path_parent columns (name ∷ parts) = elim (arena_idx_by_path columns (name ∷ parts)) [
  | ok idx ↦ ok (some idx)
  | err e ↦ err e
]

abbrev parent_ref_of : ArenaIdx → Option ArenaIdx → Option ColumnRef
parent_ref_of table none = none
parent_ref_of table (some idx) = some (record { table_ref = table; column_idx = idx })

abbrev in_partition : Option CatalogTablePartition → ArenaIdx → Bool
unfolding partitioned_by
in_partition none idx = false
in_partition (some p) idx = partitioned_by p.columns idx

abbrev in_sort : Option (List CatalogSortColumn) → ArenaIdx → Bool
unfolding references_column
in_sort none idx = false
in_sort (some columns) idx = references_column columns idx

-- What an update of a table gives: a result and the new table, or an error and no change.
abbrev pub Update : Type 0 → Type 0 → Type 0
Update V A = CatalogTable V → Result (A × CatalogTable V)

-- A column as changes tell of it: its parent, its reference and what it is.
abbrev pub Told : Type 0 → Type 0
Told V = Option ColumnRef × ColumnRef × Column V

module _ {V : Type 0} where
  abbrev told : ArenaIdx → ArenaIdx → CatalogTable V → Result (Told V × CatalogTable V)
  unfolding schema_column_from_arena_index
  told table at t = do
    col ← column_of t.columns at
    info ← schema_column_from_arena_index (suc (length t.columns.arena)) t.columns at
    ok (
      (parent_ref_of table col.parent_column, record { table_ref = table; column_idx = at }, info),
      t,
    )

  abbrev with_columns : CatalogTable V → CatalogColumns V → CatalogTable V
  with_columns t columns = record t { columns = columns }

  -- An update of the column at a path, of which a change tells.
  abbrev update_at : ArenaIdx → List Text → (CatalogColumn V → CatalogColumn V) → Update V (Told V)
  unfolding arena_idx_by_path told
  update_at table path f t = do
    at ← arena_idx_by_path t.columns path
    told table at (with_columns t (write_column f at t.columns))

  abbrev ensured : (ℤ → Result ℤ) → CatalogTable V → Option ℤ → Result (Unit {0} × CatalogTable V)
  ensured load t (some next) = ok (tt, t)
  ensured load t none = do
    id ← ok_or t.id panicked
    next ← load id
    ok (tt, with_columns t (record (t.columns) { next_column_id = some next }))

  -- `TableViewMut::ensure_next_column_id`. `load` asks the database.
  unfoldable pub ensure_next_column_id : (ℤ → Result ℤ) → Update V (Unit {0})
  ensure_next_column_id load t = ensured load t t.columns.next_column_id

  -- `TableViewMut::add_column`.
  unfoldable pub add_table_column :
      ArenaIdx → List Text → Column V → Update V (Option ColumnRef × List ColumnRef)
  unfolding path_parent add_column
  add_table_column table path added t = do
    parent ← path_parent t.columns path
    (idxs, columns) ← add_column parent added t.columns
    ok ((parent_ref_of table parent, refs_of table idxs), with_columns t columns)

  -- `TableViewMut::update_partitioning`.
  unfoldable pub update_partitioning :
      ArenaIdx → Option (List PartitionColumn) → Update V (Option (List ColumnRef))
  unfolding from_partition
  update_partitioning table partitioning t = do
    partition ← transpose (from_partition t.columns) partitioning
    ok (partition_refs table partition, record t { partition = partition })

  -- `TableViewMut::update_sort_info`.
  unfoldable pub update_sort_info : Option (List SortExpression) → Update V (Unit {0})
  unfolding from_sort_info
  update_sort_info expressions t = do
    sort_info ← transpose (from_sort_info t.columns) expressions
    ok (tt, record t { sort_info = sort_info })

  -- `TableViewMut::add_tag` and `remove_tag`.
  unfoldable pub add_tag : Tag → Update V (Unit {0})
  unfolding Tags.insert
  add_tag tag t = ok (tt, record t { tags = Tags.insert t.tags tag })

  unfoldable pub remove_tag : Text → Update V (Unit {0})
  unfolding removed_tag
  remove_tag key t = do tags ← removed_tag t.tags key; ok (tt, record t { tags = tags })

  -- `ColumnViewMut::update_primitive_data_type`, `update_default_value` and `update_nullability`.
  unfoldable pub update_primitive_data_type : ArenaIdx → List Text → DataType V → Update V (Told V)
  unfolding update_at
  update_primitive_data_type table path dtype =
      update_at table path (λ col. record col { dtype = CatalogDataType.primitive dtype })

  unfoldable pub update_default_value : ArenaIdx → List Text → ColumnDefault V → Update V (Told V)
  unfolding update_at
  update_default_value table path default =
      update_at table path (λ col. record col { default_value = default })

  unfoldable pub update_nullability : ArenaIdx → List Text → Bool → Update V (Told V)
  unfolding update_at
  update_nullability table path nullable =
      update_at table path (λ col. record col { nullable = nullable })

  -- `ColumnViewMut::rename`.
  unfoldable pub rename_table_column : ArenaIdx → List Text → Text → Update V (Told V)
  unfolding arena_idx_by_path rename_column told
  rename_table_column table path new_name t = do
    at ← arena_idx_by_path t.columns path
    (same, columns) ← rename_column at new_name t.columns
    told table at (with_columns t columns)

  -- `ColumnViewMut::add_tag` and `remove_tag`.
  unfoldable pub add_column_tag : ArenaIdx → List Text → Tag → Update V ColumnRef
  unfolding arena_idx_by_path Tags.insert
  add_column_tag table path tag t = do
    at ← arena_idx_by_path t.columns path
    ok (
      record { table_ref = table; column_idx = at },
      with_columns t
          (write_column (λ col. record col { tags = Tags.insert col.tags tag }) at t.columns),
    )

  unfoldable pub remove_column_tag : ArenaIdx → List Text → Text → Update V ColumnRef
  unfolding arena_idx_by_path removed_tag
  remove_column_tag table path key t = do
    at ← arena_idx_by_path t.columns path
    col ← column_of t.columns at
    tags ← removed_tag col.tags key
    ok (
      record { table_ref = table; column_idx = at },
      with_columns t (write_column (λ col. record col { tags = tags }) at t.columns),
    )

  abbrev in_use : CatalogTable V → ArenaIdx → Result (Unit {0})
  unfolding in_partition in_sort
  in_use t at =
      if in_partition t.partition at
      then err (
          invalid_changes (
            codes
              "cannot remove column from table as the table is partitioned by it - reset or change the partitioning on this table in order to drop this column"))
      else if in_sort t.sort_info at
      then err (
          invalid_changes (
            codes
              "cannot remove column from table as the table is sorted by it - reset or change the sort info on this table in order to drop this column"))
      else ok tt

  -- `ColumnViewMut::remove`.
  unfoldable pub remove_table_column : ArenaIdx → List Text → Update V (List ColumnRef)
  unfolding arena_idx_by_path in_use remove_column
  remove_table_column table path t = do
    at ← arena_idx_by_path t.columns path
    in_use t at
    (idxs, columns) ← remove_column at t.columns
    ok (refs_of table idxs, with_columns t columns)
