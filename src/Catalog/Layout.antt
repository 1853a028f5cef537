-- ===== src/Catalog/Layout.antt =====
-- crates/ducklake/src/catalog/typedefs/partition.rs and sort.rs: partitionings and sort orders by name
-- and by column.
use ducklake_sdk.Common.{
  Bool, true, false, List, [], ◌∷◌, ◌||◌, not, none, list_beq, nat_beq, if◌then◌else◌, list_eq,
  nat_eq,
}
use ducklake_sdk.Common.Dict
use ducklake_sdk.Common.Text.{Text, codes}
use ducklake_sdk.Common.Error.{Result, ok, err, ◌>>=◌, ok_or, collect, not_found, invalid_changes}
use ducklake_sdk.Typedefs.Layout.{PartitionColumn, SortExpression}
use ducklake_sdk.Catalog.Entities.{
  ArenaIdx, CatalogColumns, CatalogTablePartition, CatalogPartitionColumn, CatalogSortColumn,
}
use ducklake_sdk.Catalog.Columns.{column_of, arena_idx_by_path}

abbrev is_empty_text : Text → Bool
is_empty_text [] = true
is_empty_text (c ∷ t) = false

module _ {V : Type 0} where
  -- The body of the loop of `CatalogTablePartition::from_partition`.
  abbrev partition_column : CatalogColumns V → PartitionColumn → Result CatalogPartitionColumn
  unfolding arena_idx_by_path
  partition_column c col = do
    idx ← arena_idx_by_path c (col.column ∷ [])
    ok (record { column = idx; transform = col.transform })

  -- `CatalogTablePartition::from_partition`.
  unfoldable pub from_partition :
      CatalogColumns V → List PartitionColumn → Result CatalogTablePartition
  unfolding partition_column
  from_partition c partition = do
    columns ← collect (partition_column c) partition
    ok (record { id = none; columns = columns })

  -- `CatalogTablePartition::into_partition`.
  unfoldable pub into_partition :
      CatalogColumns V → CatalogTablePartition → Result (List PartitionColumn)
  into_partition c partition =
      collect
        (λ col. column_of c col.column >>= λ found.
          ok (record { column = found.name; transform = col.transform }))
        partition.columns

  -- `column_by_name`.
  unfoldable pub column_by_name : CatalogColumns V → Text → Result ArenaIdx
  unfolding Dict.get
  column_by_name c name =
      ok_or (Dict.get c.root_columns name)
        (not_found (codes "column referenced by sort expression") name)

  -- The body of the loop of `CatalogTableSortInfo::from_sort_info`.
  abbrev sort_column : CatalogColumns V → SortExpression → Result CatalogSortColumn
  unfolding column_by_name
  sort_column c e =
      if is_empty_text e.expression || not (list_beq e.dialect (codes "duckdb"))
      then err
          (invalid_changes (codes "sort columns require a nonempty name and the DuckDB dialect"))
      else column_by_name c e.expression >>= λ idx. ok (record {
        column = idx;
        dialect = e.dialect;
        direction = e.direction;
        null_order = e.null_order;
      })

  -- `CatalogTableSortInfo::from_sort_info`.
  unfoldable pub from_sort_info :
      CatalogColumns V → List SortExpression → Result (List CatalogSortColumn)
  unfolding sort_column
  from_sort_info c sort_info = collect (sort_column c) sort_info

  -- `CatalogTableSortInfo::into_sort_info`.
  unfoldable pub into_sort_info :
      CatalogColumns V → List CatalogSortColumn → Result (List SortExpression)
  into_sort_info c columns =
      collect
        (λ col. column_of c col.column >>= λ found. ok (record {
          expression = found.name;
          dialect = col.dialect;
          direction = col.direction;
          null_order = col.null_order;
        }))
        columns

-- `CatalogTableSortInfo::references_column`.
unfoldable pub references_column : List CatalogSortColumn → ArenaIdx → Bool
references_column [] idx = false
references_column (sort ∷ columns) idx = nat_beq sort.column idx || references_column columns idx

-- `partition.columns.iter().any(…)` of `ColumnViewMut::remove`.
unfoldable pub partitioned_by : List CatalogPartitionColumn → ArenaIdx → Bool
partitioned_by [] idx = false
partitioned_by (col ∷ columns) idx = nat_beq col.column idx || partitioned_by columns idx
