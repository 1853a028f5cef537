-- ===== src/Catalog/TableReads.antt =====
-- Reads of tables and columns by name: crates/ducklake/src/catalog/views/table.rs and column.rs.
use ducklake_sdk.Common.{suc, List, Option, none, some, length, if◌then◌else◌}
use ducklake_sdk.Common.Text.{Text}
use ducklake_sdk.Common.Error.{Result, ok, ◌>>=◌, transpose}
use ducklake_sdk.Typedefs.Names.{QualifiedName}
use ducklake_sdk.Typedefs.Schema.{Column}
use ducklake_sdk.Typedefs.Layout.{SortExpression}
use ducklake_sdk.Catalog.Entities.{
  Catalog, ArenaIdx, CatalogTable, CatalogColumn, CatalogColumns, CatalogSortColumn,
}
use ducklake_sdk.Catalog.Lookup.{table_ref, inner_table}
use ducklake_sdk.Catalog.Layout.{into_sort_info, references_column}
use ducklake_sdk.Catalog.Columns.{arena_idx_by_path, column_of}
use ducklake_sdk.Catalog.Columns.ToSchema.{to_schema, schema_column_from_arena_index}

module _ {V : Type 0} where
  -- `Catalog::table`, and `TableView::inner`.
  unfoldable pub table_named : Catalog V → QualifiedName → Result (CatalogTable V)
  unfolding table_ref inner_table
  table_named c name = do idx ← table_ref c name; inner_table c idx

  abbrev sorted :
      CatalogColumns V
      → ArenaIdx
      → Option (List CatalogSortColumn)
      → Result (Option (List SortExpression))
  unfolding references_column into_sort_info
  sorted columns at none = ok none
  sorted columns at (some sort) =
      if references_column sort at then transpose (into_sort_info columns) (some sort) else ok none

  -- `sort_info_includes_column(column_ref).then(|| table.sort_info().unwrap().0)`.
  unfoldable pub sorted_by : ArenaIdx → ArenaIdx → Catalog V → Result (Option (List SortExpression))
  unfolding inner_table sorted
  sorted_by idx at c = do t ← inner_table c idx; sorted t.columns at t.sort_info

  -- `TableView::column`, and `ColumnView::inner`: the table and its column at a path.
  unfoldable pub column_at :
      QualifiedName → List Text → Catalog V → Result (CatalogTable V × CatalogColumn V)
  unfolding table_named arena_idx_by_path
  column_at name path c = do
    t ← table_named c name
    at ← arena_idx_by_path t.columns path
    col ← column_of t.columns at
    ok (t, col)

  -- `ColumnView::info`.
  unfoldable pub column_info : QualifiedName → List Text → Catalog V → Result (Column V)
  unfolding table_named arena_idx_by_path schema_column_from_arena_index
  column_info name path c = do
    t ← table_named c name
    at ← arena_idx_by_path t.columns path
    schema_column_from_arena_index (suc (length t.columns.arena)) t.columns at

  -- `TableView::schema`.
  unfoldable pub schema_of : QualifiedName → Catalog V → Result (List (Column V))
  unfolding table_named to_schema
  schema_of name c = do t ← table_named c name; to_schema t.columns
