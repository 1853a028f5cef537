-- ===== src/Catalog/TableUpdates/Name.antt =====
-- The updates of tables of crates/ducklake/src/catalog/views/table.rs and column.rs keep their names.
use ducklake_sdk.Common.{suc, ◌≡◌, sym, ap, Bool, List, Option, none, some, length, list_eq, nat_eq}
use ducklake_sdk.Common.Int.{ℤ}
use ducklake_sdk.Common.Text.{Text}
use ducklake_sdk.Common.Error.{Result, ok, ok_or, ok_inj, >>=-ok, transpose, panicked}
use ducklake_sdk.Typedefs.Tags.{Tag}
use ducklake_sdk.Typedefs.Schema.{DataType, ColumnDefault, Column}
use ducklake_sdk.Typedefs.Layout.{PartitionColumn, SortExpression}
use ducklake_sdk.Catalog.Entities.{ArenaIdx, CatalogTable, CatalogColumn}
use ducklake_sdk.Catalog.Layout.{from_partition, from_sort_info}
use ducklake_sdk.Catalog.Columns.{
  arena_idx_by_path, column_of, rename_column, remove_column, write_column,
}
use ducklake_sdk.Catalog.Columns.Add.{add_column}
use ducklake_sdk.Catalog.Columns.ToSchema.{schema_column_from_arena_index}
use ducklake_sdk.Catalog.TableUpdates.{
  Update, told, update_at, with_columns, path_parent, removed_tag, in_use, ensured,
  ensure_next_column_id, add_table_column, update_partitioning, update_sort_info, add_tag,
  remove_tag, update_primitive_data_type, update_default_value, update_nullability,
  rename_table_column, add_column_tag, remove_column_tag, remove_table_column,
}

module _ {V : Type 0} where
  -- An update leaves the name of the table alone.
  abbrev pub KeepsName : {A : Type 0} → Update V A → Type 0
  KeepsName {A} f = (t u : CatalogTable V) (a : A) → f t ≡ ok (a, u) → u.name ≡ t.name

  -- The end of an update.
  name_of_result :
      {A : Type 0} (a b : A) (t u : CatalogTable V)
      → ◌≡◌ {A = Result (A × CatalogTable V)} (ok (a, t)) (ok (b, u))
      → u.name ≡ t.name
  name_of_result {A} a b t u h =
      sym (
        ap (λ (z : A × CatalogTable V). z.1.name) (ok_inj {A = A × CatalogTable V} (a, t) (b, u) h))

  told-KeepsName : (table at : ArenaIdx) → KeepsName (told table at)
  unfolding told
  told-KeepsName table at t u a h =
      let (col, e, f) = >>=-ok (column_of t.columns at) _ (a, u) h in
      let (info, e', f') =
        >>=-ok (schema_column_from_arena_index (suc (length t.columns.arena)) t.columns at) _ (a, u)
          f in
      name_of_result _ a t u f'

  update_at-KeepsName :
      (table : ArenaIdx) (path : List Text) (g : CatalogColumn V → CatalogColumn V)
      → KeepsName (update_at table path g)
  unfolding update_at
  update_at-KeepsName table path g t u a h =
      let (at, e, f) = >>=-ok (arena_idx_by_path t.columns path) _ (a, u) h in
      told-KeepsName table at (with_columns t (write_column g at t.columns)) u a f

  pub update_primitive_data_type-KeepsName :
      (table : ArenaIdx) (path : List Text) (d : DataType V)
      → KeepsName (update_primitive_data_type table path d)
  unfolding update_primitive_data_type
  update_primitive_data_type-KeepsName table path d = update_at-KeepsName table path _

  pub update_default_value-KeepsName :
      (table : ArenaIdx) (path : List Text) (d : ColumnDefault V)
      → KeepsName (update_default_value table path d)
  unfolding update_default_value
  update_default_value-KeepsName table path d = update_at-KeepsName table path _

  pub update_nullability-KeepsName :
      (table : ArenaIdx) (path : List Text) (b : Bool) → KeepsName (update_nullability table path b)
  unfolding update_nullability
  update_nullability-KeepsName table path b = update_at-KeepsName table path _

  pub rename_table_column-KeepsName :
      (table : ArenaIdx) (path : List Text) (new : Text)
      → KeepsName (rename_table_column table path new)
  unfolding rename_table_column
  rename_table_column-KeepsName table path new t u a h =
      let (at, e, f) = >>=-ok (arena_idx_by_path t.columns path) _ (a, u) h in
      let ((same, columns), e', f') = >>=-ok (rename_column at new t.columns) _ (a, u) f in
      told-KeepsName table at (with_columns t columns) u a f'

  pub add_table_column-KeepsName :
      (table : ArenaIdx) (path : List Text) (col : Column V)
      → KeepsName (add_table_column table path col)
  unfolding add_table_column
  add_table_column-KeepsName table path col t u a h =
      let (parent, e, f) = >>=-ok (path_parent t.columns path) _ (a, u) h in
      let ((idxs, columns), e', f') = >>=-ok (add_column parent col t.columns) _ (a, u) f in
      name_of_result _ a _ u f'

  pub remove_table_column-KeepsName :
      (table : ArenaIdx) (path : List Text) → KeepsName (remove_table_column table path)
  unfolding remove_table_column
  remove_table_column-KeepsName table path t u a h =
      let (at, e, f) = >>=-ok (arena_idx_by_path t.columns path) _ (a, u) h in
      let (free, e', f') = >>=-ok (in_use t at) _ (a, u) f in
      let ((idxs, columns), e'', f'') = >>=-ok (remove_column at t.columns) _ (a, u) f' in
      name_of_result _ a _ u f''

  pub update_partitioning-KeepsName :
      (table : ArenaIdx) (p : Option (List PartitionColumn))
      → KeepsName (update_partitioning table p)
  unfolding update_partitioning
  update_partitioning-KeepsName table p t u a h =
      let (partition, e, f) = >>=-ok (transpose (from_partition t.columns) p) _ (a, u) h in
      name_of_result _ a _ u f

  pub update_sort_info-KeepsName :
      (s : Option (List SortExpression)) → KeepsName (update_sort_info s)
  unfolding update_sort_info
  update_sort_info-KeepsName s t u a h =
      let (sort, e, f) = >>=-ok (transpose (from_sort_info t.columns) s) _ (a, u) h in
      name_of_result _ a _ u f

  pub add_tag-KeepsName : (tag : Tag) → KeepsName (add_tag tag)
  unfolding add_tag
  add_tag-KeepsName tag t u a h = name_of_result _ a _ u h

  pub remove_tag-KeepsName : (key : Text) → KeepsName (remove_tag key)
  unfolding remove_tag
  remove_tag-KeepsName key t u a h =
      let (tags, e, f) = >>=-ok (removed_tag t.tags key) _ (a, u) h in name_of_result _ a _ u f

  pub add_column_tag-KeepsName :
      (table : ArenaIdx) (path : List Text) (tag : Tag) → KeepsName (add_column_tag table path tag)
  unfolding add_column_tag
  add_column_tag-KeepsName table path tag t u a h =
      let (at, e, f) = >>=-ok (arena_idx_by_path t.columns path) _ (a, u) h in
      name_of_result _ a _ u f

  pub remove_column_tag-KeepsName :
      (table : ArenaIdx) (path : List Text) (key : Text)
      → KeepsName (remove_column_tag table path key)
  unfolding remove_column_tag
  remove_column_tag-KeepsName table path key t u a h =
      let (at, e, f) = >>=-ok (arena_idx_by_path t.columns path) _ (a, u) h in
      let (col, e', f') = >>=-ok (column_of t.columns at) _ (a, u) f in
      let (tags, e'', f'') = >>=-ok (removed_tag col.tags key) _ (a, u) f' in
      name_of_result _ a _ u f''

  ensured-name :
      (load : ℤ → Result ℤ) (t u : CatalogTable V) (a : Unit {0}) (o : Option ℤ)
      → ensured load t o ≡ ok (a, u)
      → u.name ≡ t.name
  ensured-name load t u a (some next) h = name_of_result _ a _ u h
  ensured-name load t u a none h =
      let (id, e, f) = >>=-ok (ok_or t.id panicked) _ (a, u) h in
      let (next, e', f') = >>=-ok (load id) _ (a, u) f in name_of_result _ a _ u f'

  pub ensure_next_column_id-KeepsName :
      (load : ℤ → Result ℤ) → KeepsName (ensure_next_column_id load)
  unfolding ensure_next_column_id
  ensure_next_column_id-KeepsName load t u a h = ensured-name load t u a t.columns.next_column_id h
