-- ===== src/Transaction/Record.antt =====
-- `Change::applied_change` and the sets of IDs of change.rs: what a commit records, with the IDs
-- that its state hands out.
use ducklake_sdk.Common.{List, [], ◌∷◌, Option, none, some, filter_map}
use ducklake_sdk.Common.Int.{ℤ, int_eq}
use ducklake_sdk.Common.Unique.{unique_by}
use ducklake_sdk.Common.Error.{panicked}
use ducklake_sdk.Typedefs.Names.{display_qualified_name}
use ducklake_sdk.Typedefs.Layout.{scalar, table as table_macro}
use ducklake_sdk.Catalog.Entities.{ArenaIdx}
use ducklake_sdk.Common.Run.{Run, return, ◌>>=◌, raise, ask, for_each}
use ducklake_sdk.Transaction.CommitState.{CommitState, schema_id, table_id, view_id, macro_id}
use ducklake_sdk.Transaction.Applied.{
  AppliedChange, created_schema, created_table, created_view, created_scalar_macro,
  created_table_macro, inserted_into_table, inlined_insert, dropped_schema, dropped_table,
  dropped_view, dropped_scalar_macro, dropped_table_macro, altered_table, new,
}
use ducklake_sdk.Transaction.ChangeSet.{table_refs_with_schema_changes}
use ducklake_sdk.Transaction.ChangeSet
use ducklake_sdk.Transaction.Change.{
  Change, create_schema, delete_schema, create_table, write_table_data_files,
  write_table_inline_data, rename_table, update_table_partitioning, update_table_sort_info,
  delete_table, add_table_tag, remove_table_tag, create_view, delete_view, create_macro,
  delete_macro, add_table_column, update_table_column, remove_table_column, add_table_column_tag,
  remove_table_column_tag,
}

abbrev altered : {V : Type 0} → ArenaIdx → Run (CommitState V) AppliedChange
altered table_ref = do id ← ask (λ s. table_id s table_ref); return (altered_table id)

abbrev table_ids : {V : Type 0} → List ArenaIdx → Run (CommitState V) (List ℤ)
table_ids refs = for_each (λ r. ask (λ s. table_id s r)) refs

module _ {V B : Type 0} where
  -- `Change::applied_change`. `column_refs[0]` panics on no columns.
  unfoldable pub applied_change : Change V B → Run (CommitState V) AppliedChange
  applied_change (create_schema schema_ref name path) = return (created_schema name)
  applied_change (delete_schema schema_ref) = do
    id ← ask (λ s. schema_id s schema_ref)
    return (dropped_schema id)
  applied_change (create_table schema_ref table_ref new_table) =
      return (created_table new_table.name)
  applied_change (rename_table table_ref name) = return (created_table name)
  applied_change (update_table_partitioning table_ref refs columns) = altered table_ref
  applied_change (update_table_sort_info table_ref expressions) = altered table_ref
  applied_change (add_table_tag table_ref tag) = altered table_ref
  applied_change (remove_table_tag table_ref key) = altered table_ref
  applied_change (add_table_column parent [] new_column) = raise panicked
  applied_change (add_table_column parent (r ∷ refs) new_column) = altered r.table_ref
  applied_change (update_table_column parent column_ref new_column) = altered column_ref.table_ref
  applied_change (remove_table_column column_ref) = altered column_ref.table_ref
  applied_change (add_table_column_tag column_ref tag) = altered column_ref.table_ref
  applied_change (remove_table_column_tag column_ref key) = altered column_ref.table_ref
  applied_change (delete_table table_ref detach_files) = do
    id ← ask (λ s. table_id s table_ref)
    return (dropped_table id)
  applied_change (create_view schema_ref view_ref new_view) = return (created_view new_view.name)
  applied_change (delete_view view_ref) = do
    id ← ask (λ s. view_id s view_ref)
    return (dropped_view id)
  applied_change (create_macro schema_ref macro_ref name scalar implementations) =
      return (created_scalar_macro (display_qualified_name name))
  applied_change (create_macro schema_ref macro_ref name table_macro implementations) =
      return (created_table_macro (display_qualified_name name))
  applied_change (delete_macro macro_ref scalar) = do
    id ← ask (λ s. macro_id s macro_ref)
    return (dropped_scalar_macro id)
  applied_change (delete_macro macro_ref table_macro) = do
    id ← ask (λ s. macro_id s macro_ref)
    return (dropped_table_macro id)
  applied_change (write_table_data_files table_ref data_files) = do
    id ← ask (λ s. table_id s table_ref)
    return (inserted_into_table id)
  applied_change (write_table_inline_data table_ref batches) = do
    id ← ask (λ s. table_id s table_ref)
    return (inlined_insert id)

  -- `ChangeSet::applied_change_set`.
  unfoldable pub applied_change_set : List (Change V B) → Run (CommitState V) (List AppliedChange)
  unfolding applied_change new
  applied_change_set changes = do applied ← for_each applied_change changes; return (new applied)

  abbrev inline_ref : Change V B → Option ArenaIdx
  inline_ref (write_table_inline_data table_ref batches) = some table_ref
  inline_ref _ = none

  -- `ChangeSet::table_ids_with_inline_data_writes`.
  unfoldable pub table_ids_with_inline_data_writes :
      List (Change V B) → Run (CommitState V) (List ℤ)
  unfolding unique_by
  table_ids_with_inline_data_writes changes = do
    found ← table_ids (filter_map inline_ref changes)
    return (unique_by (λ id. id) found)

  -- `ChangeSet::created_table_ids`.
  unfoldable pub created_table_ids : List (Change V B) → Run (CommitState V) (List ℤ)
  created_table_ids changes = table_ids (filter_map ChangeSet.created_table changes)

  -- `ChangeSet::table_ids_with_schema_changes`.
  unfoldable pub table_ids_with_schema_changes : List (Change V B) → Run (CommitState V) (List ℤ)
  unfolding table_refs_with_schema_changes
  table_ids_with_schema_changes changes = table_ids (table_refs_with_schema_changes changes)
