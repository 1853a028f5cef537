-- ===== src/Transaction/ChangeSet.antt =====
-- `ChangeSet` of crates/ducklake/src/transaction/changes/change.rs: the changes of a transaction
-- without repetitions, and without what is created and deleted again.
pub mod Cancel
pub mod Passes
pub mod Keys
pub mod Stages
pub mod Kept
pub mod Exact
pub mod Trace
pub mod Idempotent
use ducklake_sdk.Common.{
  ◌≡◌, Bool, true, false, not, ◌&&◌, List, [], ◌∷◌, Option, none, some, Eq, nat_eq, retain, any,
  filter_map,
}
use mathlib.Core.List.{reverse}
use ducklake_sdk.Common.Unique.{contains, unique_by}
use ducklake_sdk.Catalog.Entities.{ArenaIdx}
use ducklake_sdk.Transaction.Change.{
  Change, create_schema, delete_schema, create_table, delete_table, create_view, delete_view,
  create_macro, delete_macro, write_table_data_files, write_table_inline_data, hashable,
  hashable_change_eq, affected_table_ref, changes_schema, requires_table_stats,
  table_ref_with_schema_change,
}

-- `r.map(|r| !deleted.contains(&r)).unwrap_or(true)`.
abbrev pub absent : List ArenaIdx → Option ArenaIdx → Bool
absent refs none = true
absent refs (some r) = not (contains refs r)

module _ {V B : Type 0} where
  -- The references that the `filter_map`s of `ChangeSet::new` collect.
  abbrev pub created_table : Change V B → Option ArenaIdx
  created_table (create_table schema_ref table_ref new_table) = some table_ref
  created_table _ = none

  abbrev pub deleted_table : Change V B → Option ArenaIdx
  deleted_table (delete_table table_ref detach_files) = some table_ref
  deleted_table _ = none

  abbrev pub created_macro : Change V B → Option ArenaIdx
  created_macro (create_macro schema_ref macro_ref name kind implementations) = some macro_ref
  created_macro _ = none

  abbrev pub deleted_macro : Change V B → Option ArenaIdx
  deleted_macro (delete_macro macro_ref kind) = some macro_ref
  deleted_macro _ = none

  abbrev pub created_view : Change V B → Option ArenaIdx
  created_view (create_view schema_ref view_ref new_view) = some view_ref
  created_view _ = none

  abbrev pub deleted_view : Change V B → Option ArenaIdx
  deleted_view (delete_view view_ref) = some view_ref
  deleted_view _ = none

  abbrev pub created_schema : Change V B → Option ArenaIdx
  created_schema (create_schema schema_ref name path) = some schema_ref
  created_schema _ = none

  abbrev pub deleted_schema : Change V B → Option ArenaIdx
  deleted_schema (delete_schema schema_ref) = some schema_ref
  deleted_schema _ = none

  -- The tests of the four `retain`s.
  abbrev pub keeps_table : (created deleted : List ArenaIdx) → Change V B → Bool
  keeps_table created deleted (delete_table table_ref detach_files) =
      not (contains created table_ref)
  keeps_table created deleted c = absent deleted (affected_table_ref c)

  abbrev pub keeps_macro : (created deleted : List ArenaIdx) → Change V B → Bool
  keeps_macro created deleted (delete_macro macro_ref kind) = not (contains created macro_ref)
  keeps_macro created deleted (create_macro schema_ref macro_ref name kind implementations) =
      not (contains deleted macro_ref)
  keeps_macro created deleted _ = true

  abbrev pub keeps_view : (created deleted : List ArenaIdx) → Change V B → Bool
  keeps_view created deleted (delete_view view_ref) = not (contains created view_ref)
  keeps_view created deleted (create_view schema_ref view_ref new_view) =
      not (contains deleted view_ref)
  keeps_view created deleted _ = true

  abbrev pub keeps_schema : (created deleted : List ArenaIdx) → Change V B → Bool
  keeps_schema created deleted (delete_schema schema_ref) = not (contains created schema_ref)
  keeps_schema created deleted (create_schema schema_ref name path) =
      not (contains deleted schema_ref)
  keeps_schema created deleted _ = true

  abbrev pub retain_tables : List (Change V B) → List (Change V B)
  retain_tables changes =
      retain (keeps_table (filter_map created_table changes) (filter_map deleted_table changes))
        changes

  abbrev pub retain_macros : List (Change V B) → List (Change V B)
  retain_macros changes =
      retain (keeps_macro (filter_map created_macro changes) (filter_map deleted_macro changes))
        changes

  abbrev pub retain_views : List (Change V B) → List (Change V B)
  retain_views changes =
      retain (keeps_view (filter_map created_view changes) (filter_map deleted_view changes))
        changes

  abbrev pub retain_schemas : List (Change V B) → List (Change V B)
  retain_schemas changes =
      retain (keeps_schema (filter_map created_schema changes) (filter_map deleted_schema changes))
        changes

  -- `ChangeSet::new`.
  unfoldable pub new : List (Change V B) → List (Change V B)
  new changes =
      let last = reverse (unique_by hashable (reverse changes)) in
      retain_schemas (retain_views (retain_macros (retain_tables last)))

  -- `ChangeSet::is_empty`.
  unfoldable pub is_empty : List (Change V B) → Bool
  is_empty [] = true
  is_empty (c ∷ changes) = false

  abbrev pub is_inline_data : Change V B → Bool
  is_inline_data (write_table_inline_data table_ref batches) = true
  is_inline_data _ = false

  abbrev pub is_data_files : Change V B → Bool
  is_data_files (write_table_data_files table_ref data_files) = true
  is_data_files _ = false

  -- `ChangeSet::contains_inline_data_writes_and_no_file_writes`.
  unfoldable pub contains_inline_data_writes_and_no_file_writes : List (Change V B) → Bool
  contains_inline_data_writes_and_no_file_writes changes =
      any is_inline_data changes && not (any is_data_files changes)

  -- `ChangeSet::changes_schema` and `ChangeSet::requires_table_stats`.
  unfoldable pub set_changes_schema : List (Change V B) → Bool
  set_changes_schema changes = any changes_schema changes

  unfoldable pub set_requires_table_stats : List (Change V B) → Bool
  set_requires_table_stats changes = any requires_table_stats changes

  -- `ChangeSet::table_refs_with_schema_changes`.
  unfoldable pub table_refs_with_schema_changes : List (Change V B) → List ArenaIdx
  table_refs_with_schema_changes changes =
      unique_by (λ r. r) (filter_map table_ref_with_schema_change changes)
