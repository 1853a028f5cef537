-- ===== src/Transaction/Change.antt =====
-- `Change` and `HashableChange` of crates/ducklake/src/transaction/changes/change.rs.
use native.Mathlib.Decide.{ℕ_discrete}
use ducklake_sdk.Common.{
  Bool, true, false, List, [], ◌∷◌, map, Option, none, some, Eq, discrete_beq, discrete_beq_iff,
}
use ducklake_sdk.Common.Text.{Text}
use ducklake_sdk.Typedefs.Names.{QualifiedName}
use ducklake_sdk.Typedefs.Tags.{Tag, Tags}
use ducklake_sdk.Typedefs.Schema.{Column}
use ducklake_sdk.Typedefs.Layout.{
  DucklakePath, PartitionColumn, SortExpression, MacroType, MacroImplementation,
}
use ducklake_sdk.Spec.Entities.{DucklakeColumn}
use ducklake_sdk.Catalog.Entities.{ArenaIdx, ColumnRef}
use ducklake_sdk.Transaction.Typedefs.{CommitDataFile, CommitInlineData}

-- The rest of `Change::CreateTable`.
pub record NewTable (V : Type 0) : Type 0 where
  pub column_refs : List (List ColumnRef)
  pub partition_column_refs : Option (List ColumnRef)
  pub name : QualifiedName
  pub columns : List (Column V)
  pub retired_columns : List DucklakeColumn
  pub partition_columns : Option (List PartitionColumn)
  pub sort_info : Option (List SortExpression)
  pub path : DucklakePath
  pub tags : Tags

-- The rest of `Change::CreateView`.
pub record NewView : Type 0 where
  pub name : QualifiedName
  pub sql : Text
  pub dialect : Text
  pub column_aliases : Option (List Text)
  pub tags : Tags

-- `Change`.
pub data Change (V B : Type 0) : Type 0 where
  create_schema : (schema_ref : ArenaIdx) (name : Text) (path : DucklakePath) → Change V B
  delete_schema : (schema_ref : ArenaIdx) → Change V B
  create_table : (schema_ref table_ref : ArenaIdx) → NewTable V → Change V B
  write_table_data_files : (table_ref : ArenaIdx) → List (CommitDataFile V) → Change V B
  write_table_inline_data : (table_ref : ArenaIdx) → List (CommitInlineData V B) → Change V B
  rename_table : (table_ref : ArenaIdx) (name : QualifiedName) → Change V B
  update_table_partitioning :
      (table_ref : ArenaIdx) → Option (List ColumnRef) → Option (List PartitionColumn) → Change V B
  update_table_sort_info : (table_ref : ArenaIdx) → Option (List SortExpression) → Change V B
  delete_table : (table_ref : ArenaIdx) (detach_files : Bool) → Change V B
  add_table_tag : (table_ref : ArenaIdx) (tag : Tag) → Change V B
  remove_table_tag : (table_ref : ArenaIdx) (key : Text) → Change V B
  create_view : (schema_ref view_ref : ArenaIdx) → NewView → Change V B
  delete_view : (view_ref : ArenaIdx) → Change V B
  create_macro :
      (schema_ref macro_ref : ArenaIdx) (name : QualifiedName)
      → MacroType
      → List MacroImplementation
      → Change V B
  delete_macro : (macro_ref : ArenaIdx) → MacroType → Change V B
  add_table_column :
      (parent_column_ref : Option ColumnRef) (column_refs : List ColumnRef) → Column V → Change V B
  update_table_column :
      (parent_column_ref : Option ColumnRef) (column_ref : ColumnRef) → Column V → Change V B
  remove_table_column : (column_ref : ColumnRef) → Change V B
  add_table_column_tag : (column_ref : ColumnRef) (tag : Tag) → Change V B
  remove_table_column_tag : (column_ref : ColumnRef) (key : Text) → Change V B

-- `HashableChange`.
pub data HashableChange : Type 0 where
  create_schema_key delete_schema_key : ArenaIdx → HashableChange
  create_table_key rename_table_key update_table_partitioning_key : ArenaIdx → HashableChange
  update_table_sort_info_key delete_table_key : ArenaIdx → HashableChange
  add_table_tag_key remove_table_tag_key : ArenaIdx → Text → HashableChange
  create_view_key delete_view_key create_macro_key delete_macro_key : ArenaIdx → HashableChange
  add_table_column_key : List ColumnRef → HashableChange
  update_table_column_key remove_table_column_key : ColumnRef → HashableChange
  add_table_column_tag_key remove_table_column_tag_key : ColumnRef → Text → HashableChange
  write_table_data_files_key : ArenaIdx → List DucklakePath → HashableChange
  write_table_inline_data_key : ArenaIdx → HashableChange

-- The derived equality.
unfoldable pub HashableChange-discrete : Discrete HashableChange
HashableChange-discrete = hlevel ℕ_discrete

instance abbrev pub hashable_change_eq : Eq HashableChange
hashable_change_eq = record {
  beq = discrete_beq HashableChange-discrete;
  beq_iff = discrete_beq_iff HashableChange-discrete;
}

-- `column_refs.first().map(|r| r.table_ref)`.
abbrev pub first_table_ref : List ColumnRef → Option ArenaIdx
first_table_ref [] = none
first_table_ref (r ∷ refs) = some r.table_ref

module _ {V B : Type 0} where
  -- `From<&Change> for HashableChange`.
  unfoldable pub hashable : Change V B → HashableChange
  hashable (create_schema schema_ref name path) = create_schema_key schema_ref
  hashable (delete_schema schema_ref) = delete_schema_key schema_ref
  hashable (create_table schema_ref table_ref new_table) = create_table_key table_ref
  hashable (rename_table table_ref name) = rename_table_key table_ref
  hashable (update_table_partitioning table_ref refs columns) =
      update_table_partitioning_key table_ref
  hashable (update_table_sort_info table_ref expressions) = update_table_sort_info_key table_ref
  hashable (delete_table table_ref detach_files) = delete_table_key table_ref
  hashable (add_table_tag table_ref tag) = add_table_tag_key table_ref tag.key
  hashable (remove_table_tag table_ref key) = remove_table_tag_key table_ref key
  hashable (create_view schema_ref view_ref new_view) = create_view_key view_ref
  hashable (delete_view view_ref) = delete_view_key view_ref
  hashable (create_macro schema_ref macro_ref name kind implementations) =
      create_macro_key macro_ref
  hashable (delete_macro macro_ref kind) = delete_macro_key macro_ref
  hashable (add_table_column parent column_refs new_column) = add_table_column_key column_refs
  hashable (update_table_column parent column_ref new_column) = update_table_column_key column_ref
  hashable (remove_table_column column_ref) = remove_table_column_key column_ref
  hashable (add_table_column_tag column_ref tag) = add_table_column_tag_key column_ref tag.key
  hashable (remove_table_column_tag column_ref key) = remove_table_column_tag_key column_ref key
  hashable (write_table_data_files table_ref data_files) =
      write_table_data_files_key table_ref (map (λ file. file.path) data_files)
  hashable (write_table_inline_data table_ref batches) = write_table_inline_data_key table_ref

  -- `Change::changes_schema`.
  unfoldable pub changes_schema : Change V B → Bool
  changes_schema (write_table_data_files table_ref data_files) = false
  changes_schema (write_table_inline_data table_ref batches) = false
  changes_schema _ = true

  -- `Change::affected_table_ref`.
  unfoldable pub affected_table_ref : Change V B → Option ArenaIdx
  affected_table_ref (create_table schema_ref table_ref new_table) = some table_ref
  affected_table_ref (rename_table table_ref name) = some table_ref
  affected_table_ref (update_table_partitioning table_ref refs columns) = some table_ref
  affected_table_ref (update_table_sort_info table_ref expressions) = some table_ref
  affected_table_ref (delete_table table_ref detach_files) = some table_ref
  affected_table_ref (add_table_tag table_ref tag) = some table_ref
  affected_table_ref (remove_table_tag table_ref key) = some table_ref
  affected_table_ref (write_table_data_files table_ref data_files) = some table_ref
  affected_table_ref (write_table_inline_data table_ref batches) = some table_ref
  affected_table_ref (update_table_column parent column_ref new_column) = some column_ref.table_ref
  affected_table_ref (remove_table_column column_ref) = some column_ref.table_ref
  affected_table_ref (add_table_column_tag column_ref tag) = some column_ref.table_ref
  affected_table_ref (remove_table_column_tag column_ref key) = some column_ref.table_ref
  affected_table_ref (add_table_column parent column_refs new_column) = first_table_ref column_refs
  affected_table_ref _ = none

  -- `Change::table_ref_with_schema_change`.
  unfoldable pub table_ref_with_schema_change : Change V B → Option ArenaIdx
  table_ref_with_schema_change (create_table schema_ref table_ref new_table) = some table_ref
  table_ref_with_schema_change (rename_table table_ref name) = some table_ref
  table_ref_with_schema_change (update_table_partitioning table_ref refs columns) = some table_ref
  table_ref_with_schema_change (update_table_column parent column_ref new_column) =
      some column_ref.table_ref
  table_ref_with_schema_change (remove_table_column column_ref) = some column_ref.table_ref
  table_ref_with_schema_change (add_table_column parent column_refs new_column) =
      first_table_ref column_refs
  table_ref_with_schema_change _ = none

  -- `Change::requires_table_stats`.
  unfoldable pub requires_table_stats : Change V B → Bool
  requires_table_stats (write_table_data_files table_ref data_files) = true
  requires_table_stats (write_table_inline_data table_ref batches) = true
  requires_table_stats _ = false
