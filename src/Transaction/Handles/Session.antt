-- ===== src/Transaction/Handles/Session.antt =====
-- A session of a transaction (crates/ducklake/src/transaction): its operations in the order in which they
-- are called. An operation that fails changes nothing or leaves what it did before, and the next one
-- follows. Writes of data, which leave the catalog alone, and new macros are left out.
use ducklake_sdk.Common.{Bool, List, [], ◌∷◌, Option}
use ducklake_sdk.Common.Run.{Run}
use ducklake_sdk.Common.Text.{Text}
use ducklake_sdk.Typedefs.Names.{QualifiedName}
use ducklake_sdk.Typedefs.Tags.{Tag, Tags}
use ducklake_sdk.Typedefs.Schema.{DataType, ColumnDefault, Column}
use ducklake_sdk.Typedefs.Layout.{PartitionColumn, SortExpression, MacroType}
use ducklake_sdk.Spec.Entities.{DucklakeColumn}
use ducklake_sdk.Catalog.Operations.{TableInfo}
use ducklake_sdk.Transaction.Handles.{Transaction, IfExistsStrategy}
use ducklake_sdk.Transaction.Handles.Schemas
use ducklake_sdk.Transaction.Handles.Schemas.{Parsers}
use ducklake_sdk.Transaction.Handles.Tables
use ducklake_sdk.Transaction.Handles.Tables.{TableRequest}
use ducklake_sdk.Transaction.Handles.Columns
use ducklake_sdk.Transaction.Handles.Columns.{ColumnServices}
use ducklake_sdk.Transaction.Handles.Named.{Sound}
use ducklake_sdk.Transaction.Handles.Named.Schemas.{
  create_schema-Keeping, delete_schema-Keeping, create_view-Keeping, delete_view-Keeping,
  delete_macro-Keeping, delete_table-Keeping, delete_table_inner-Keeping,
}
use ducklake_sdk.Transaction.Handles.Named.Tables.{
  create_table-Keeping, create_transfer_table-Keeping, rename_table-Keeping,
  update_table_partitioning-Keeping, update_table_sort_info-Keeping, add_table_tag-Keeping,
  remove_table_tag-Keeping,
}
use ducklake_sdk.Transaction.Handles.Named.Columns.{
  add_column_to_table-Keeping, remove_column_from_table-Keeping, rename_column_of_table-Keeping,
  update_table_column_dtype-Keeping, update_table_column_default-Keeping,
  update_table_column_nullability-Keeping, update_table_schema-Keeping,
  add_table_column_tag-Keeping, remove_table_column_tag-Keeping,
}

-- The operations that a transaction offers, with their arguments.
pub data Operation (V : Type 0) : Type 0 where
  create_schema : Text → Option Text → IfExistsStrategy → Operation V
  delete_schema : Text → Bool → IfExistsStrategy → Operation V
  create_view :
      QualifiedName → Text → Option (List Text) → Option Tags → IfExistsStrategy → Operation V
  delete_view : QualifiedName → IfExistsStrategy → Operation V
  delete_macro : QualifiedName → MacroType → IfExistsStrategy → Operation V
  create_table : QualifiedName → TableRequest V → IfExistsStrategy → Operation V
  create_transfer_table : QualifiedName → TableInfo V → List DucklakeColumn → Operation V
  delete_table : QualifiedName → IfExistsStrategy → Operation V
  delete_table_inner : QualifiedName → Bool → Operation V
  rename_table : QualifiedName → Text → Operation V
  update_table_partitioning : QualifiedName → Option (List PartitionColumn) → Operation V
  update_table_sort_info : QualifiedName → Option (List SortExpression) → Operation V
  add_table_tag : QualifiedName → Tag → Operation V
  remove_table_tag : QualifiedName → Text → Operation V
  add_column_to_table : QualifiedName → Column V → List Text → Operation V
  remove_column_from_table : QualifiedName → List Text → Operation V
  rename_column_of_table : QualifiedName → List Text → Text → Operation V
  update_table_column_dtype : QualifiedName → List Text → DataType V → Operation V
  update_table_column_default : QualifiedName → List Text → ColumnDefault V → Operation V
  update_table_column_nullability : QualifiedName → List Text → Bool → Operation V
  update_table_schema : QualifiedName → List (Column V) → Operation V
  add_table_column_tag : QualifiedName → List Text → Tag → Operation V
  remove_table_column_tag : QualifiedName → List Text → Text → Operation V

module _ {S V B : Type 0} (p : Parsers S) (s : ColumnServices V) where
  -- A call of an operation.
  unfoldable pub call : Operation V → Run (Transaction V B) (Unit {0})
  unfolding Schemas.create_schema Schemas.delete_schema Schemas.create_view Schemas.delete_view
      Schemas.delete_macro Tables.create_table Tables.create_transfer_table Schemas.delete_table
      Schemas.delete_table_inner Tables.rename_table Tables.update_table_partitioning
      Tables.update_table_sort_info Tables.add_table_tag Tables.remove_table_tag
      Columns.add_column_to_table Columns.remove_column_from_table Columns.rename_column_of_table
      Columns.update_table_column_dtype Columns.update_table_column_default
      Columns.update_table_column_nullability Columns.update_table_schema
      Columns.add_table_column_tag Columns.remove_table_column_tag
  call (create_schema name path strategy) = Schemas.create_schema p name path strategy
  call (delete_schema name cascade strategy) = Schemas.delete_schema name cascade strategy
  call (create_view name sql aliases tags strategy) =
      Schemas.create_view p name sql aliases tags strategy
  call (delete_view name strategy) = Schemas.delete_view name strategy
  call (delete_macro name kind strategy) = Schemas.delete_macro name kind strategy
  call (create_table name request strategy) = Tables.create_table p name request strategy
  call (create_transfer_table name info retired) = Tables.create_transfer_table p name info retired
  call (delete_table name strategy) = Schemas.delete_table name strategy
  call (delete_table_inner name detach) = Schemas.delete_table_inner name detach
  call (rename_table name new) = Tables.rename_table name new
  call (update_table_partitioning name columns) = Tables.update_table_partitioning name columns
  call (update_table_sort_info name expressions) = Tables.update_table_sort_info name expressions
  call (add_table_tag name tag) = Tables.add_table_tag name tag
  call (remove_table_tag name key) = Tables.remove_table_tag name key
  call (add_column_to_table name col path) = Columns.add_column_to_table s name col path
  call (remove_column_from_table name path) = Columns.remove_column_from_table name path
  call (rename_column_of_table name path new) = Columns.rename_column_of_table name path new
  call (update_table_column_dtype name path dtype) =
      Columns.update_table_column_dtype s name path dtype
  call (update_table_column_default name path default) =
      Columns.update_table_column_default name path default
  call (update_table_column_nullability name path nullable) =
      Columns.update_table_column_nullability s name path nullable
  call (update_table_schema name columns) = Columns.update_table_schema s name columns
  call (add_table_column_tag name path tag) = Columns.add_table_column_tag name path tag
  call (remove_table_column_tag name path key) = Columns.remove_table_column_tag name path key

  -- Calls one after the other, whether they fail or not.
  unfoldable pub session : List (Operation V) → Transaction V B → Transaction V B
  unfolding call
  session [] tx = tx
  session (op ∷ ops) tx = session ops ((call op tx).1)

  call-Sound : (op : Operation V) (tx : Transaction V B) → Sound tx → Sound ((call op tx).1)
  unfolding call
  call-Sound (create_schema name path strategy) = create_schema-Keeping p name path strategy
  call-Sound (delete_schema name cascade strategy) = delete_schema-Keeping name cascade strategy
  call-Sound (create_view name sql aliases tags strategy) =
      create_view-Keeping p name sql aliases tags strategy
  call-Sound (delete_view name strategy) = delete_view-Keeping name strategy
  call-Sound (delete_macro name kind strategy) = delete_macro-Keeping name kind strategy
  call-Sound (create_table name request strategy) = create_table-Keeping p name request strategy
  call-Sound (create_transfer_table name info retired) =
      create_transfer_table-Keeping p name info retired
  call-Sound (delete_table name strategy) = delete_table-Keeping name strategy
  call-Sound (delete_table_inner name detach) = delete_table_inner-Keeping name detach
  call-Sound (rename_table name new) = rename_table-Keeping name new
  call-Sound (update_table_partitioning name columns) =
      update_table_partitioning-Keeping name columns
  call-Sound (update_table_sort_info name expressions) =
      update_table_sort_info-Keeping name expressions
  call-Sound (add_table_tag name tag) = add_table_tag-Keeping name tag
  call-Sound (remove_table_tag name key) = remove_table_tag-Keeping name key
  call-Sound (add_column_to_table name col path) = add_column_to_table-Keeping s name col path
  call-Sound (remove_column_from_table name path) = remove_column_from_table-Keeping name path
  call-Sound (rename_column_of_table name path new) = rename_column_of_table-Keeping name path new
  call-Sound (update_table_column_dtype name path dtype) =
      update_table_column_dtype-Keeping s name path dtype
  call-Sound (update_table_column_default name path default) =
      update_table_column_default-Keeping name path default
  call-Sound (update_table_column_nullability name path nullable) =
      update_table_column_nullability-Keeping s name path nullable
  call-Sound (update_table_schema name columns) = update_table_schema-Keeping s name columns
  call-Sound (add_table_column_tag name path tag) = add_table_column_tag-Keeping name path tag
  call-Sound (remove_table_column_tag name path key) = remove_table_column_tag-Keeping name path key

  -- Whichever of these operations are called in a transaction, and whichever calls fail, each name of its
  -- catalog leads to an entity of that name, in the schema of that name, and no table has the name of a
  -- view, if this holds at the start.
  pub session-Sound :
      (ops : List (Operation V)) (tx : Transaction V B) → Sound tx → Sound (session ops tx)
  unfolding session
  session-Sound [] tx h = h
  session-Sound (op ∷ ops) tx h = session-Sound ops ((call op tx).1) (call-Sound op tx h)
