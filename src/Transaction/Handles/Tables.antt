-- ===== src/Transaction/Handles/Tables.antt =====
-- crates/ducklake/src/transaction/table.rs: creating, renaming, partitioning, sorting and tagging tables.
use ducklake_sdk.Common.{
  List, [], ◌∷◌, ◌++◌, map, Option, none, some, if◌then◌else◌, list_beq, list_eq, nat_eq,
}
use ducklake_sdk.Common.Run.{Run, lift, ◌>>=◌, ◌>>◌}
use ducklake_sdk.Common.Int.{ℤ, pos, add_i64, ltb_ℤ}
use ducklake_sdk.Common.Text.{Text}
use ducklake_sdk.Common.Error.{ok}
use ducklake_sdk.Typedefs.Names.{QualifiedName}
use ducklake_sdk.Typedefs.Tags.{Tag, Tags}
use ducklake_sdk.Typedefs.Layout.{PartitionColumn, SortExpression}
use ducklake_sdk.Typedefs.Schema.{Column, column, FlattenedColumn, flatten}
use ducklake_sdk.Spec.Entities.{DucklakeColumn}
use ducklake_sdk.Catalog.Columns.ToSchema.{try_schema}
use ducklake_sdk.Catalog.Lookup.{table_ref}
use ducklake_sdk.Catalog.Operations.{TableInfo, add_table, rename, on_table}
use ducklake_sdk.Catalog.TableUpdates.{update_partitioning, update_sort_info, add_tag, remove_tag}
use ducklake_sdk.Transaction.Change.{Change}
use ducklake_sdk.Transaction.Handles.{
  Transaction, IfExistsStrategy, fail, on_catalog, look_catalog, record_change, unless_there,
}
use ducklake_sdk.Transaction.Handles.Schemas.{Parsers, directory_of, or_else}

-- `max().unwrap_or(0)`.
abbrev max_from : ℤ → List ℤ → ℤ
max_from m [] = m
max_from m (i ∷ ids) = max_from (if ltb_ℤ i m then m else i) ids

abbrev max_or_zero : List ℤ → ℤ
max_or_zero [] = pos 0
max_or_zero (i ∷ ids) = max_from i ids

abbrev field_ids : {V : Type 0} → List (FlattenedColumn V) → List ℤ
field_ids [] = []
field_ids (f ∷ columns) =
    let rest = field_ids columns in
    elim f.column [ column dtype info ↦ elim info.field_id [ none ↦ rest | some id ↦ id ∷ rest ] ]

abbrev all_field_ids : {V : Type 0} → List (Column V) → List ℤ
unfolding flatten
all_field_ids [] = []
all_field_ids (col ∷ columns) = field_ids (flatten col) ++ all_field_ids columns

-- `next_column_id` of `create_table_inner`: one more than every ID of a column, also of retired ones.
unfoldable pub reserved_column_id :
    {V : Type 0} → List (Column V) → Option (List DucklakeColumn) → Option ℤ
unfolding all_field_ids add_i64
reserved_column_id columns none = none
reserved_column_id columns (some retired) =
    some
      (add_i64 (max_or_zero (all_field_ids columns ++ map (λ col. col.column_id) retired)) (pos 1))

-- What the user gives beside the name of a new table.
pub record TableRequest (V : Type 0) : Type 0 where
  pub columns : List (Column V)
  pub partition_columns : Option (List PartitionColumn)
  pub sort_info : Option (List SortExpression)
  pub path : Option Text
  pub tags : Option Tags

module _ {S V B : Type 0} (p : Parsers S) where
  -- `Transaction::create_table_inner`. `retired` is given by transfers.
  unfoldable pub create_table_inner :
      QualifiedName
      → TableRequest V
      → IfExistsStrategy
      → Option (List DucklakeColumn)
      → Run (Transaction V B) (Unit {0})
  unfolding table_ref add_table directory_of try_schema reserved_column_id
  create_table_inner name request strategy retired =
      unless_there strategy (λ c. table_ref c name)
        (lift (directory_of p request.path name.name) >>= λ path.
          lift (try_schema [] request.columns) >>= λ schema.
          on_catalog (
            add_table
              (record {
                name = name;
                schema = schema;
                partitioning = request.partition_columns;
                sort_info = request.sort_info;
                tags = or_else request.tags [];
              })
              path (reserved_column_id request.columns retired))
          >>= λ refs. record_change (
              Change.create_table refs.0 refs.1 (record {
                column_refs = refs.2;
                partition_column_refs = refs.3;
                name = name;
                columns = request.columns;
                retired_columns = or_else retired [];
                partition_columns = request.partition_columns;
                sort_info = request.sort_info;
                path = path;
                tags = or_else request.tags [];
              })))

  -- `Transaction::create_table`.
  unfoldable pub create_table :
      QualifiedName → TableRequest V → IfExistsStrategy → Run (Transaction V B) (Unit {0})
  unfolding create_table_inner
  create_table name request strategy = create_table_inner name request strategy none

  -- `Transaction::create_transfer_table`.
  unfoldable pub create_transfer_table :
      QualifiedName → TableInfo V → List DucklakeColumn → Run (Transaction V B) (Unit {0})
  unfolding create_table_inner
  create_transfer_table name info retired =
      create_table_inner name
        (record {
          columns = info.schema;
          partition_columns = info.partitioning;
          sort_info = info.sort_info;
          path = none;
          tags = some info.tags;
        })
        fail (some retired)

module _ {V B : Type 0} where
  -- `Transaction::rename_table`.
  unfoldable pub rename_table : QualifiedName → Text → Run (Transaction V B) (Unit {0})
  unfolding table_ref rename
  rename_table old_name new_name tx =
      if list_beq old_name.name new_name
      then (ok tt, tx)
      else (look_catalog (λ c. table_ref c old_name) >>= λ idx.
            on_catalog (rename idx new_name)
            >> record_change
                (Change.rename_table idx (record { schema = old_name.schema; name = new_name })))
          tx

  -- `Transaction::update_table_partitioning`.
  unfoldable pub update_table_partitioning :
      QualifiedName → Option (List PartitionColumn) → Run (Transaction V B) (Unit {0})
  unfolding table_ref on_table update_partitioning
  update_table_partitioning name columns = look_catalog (λ c. table_ref c name) >>= λ idx.
      on_catalog (on_table idx (update_partitioning idx columns)) >>= λ refs.
      record_change (Change.update_table_partitioning idx refs columns)

  -- `Transaction::update_table_sort_info`.
  unfoldable pub update_table_sort_info :
      QualifiedName → Option (List SortExpression) → Run (Transaction V B) (Unit {0})
  unfolding table_ref on_table update_sort_info
  update_table_sort_info name expressions = look_catalog (λ c. table_ref c name) >>= λ idx.
      on_catalog (on_table idx (update_sort_info expressions))
      >> record_change (Change.update_table_sort_info idx expressions)

  -- `Transaction::add_table_tag`.
  unfoldable pub add_table_tag : QualifiedName → Tag → Run (Transaction V B) (Unit {0})
  unfolding table_ref on_table add_tag
  add_table_tag name tag = look_catalog (λ c. table_ref c name) >>= λ idx.
      on_catalog (on_table idx (add_tag tag)) >> record_change (Change.add_table_tag idx tag)

  -- `Transaction::remove_table_tag`.
  unfoldable pub remove_table_tag : QualifiedName → Text → Run (Transaction V B) (Unit {0})
  unfolding table_ref on_table remove_tag
  remove_table_tag name key = look_catalog (λ c. table_ref c name) >>= λ idx.
      on_catalog (on_table idx (remove_tag key)) >> record_change (Change.remove_table_tag idx key)
