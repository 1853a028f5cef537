-- ===== src/Transaction/Handles/Named/Tables.antt =====
-- Creating, renaming and updating tables keep the names of the catalog of a transaction
-- (crates/ducklake/src/transaction/table.rs).
use ducklake_sdk.Common.{
  inl, inr, Bool-cases, List, [], Option, none, some, list_beq, list_eq, nat_eq,
}
use ducklake_sdk.Common.Run.{Run, ◌>>=◌}
use ducklake_sdk.Common.Text.{Text}
use ducklake_sdk.Common.Error.{Result}
use ducklake_sdk.Typedefs.Names.{QualifiedName}
use ducklake_sdk.Typedefs.Tags.{Tag}
use ducklake_sdk.Typedefs.Layout.{PartitionColumn, SortExpression}
use ducklake_sdk.Spec.Entities.{DucklakeColumn}
use ducklake_sdk.Catalog.Entities.{ArenaIdx}
use ducklake_sdk.Catalog.Columns.ToSchema.{try_schema}
use ducklake_sdk.Catalog.Lookup.{table_ref}
use ducklake_sdk.Catalog.Operations.{TableInfo, add_table, rename, on_table}
use ducklake_sdk.Catalog.TableUpdates.{update_partitioning, update_sort_info, add_tag, remove_tag}
use ducklake_sdk.Transaction.Change.{Change}
use ducklake_sdk.Transaction.Handles.{
  Transaction, IfExistsStrategy, fail, on_catalog, look_catalog, record_change,
}
use ducklake_sdk.Transaction.Handles.Schemas.{Parsers, directory_of, or_else}
use ducklake_sdk.Transaction.Handles.Tables.{
  TableRequest, create_table_inner, create_table, create_transfer_table, reserved_column_id,
  rename_table, update_table_partitioning, update_table_sort_info, add_table_tag, remove_table_tag,
}
use ducklake_sdk.Catalog.TableUpdates.Name.{
  KeepsName, update_partitioning-KeepsName, update_sort_info-KeepsName, add_tag-KeepsName,
  remove_tag-KeepsName,
}
use ducklake_sdk.Catalog.Entities.{CatalogTable}
use ducklake_sdk.Catalog.Operations.Named.Add.{add_table-IsNamed}
use ducklake_sdk.Catalog.Operations.Named.Rename.{rename-IsNamed, on_table-IsNamed}
use ducklake_sdk.Transaction.Handles.Named.{
  Keeping, look-Keeping, lift-Keeping, on_catalog-Keeping, record_change-Keeping,
  unless_there-Keeping,
}

module _ {V B : Type 0} where
  -- An update of the table that a name leads to, and what follows it.
  pub update-Keeping :
      {A C : Type 0} (name : QualifiedName)
      (f : ArenaIdx → CatalogTable V → Result (A × CatalogTable V))
      (k : ArenaIdx → A → Run (Transaction V B) C)
      → ((idx : ArenaIdx) → KeepsName (f idx))
      → ((idx : ArenaIdx) (a : A) → Keeping (k idx a))
      → Keeping (
          look_catalog (λ c. table_ref c name) >>= λ idx.
          on_catalog (on_table idx (f idx)) >>= k idx)
  update-Keeping name f k p q =
      look-Keeping (λ c. table_ref c name) (λ idx. on_catalog (on_table idx (f idx)) >>= k idx)
        (λ idx tx e h.
          on_catalog-Keeping (on_table idx (f idx)) (k idx) tx
            (on_table-IsNamed idx (f idx) tx.catalog (p idx) h) (q idx))

  pub rename_table-Keeping :
      (old : QualifiedName) (new : Text) → Keeping {V = V} {B = B} (rename_table old new)
  unfolding rename_table
  rename_table-Keeping old new tx h = elim (Bool-cases (list_beq old.name new)) [
    | inl b ↦ rw b h
    | inr b ↦ rw b (
        look-Keeping (λ c. table_ref c old) _
          (λ idx tx e h.
            on_catalog-Keeping (rename idx new)
              (λ u.
                record_change
                  (Change.rename_table idx (record { schema = old.schema; name = new })))
              tx (rename-IsNamed old idx new tx.catalog e h)
              (λ u.
                record_change-Keeping
                  (Change.rename_table idx (record { schema = old.schema; name = new }))))
          tx h)
  ]

  pub update_table_partitioning-Keeping :
      (name : QualifiedName) (columns : Option (List PartitionColumn))
      → Keeping {V = V} {B = B} (update_table_partitioning name columns)
  unfolding update_table_partitioning
  update_table_partitioning-Keeping name columns =
      update-Keeping name (λ idx. update_partitioning idx columns)
        (λ idx refs. record_change (Change.update_table_partitioning idx refs columns))
        (λ idx. update_partitioning-KeepsName idx columns) (λ idx refs tx h. h)

  pub update_table_sort_info-Keeping :
      (name : QualifiedName) (expressions : Option (List SortExpression))
      → Keeping {V = V} {B = B} (update_table_sort_info name expressions)
  unfolding update_table_sort_info
  update_table_sort_info-Keeping name expressions =
      update-Keeping name (λ idx. update_sort_info expressions)
        (λ idx u. record_change (Change.update_table_sort_info idx expressions))
        (λ idx. update_sort_info-KeepsName expressions) (λ idx refs tx h. h)

  pub add_table_tag-Keeping :
      (name : QualifiedName) (tag : Tag) → Keeping {V = V} {B = B} (add_table_tag name tag)
  unfolding add_table_tag
  add_table_tag-Keeping name tag =
      update-Keeping name (λ idx. add_tag tag)
        (λ idx u. record_change (Change.add_table_tag idx tag)) (λ idx. add_tag-KeepsName tag)
        (λ idx refs tx h. h)

  pub remove_table_tag-Keeping :
      (name : QualifiedName) (key : Text) → Keeping {V = V} {B = B} (remove_table_tag name key)
  unfolding remove_table_tag
  remove_table_tag-Keeping name key =
      update-Keeping name (λ idx. remove_tag key)
        (λ idx u. record_change (Change.remove_table_tag idx key)) (λ idx. remove_tag-KeepsName key)
        (λ idx refs tx h. h)

module _ {S V B : Type 0} (p : Parsers S) where
  create_table_inner-Keeping :
      (name : QualifiedName) (request : TableRequest V) (strategy : IfExistsStrategy)
      (retired : Option (List DucklakeColumn))
      → Keeping {V = V} {B = B} (create_table_inner p name request strategy retired)
  unfolding create_table_inner
  create_table_inner-Keeping name request strategy retired =
      unless_there-Keeping strategy (λ c. table_ref c name) _
        (lift-Keeping (directory_of p request.path name.name) _ (λ path.
          lift-Keeping (try_schema [] request.columns) _ (λ schema tx h.
            let info : TableInfo V = record {
              name = name;
              schema = schema;
              partitioning = request.partition_columns;
              sort_info = request.sort_info;
              tags = or_else request.tags [];
            } in
            let next = reserved_column_id request.columns retired in
            on_catalog-Keeping (add_table info path next) _ tx
              (add_table-IsNamed info path next tx.catalog h) (λ refs tx h. h))))

  pub create_table-Keeping :
      (name : QualifiedName) (request : TableRequest V) (strategy : IfExistsStrategy)
      → Keeping {V = V} {B = B} (create_table p name request strategy)
  unfolding create_table
  create_table-Keeping name request strategy = create_table_inner-Keeping name request strategy none

  pub create_transfer_table-Keeping :
      (name : QualifiedName) (info : TableInfo V) (retired : List DucklakeColumn)
      → Keeping {V = V} {B = B} (create_transfer_table p name info retired)
  unfolding create_transfer_table
  create_transfer_table-Keeping name info retired =
      create_table_inner-Keeping name
        (record {
          columns = info.schema;
          partition_columns = info.partitioning;
          sort_info = info.sort_info;
          path = none;
          tags = some info.tags;
        })
        fail (some retired)
