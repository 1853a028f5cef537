-- ===== src/Transaction/Handles/Named/Columns.antt =====
-- Updates of the columns of tables keep the names of the catalog of a transaction
-- (crates/ducklake/src/transaction/table.rs).
use ducklake_sdk.Common.{
  ℕ, zero, suc, Bool, List, [], ◌∷◌, ◌++◌, Option, none, some, if◌then◌else◌, list_beq, list_eq,
  nat_eq,
}
use ducklake_sdk.Common.Run.{Run, return, lift, each, ◌>>=◌}
use ducklake_sdk.Common.Text.{Text, codes}
use ducklake_sdk.Common.Error.{Result, ok}
use ducklake_sdk.Primitives.DiffIterator.{EitherOrBoth, both, left, right, iter_vec_diff}
use ducklake_sdk.Typedefs.Names.{QualifiedName}
use ducklake_sdk.Typedefs.Tags.{Tag}
use ducklake_sdk.Typedefs.Layout.{SortExpression}
use ducklake_sdk.Catalog.Columns.Flat.{size_below}
use ducklake_sdk.Typedefs.Schema.{DataType, ColumnDefault, Column}
use ducklake_sdk.Catalog.Entities.{ArenaIdx, CatalogTable}
use ducklake_sdk.Catalog.Columns.{name_of}
use ducklake_sdk.Catalog.Columns.ToSchema.{try_schema}
use ducklake_sdk.Catalog.Operations.{on_table}
use ducklake_sdk.Catalog.TableReads.{sorted_by, column_at, column_info, schema_of}
use ducklake_sdk.Catalog.TableUpdates.{
  Told, ensure_next_column_id, add_table_column, remove_table_column, rename_table_column,
  update_primitive_data_type, update_default_value, update_nullability, add_column_tag,
  remove_column_tag,
}
use ducklake_sdk.Transaction.Change.{Change}
use ducklake_sdk.Transaction.Handles.{Transaction, record_change}
use ducklake_sdk.Transaction.Handles.Columns.{
  ColumnServices, can_promote_to, column_list, dtype_of, default_of, nullable_of, bool_eq, last_of,
  resort, told_change, tell, may_forbid_nulls, update_field, update_nested, update_column_of,
  update_table_column_default, remove_column_from_table, add_table_column_tag,
  remove_table_column_tag, rename_column_of_table, add_column_to_table,
  update_table_column_nullability, update_table_column_dtype_recursive, update_table_column_dtype,
  update_table_schema,
}
use ducklake_sdk.Catalog.TableUpdates.Name.{
  KeepsName, update_primitive_data_type-KeepsName, update_default_value-KeepsName,
  update_nullability-KeepsName, rename_table_column-KeepsName, add_table_column-KeepsName,
  remove_table_column-KeepsName, add_column_tag-KeepsName, remove_column_tag-KeepsName,
  ensure_next_column_id-KeepsName,
}
use ducklake_sdk.Catalog.Operations.Named.Rename.{on_table-IsNamed}
use ducklake_sdk.Transaction.Handles.Named.Tables.{update-Keeping}
use ducklake_sdk.Transaction.Handles.Named.{
  Keeping, bind-Keeping, look-Keeping, lift-Keeping, on_catalog-Keeping, if-Keeping, each-Keeping,
  guarded-Keeping,
}

module _ {V B : Type 0} where
  tell-Keeping :
      (name : QualifiedName) (f : ArenaIdx → CatalogTable V → Result (Told V × CatalogTable V))
      → ((idx : ArenaIdx) → KeepsName (f idx))
      → Keeping {V = V} {B = B} (tell name f)
  unfolding tell
  tell-Keeping name f p =
      update-Keeping name f (λ idx seen. record_change (told_change seen)) p (λ idx seen tx h. h)

  pub update_table_column_default-Keeping :
      (name : QualifiedName) (path : List Text) (d : ColumnDefault V)
      → Keeping {V = V} {B = B} (update_table_column_default name path d)
  unfolding update_table_column_default
  update_table_column_default-Keeping name path d =
      tell-Keeping name (λ idx. update_default_value idx path d)
        (λ idx. update_default_value-KeepsName idx path d)

  pub remove_column_from_table-Keeping :
      (name : QualifiedName) (path : List Text)
      → Keeping {V = V} {B = B} (remove_column_from_table name path)
  unfolding remove_column_from_table
  remove_column_from_table-Keeping name path =
      update-Keeping name (λ idx. remove_table_column idx path)
        (λ idx refs. each (λ r. record_change (Change.remove_table_column r)) refs)
        (λ idx. remove_table_column-KeepsName idx path)
        (λ idx refs.
          each-Keeping (λ r. record_change (Change.remove_table_column r)) refs (λ r tx h. h))

  pub add_table_column_tag-Keeping :
      (name : QualifiedName) (path : List Text) (tag : Tag)
      → Keeping {V = V} {B = B} (add_table_column_tag name path tag)
  unfolding add_table_column_tag
  add_table_column_tag-Keeping name path tag =
      update-Keeping name (λ idx. add_column_tag idx path tag)
        (λ idx at. record_change (Change.add_table_column_tag at tag))
        (λ idx. add_column_tag-KeepsName idx path tag) (λ idx at tx h. h)

  pub remove_table_column_tag-Keeping :
      (name : QualifiedName) (path : List Text) (key : Text)
      → Keeping {V = V} {B = B} (remove_table_column_tag name path key)
  unfolding remove_table_column_tag
  remove_table_column_tag-Keeping name path key =
      update-Keeping name (λ idx. remove_column_tag idx path key)
        (λ idx at. record_change (Change.remove_table_column_tag at key))
        (λ idx. remove_column_tag-KeepsName idx path key) (λ idx at tx h. h)

  resort-Keeping :
      (idx : ArenaIdx) (sort : Option (List SortExpression))
      → Keeping {V = V} {B = B} (resort idx sort)
  resort-Keeping idx none tx h = h
  resort-Keeping idx (some expressions) tx h = h

  pub rename_column_of_table-Keeping :
      (name : QualifiedName) (path : List Text) (new : Text)
      → Keeping {V = V} {B = B} (rename_column_of_table name path new)
  unfolding rename_column_of_table
  rename_column_of_table-Keeping name path new = lift-Keeping (last_of path) _ (λ last.
      if-Keeping (list_beq last new) (return tt) _ (λ tx h. h)
        (update-Keeping name (λ idx. rename_table_column idx path new) _
          (λ idx. rename_table_column-KeepsName idx path new)
          (λ idx seen. look-Keeping (sorted_by idx seen.1.column_idx) _ (λ sort tx e h.
            bind-Keeping (record_change (told_change seen)) (λ u. resort idx sort) (λ tx h. h)
              (λ u. resort-Keeping idx sort) tx h))))

module _ {V B : Type 0} (services : ColumnServices V) where
  open services use {same_dtype, load_next_column_id}

  pub add_column_to_table-Keeping :
      (name : QualifiedName) (col : Column V) (path : List Text)
      → Keeping {V = V} {B = B} (add_column_to_table services name col path)
  unfolding add_column_to_table
  add_column_to_table-Keeping name col path =
      update-Keeping name (λ idx. ensure_next_column_id load_next_column_id) _
        (λ idx. ensure_next_column_id-KeepsName load_next_column_id)
        (λ idx u tx h.
          on_catalog-Keeping (on_table idx (add_table_column idx path col)) _ tx
            (on_table-IsNamed idx (add_table_column idx path col) tx.catalog
              (add_table_column-KeepsName idx path col) h)
            (λ refs tx h. h))

  pub update_table_column_nullability-Keeping :
      (name : QualifiedName) (path : List Text) (nullable : Bool)
      → Keeping {V = V} {B = B} (update_table_column_nullability services name path nullable)
  unfolding update_table_column_nullability
  update_table_column_nullability-Keeping name path nullable =
      look-Keeping (column_at name path) _ (λ seen tx e.
        if-Keeping (bool_eq seen.1.nullable nullable) (return tt) _ (λ tx h. h)
          (lift-Keeping (if nullable then ok tt else may_forbid_nulls services path seen.0 seen.1) _
            (λ u.
              tell-Keeping name (λ idx. update_nullability idx path nullable)
                (λ idx. update_nullability-KeepsName idx path nullable)))
          tx)

  module _ (descend : List Text → DataType V → DataType V → Run (Transaction V B) (Unit {0}))
      (d : (path : List Text) (old new : DataType V) → Keeping (descend path old new)) where
    update_field-Keeping :
        (name : QualifiedName) (path : List Text) (item : EitherOrBoth (Column V))
        → Keeping (update_field services descend name path item)
    unfolding update_field
    update_field-Keeping name path (both old new) =
        d (path ++ (name_of old ∷ [])) (dtype_of old) (dtype_of new)
    update_field-Keeping name path (left old) =
        remove_column_from_table-Keeping name (path ++ (name_of old ∷ []))
    update_field-Keeping name path (right new) = add_column_to_table-Keeping name new path

    update_nested-Keeping :
        (name : QualifiedName) (path : List Text) (old new : DataType V)
        → Keeping (update_nested services descend name path old new)
    unfolding update_nested
    update_nested-Keeping name path (DataType.struct old) (DataType.struct new) =
        each-Keeping (update_field services descend name path)
          (iter_vec_diff name_of (column_list old) (column_list new))
          (update_field-Keeping name path)
    update_nested-Keeping name path (DataType.list old) (DataType.list new) =
        d (path ++ (codes "element" ∷ [])) (dtype_of old) (dtype_of new)
    update_nested-Keeping name path (DataType.map old_key old_value)
          (DataType.map new_key new_value) =
        bind-Keeping (descend (path ++ (codes "key" ∷ [])) (dtype_of old_key) (dtype_of new_key)) _
          (d (path ++ (codes "key" ∷ [])) (dtype_of old_key) (dtype_of new_key))
          (λ u. d (path ++ (codes "value" ∷ [])) (dtype_of old_value) (dtype_of new_value))
    update_nested-Keeping name path _ _ = λ tx h. h

  update_table_column_dtype_recursive-Keeping :
      (fuel : ℕ) (name : QualifiedName) (path : List Text) (old new : DataType V)
      → Keeping {V = V} {B = B}
          (update_table_column_dtype_recursive services fuel name path old new)
  unfolding update_table_column_dtype_recursive
  update_table_column_dtype_recursive-Keeping zero name path old new = λ tx h. h
  update_table_column_dtype_recursive-Keeping (suc fuel) name path old new =
      if-Keeping (same_dtype old new) (return tt) _ (λ tx h. h)
        (if-Keeping (can_promote_to old new)
          (tell name (λ idx. update_primitive_data_type idx path new)) _
          (tell-Keeping name (λ idx. update_primitive_data_type idx path new)
            (λ idx. update_primitive_data_type-KeepsName idx path new))
          (update_nested-Keeping (update_table_column_dtype_recursive services fuel name)
            (λ path old new. update_table_column_dtype_recursive-Keeping fuel name path old new)
            name path old new))

  pub update_table_column_dtype-Keeping :
      (name : QualifiedName) (path : List Text) (d : DataType V)
      → Keeping {V = V} {B = B} (update_table_column_dtype services name path d)
  unfolding update_table_column_dtype
  update_table_column_dtype-Keeping name path d =
      look-Keeping (column_info name path) _ (λ existing tx e.
        guarded-Keeping
          (update_table_column_dtype_recursive services (suc (size_below d)) name path
            (dtype_of existing) d)
          (update_table_column_dtype_recursive-Keeping (suc (size_below d)) name path
            (dtype_of existing) d)
          tx)

  update_column_of-Keeping :
      (name : QualifiedName) (item : EitherOrBoth (Column V))
      → Keeping {V = V} {B = B} (update_column_of services name item)
  unfolding update_column_of
  update_column_of-Keeping name (both old new) =
      bind-Keeping _ _
        (bind-Keeping (update_table_column_dtype services name (name_of new ∷ []) (dtype_of new)) _
          (update_table_column_dtype-Keeping name (name_of new ∷ []) (dtype_of new))
          (λ u. update_table_column_default-Keeping name (name_of new ∷ []) (default_of new)))
        (λ u. update_table_column_nullability-Keeping name (name_of new ∷ []) (nullable_of new))
  update_column_of-Keeping name (left old) =
      remove_column_from_table-Keeping name (name_of old ∷ [])
  update_column_of-Keeping name (right new) = add_column_to_table-Keeping name new []

  pub update_table_schema-Keeping :
      (name : QualifiedName) (columns : List (Column V))
      → Keeping {V = V} {B = B} (update_table_schema services name columns)
  unfolding update_table_schema
  update_table_schema-Keeping name columns = look-Keeping (schema_of name) _ (λ old tx e.
      guarded-Keeping
        (lift (try_schema [] columns) >>= λ new.
          each (update_column_of services name) (iter_vec_diff name_of old new))
        (lift-Keeping (try_schema [] columns) _ (λ new.
          each-Keeping (update_column_of services name) (iter_vec_diff name_of old new)
            (update_column_of-Keeping name)))
        tx)
