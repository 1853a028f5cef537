-- ===== src/Transaction/Handles/Columns.antt =====
-- crates/ducklake/src/transaction/table.rs: the columns of tables. A change of a type descends on fuel, one
-- more than the new type is deep.
use ducklake_sdk.Common.{
  ℕ, zero, suc, Bool, true, false, List, [], ◌∷◌, ◌++◌, not, Option, none, some, if◌then◌else◌,
  list_beq, list_eq, nat_eq,
}
use ducklake_sdk.Common.Run.{Run, return, raise, lift, each, ◌>>=◌, ◌>>◌}
use ducklake_sdk.Common.Int.{ℤ}
use ducklake_sdk.Common.IntMap.{IntMap, lookup}
use ducklake_sdk.Common.Text.{Text, codes}
use ducklake_sdk.Common.Error.{Result, ok, err, panicked, invalid_cast, invalid_nullability_change}
use ducklake_sdk.Primitives.DiffIterator.{EitherOrBoth, both, left, right, iter_vec_diff}
use ducklake_sdk.Typedefs.Names.{QualifiedName, format_identifier}
use ducklake_sdk.Typedefs.Tags.{Tag}
use ducklake_sdk.Typedefs.Layout.{SortExpression}
use ducklake_sdk.Catalog.Columns.Flat.{size, size_below}
use ducklake_sdk.Typedefs.Schema.{DataType, ColumnDefault, Column, column, Columns, nil, cons}
use ducklake_sdk.Caches.TableStats.{TableStats}
use ducklake_sdk.Catalog.Entities.{ArenaIdx, CatalogTable, CatalogColumn}
use ducklake_sdk.Catalog.Lookup.{table_ref}
use ducklake_sdk.Catalog.Columns.{name_of}
use ducklake_sdk.Catalog.Columns.ToSchema.{try_schema}
use ducklake_sdk.Catalog.Operations.{on_table}
use ducklake_sdk.Catalog.TableReads.{sorted_by, column_at, column_info, schema_of}
use ducklake_sdk.Catalog.TableUpdates.{
  Told, ensure_next_column_id, add_table_column, remove_table_column, rename_table_column,
  update_primitive_data_type, update_default_value, update_nullability, add_column_tag,
  remove_column_tag,
}
use ducklake_sdk.Transaction.Change.{Change}
use ducklake_sdk.Transaction.Handles.{Transaction, on_catalog, look_catalog, record_change, guarded}

-- What the columns need of the rest of the SDK and the database: the derived equality of types, the
-- statistics of the tables at the start of the transaction, and the next column ID of a table.
pub record ColumnServices (V : Type 0) : Type 0 where
  pub same_dtype : DataType V → DataType V → Bool
  pub table_stats : Result (IntMap (TableStats V))
  pub load_next_column_id : ℤ → Result ℤ

-- `DataType::can_promote_to`.
unfoldable pub can_promote_to : {V : Type 0} → DataType V → DataType V → Bool
can_promote_to DataType.int8 DataType.int16 = true
can_promote_to DataType.int8 DataType.int32 = true
can_promote_to DataType.int8 DataType.int64 = true
can_promote_to DataType.int16 DataType.int32 = true
can_promote_to DataType.int16 DataType.int64 = true
can_promote_to DataType.int32 DataType.int64 = true
can_promote_to DataType.uint8 DataType.uint16 = true
can_promote_to DataType.uint8 DataType.uint32 = true
can_promote_to DataType.uint8 DataType.uint64 = true
can_promote_to DataType.uint16 DataType.uint32 = true
can_promote_to DataType.uint16 DataType.uint64 = true
can_promote_to DataType.uint32 DataType.uint64 = true
can_promote_to DataType.float32 DataType.float64 = true
can_promote_to _ _ = false

abbrev pub column_list : {V : Type 0} → Columns V → List (Column V)
column_list nil = []
column_list (cons col columns) = col ∷ column_list columns

abbrev pub bool_eq : Bool → Bool → Bool
bool_eq true b = b
bool_eq false b = not b

abbrev pub dtype_of : {V : Type 0} → Column V → DataType V
dtype_of (column d info) = d

abbrev pub default_of : {V : Type 0} → Column V → ColumnDefault V
default_of (column d info) = info.default_value

abbrev pub nullable_of : {V : Type 0} → Column V → Bool
nullable_of (column d info) = info.nullable

-- Whether the statistics of the column say that it holds null values.
abbrev pub holds_null : {V : Type 0} → Option (TableStats V) → ℤ → Bool
unfolding lookup
holds_null none id = false
holds_null (some stats) id = elim (lookup stats.column_stats id) [
  | none ↦ false
  | some col ↦ elim col.contains_null [ none ↦ false | some b ↦ b ]
]

-- `column.0.last().unwrap()`.
abbrev pub last_of : List Text → Result Text
last_of [] = err panicked
last_of (name ∷ []) = ok name
last_of (name ∷ other ∷ parts) = last_of (other ∷ parts)

module _ {V B : Type 0} where
  abbrev pub told_change : Told V → Change V B
  told_change (parent, at, col) = Change.update_table_column parent at col

  -- An update of a column and the change that tells of it.
  unfoldable pub tell :
      QualifiedName
      → (ArenaIdx → CatalogTable V → Result (Told V × CatalogTable V))
      → Run (Transaction V B) (Unit {0})
  unfolding table_ref on_table
  tell name update = do
    idx ← look_catalog (λ c. table_ref c name)
    seen ← on_catalog (on_table idx (update idx))
    record_change (told_change seen)

  -- `Transaction::update_table_column_default`.
  unfoldable pub update_table_column_default :
      QualifiedName → List Text → ColumnDefault V → Run (Transaction V B) (Unit {0})
  unfolding tell update_default_value
  update_table_column_default name path default =
      tell name (λ idx. update_default_value idx path default)

  -- `Transaction::remove_table_column`.
  unfoldable pub remove_column_from_table :
      QualifiedName → List Text → Run (Transaction V B) (Unit {0})
  unfolding table_ref on_table remove_table_column
  remove_column_from_table name path = do
    idx ← look_catalog (λ c. table_ref c name)
    refs ← on_catalog (on_table idx (remove_table_column idx path))
    each (λ r. record_change (Change.remove_table_column r)) refs

  -- `Transaction::add_table_column_tag` and `remove_table_column_tag`.
  unfoldable pub add_table_column_tag :
      QualifiedName → List Text → Tag → Run (Transaction V B) (Unit {0})
  unfolding table_ref on_table add_column_tag
  add_table_column_tag name path tag = do
    idx ← look_catalog (λ c. table_ref c name)
    at ← on_catalog (on_table idx (add_column_tag idx path tag))
    record_change (Change.add_table_column_tag at tag)

  unfoldable pub remove_table_column_tag :
      QualifiedName → List Text → Text → Run (Transaction V B) (Unit {0})
  unfolding table_ref on_table remove_column_tag
  remove_table_column_tag name path key = do
    idx ← look_catalog (λ c. table_ref c name)
    at ← on_catalog (on_table idx (remove_column_tag idx path key))
    record_change (Change.remove_table_column_tag at key)

  abbrev pub resort : ArenaIdx → Option (List SortExpression) → Run (Transaction V B) (Unit {0})
  resort idx none = return tt
  resort idx (some expressions) =
      record_change (Change.update_table_sort_info idx (some expressions))

  -- `Transaction::rename_table_column`.
  unfoldable pub rename_column_of_table :
      QualifiedName → List Text → Text → Run (Transaction V B) (Unit {0})
  unfolding table_ref on_table rename_table_column sorted_by
  rename_column_of_table name path new_name = do
    last ← lift (last_of path)
    if list_beq last new_name
        then return tt
        else (look_catalog (λ c. table_ref c name) >>= λ idx.
            on_catalog (on_table idx (rename_table_column idx path new_name)) >>= λ seen.
            look_catalog (sorted_by idx seen.1.column_idx) >>= λ sort.
            record_change (told_change seen) >> resort idx sort)

module _ {V : Type 0} (services : ColumnServices V) where
  open services use {table_stats}

  -- Whether a column may be made not nullable, by what its statistics say. A table of this transaction
  -- has no ID yet.
  unfoldable pub may_forbid_nulls : List Text → CatalogTable V → CatalogColumn V → Result (Unit {0})
  unfolding lookup holds_null format_identifier
  may_forbid_nulls path t col = elim table_stats [
    | err e ↦ err e
    | ok stats ↦ elim t.id [
      | none ↦ err panicked
      | some id ↦
          if holds_null (lookup stats id) col.id
          then err (invalid_nullability_change (format_identifier path))
          else ok tt
    ]
  ]

module _ {V B : Type 0} (services : ColumnServices V) where
  open services use {same_dtype, load_next_column_id}

  -- `Transaction::add_table_column`.
  unfoldable pub add_column_to_table :
      QualifiedName → Column V → List Text → Run (Transaction V B) (Unit {0})
  unfolding table_ref on_table add_table_column ensure_next_column_id
  add_column_to_table name added path = do
    idx ← look_catalog (λ c. table_ref c name)
    on_catalog (on_table idx (ensure_next_column_id load_next_column_id))
    refs ← on_catalog (on_table idx (add_table_column idx path added))
    record_change (Change.add_table_column refs.0 refs.1 added)

  -- `Transaction::update_table_column_nullability`.
  unfoldable pub update_table_column_nullability :
      QualifiedName → List Text → Bool → Run (Transaction V B) (Unit {0})
  unfolding column_at may_forbid_nulls tell update_nullability
  update_table_column_nullability name path nullable = do
    seen ← look_catalog (column_at name path)
    if bool_eq seen.1.nullable nullable
        then return tt
        else (lift (if nullable then ok tt else may_forbid_nulls services path seen.0 seen.1)
            >> tell name (λ idx. update_nullability idx path nullable))

  -- The body of the loop over the fields of two structs. `descend` changes the type of a field.
  unfoldable pub update_field :
      (List Text → DataType V → DataType V → Run (Transaction V B) (Unit {0}))
      → QualifiedName
      → List Text
      → EitherOrBoth (Column V)
      → Run (Transaction V B) (Unit {0})
  unfolding remove_column_from_table add_column_to_table
  update_field descend name path (both old new) =
      descend (path ++ (name_of old ∷ [])) (dtype_of old) (dtype_of new)
  update_field descend name path (left old) =
      remove_column_from_table name (path ++ (name_of old ∷ []))
  update_field descend name path (right new) = add_column_to_table name new path

  -- The match of `update_table_column_dtype_recursive`, behind the promotions.
  unfoldable pub update_nested :
      (List Text → DataType V → DataType V → Run (Transaction V B) (Unit {0}))
      → QualifiedName
      → List Text
      → DataType V
      → DataType V
      → Run (Transaction V B) (Unit {0})
  unfolding update_field iter_vec_diff
  update_nested descend name path (DataType.struct old) (DataType.struct new) =
      each (update_field descend name path)
        (iter_vec_diff name_of (column_list old) (column_list new))
  update_nested descend name path (DataType.list old) (DataType.list new) =
      descend (path ++ (codes "element" ∷ [])) (dtype_of old) (dtype_of new)
  update_nested descend name path (DataType.map old_key old_value)
        (DataType.map new_key new_value) =
      descend (path ++ (codes "key" ∷ [])) (dtype_of old_key) (dtype_of new_key)
      >> descend (path ++ (codes "value" ∷ [])) (dtype_of old_value) (dtype_of new_value)
  update_nested descend name path _ _ = raise invalid_cast

  -- `Transaction::update_table_column_dtype_recursive`.
  unfoldable pub update_table_column_dtype_recursive :
      ℕ → QualifiedName → List Text → DataType V → DataType V → Run (Transaction V B) (Unit {0})
  unfolding can_promote_to tell update_primitive_data_type update_nested
  update_table_column_dtype_recursive zero name path existing target = raise panicked
  update_table_column_dtype_recursive (suc fuel) name path existing target =
      let descend = update_table_column_dtype_recursive fuel name in
      if same_dtype existing target
      then return tt
      else if can_promote_to existing target
      then tell name (λ idx. update_primitive_data_type idx path target)
      else update_nested descend name path existing target

  -- `Transaction::update_table_column_dtype`.
  unfoldable pub update_table_column_dtype :
      QualifiedName → List Text → DataType V → Run (Transaction V B) (Unit {0})
  unfolding column_info guarded update_table_column_dtype_recursive size
  update_table_column_dtype name path dtype = do
    existing ← look_catalog (column_info name path)
    guarded (
        update_table_column_dtype_recursive (suc (size_below dtype)) name path (dtype_of existing)
          dtype)

  -- The body of the loop of `update_table_schema`.
  unfoldable pub update_column_of :
      QualifiedName → EitherOrBoth (Column V) → Run (Transaction V B) (Unit {0})
  unfolding update_table_column_dtype update_table_column_default update_table_column_nullability
      remove_column_from_table add_column_to_table
  update_column_of name (both old new) =
      update_table_column_dtype name (name_of new ∷ []) (dtype_of new)
      >> update_table_column_default name (name_of new ∷ []) (default_of new)
      >> update_table_column_nullability name (name_of new ∷ []) (nullable_of new)
  update_column_of name (left old) = remove_column_from_table name (name_of old ∷ [])
  update_column_of name (right new) = add_column_to_table name new []

  -- `Transaction::update_table_schema`.
  unfoldable pub update_table_schema :
      QualifiedName → List (Column V) → Run (Transaction V B) (Unit {0})
  unfolding schema_of guarded try_schema iter_vec_diff update_column_of
  update_table_schema name columns = do
    old ← look_catalog (schema_of name)
    guarded (
        lift (try_schema [] columns) >>= λ new.
        each (update_column_of name) (iter_vec_diff name_of old new))
