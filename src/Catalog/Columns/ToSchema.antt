-- ===== src/Catalog/Columns/ToSchema.antt =====
-- Reading columns back: `Schema::from(&CatalogColumns)`, `schema_column_from_arena_index` and the
-- types by ID of crates/ducklake/src/catalog/typedefs/columns.rs.
use ducklake_sdk.Common.{ℕ, zero, suc, List, [], ◌∷◌, some, length, list_eq, nat_eq, if◌then◌else◌}
use ducklake_sdk.Common.Dict.{is_some}
use ducklake_sdk.Common.Unique.{contains}
use ducklake_sdk.Common.Int.{ℤ}
use ducklake_sdk.Common.Text.{Text}
use ducklake_sdk.Common.Error.{Result, ok, err, ◌>>=◌, panicked, duplicate_column_name}
use ducklake_sdk.Typedefs.Schema.{DataType, Column, column, Columns, nil, cons}
use ducklake_sdk.Catalog.Arena.{find}
use ducklake_sdk.Catalog.Entities.{ArenaIdx, CatalogColumns, CatalogColumn, CatalogDataType}
use ducklake_sdk.Catalog.Columns.{column_of, values, name_of, children, concat_map}

module _ {V : Type 0} where
  abbrev pub columns_of : (ArenaIdx → Result (Column V)) → List ArenaIdx → Result (Columns V)
  columns_of read [] = ok nil
  columns_of read (idx ∷ idxs) = do col ← read idx; rest ← columns_of read idxs; ok (cons col rest)

  -- `schema_dtype`. `read` reads a column.
  abbrev pub schema_dtype : (ArenaIdx → Result (Column V)) → CatalogDataType V → Result (DataType V)
  schema_dtype read (CatalogDataType.primitive dtype) = ok dtype
  schema_dtype read (CatalogDataType.list item) = do inner ← read item; ok (DataType.list inner)
  schema_dtype read (CatalogDataType.struct fields) = do
    columns ← columns_of read (values fields)
    ok (DataType.struct columns)
  schema_dtype read (CatalogDataType.map key value) = do
    k ← read key
    v ← read value
    ok (DataType.map k v)

  abbrev pub with_dtype : CatalogColumn V → DataType V → Column V
  with_dtype col dtype = column dtype (record {
    name = col.name;
    nullable = col.nullable;
    tags = col.tags;
    initial_default = col.initial_default;
    default_value = col.default_value;
    field_id = some col.id;
  })

  -- `schema_column_from_arena_index`.
  unfoldable pub schema_column_from_arena_index :
      ℕ → CatalogColumns V → ArenaIdx → Result (Column V)
  schema_column_from_arena_index zero c idx = err panicked
  schema_column_from_arena_index (suc fuel) c idx = do
    col ← column_of c idx
    dtype ← schema_dtype (schema_column_from_arena_index fuel c) col.dtype
    ok (with_dtype col dtype)

  -- The columns of `Schema::from`: deleted root columns are left out.
  unfoldable pub existing_columns : CatalogColumns V → List ArenaIdx → Result (List (Column V))
  unfolding schema_column_from_arena_index find
  existing_columns c [] = ok []
  existing_columns c (idx ∷ idxs) = do
    col ← column_of c idx
    rest ← existing_columns c idxs
    if is_some (find c.by_id col.id)
        then (schema_column_from_arena_index (suc (length c.arena)) c idx >>= λ read.
            ok (read ∷ rest))
        else ok rest

  -- `TryFrom<Vec<Column>> for Schema`: names are unique. `seen` holds the names before.
  unfoldable pub try_schema : List Text → List (Column V) → Result (List (Column V))
  try_schema seen [] = ok []
  try_schema seen (col ∷ columns) =
      if contains seen (name_of col)
      then err (duplicate_column_name (name_of col))
      else try_schema (name_of col ∷ seen) columns >>= λ rest. ok (col ∷ rest)

  -- `expect`.
  abbrev pub or_panic : Result (List (Column V)) → Result (List (Column V))
  or_panic (ok columns) = ok columns
  or_panic (err e) = err panicked

  -- `Schema::from(&CatalogColumns)`, which expects that the names are unique.
  unfoldable pub to_schema : CatalogColumns V → Result (List (Column V))
  unfolding existing_columns try_schema
  to_schema c = do
    columns ← existing_columns c (values c.root_columns)
    or_panic (try_schema [] columns)

  -- `collect_existing_dtypes`: the ID and the type of a column and of all below it.
  unfoldable pub collect_existing_dtypes :
      ℕ → CatalogColumns V → ArenaIdx → Result (List (ℤ × DataType V))
  unfolding schema_column_from_arena_index
  collect_existing_dtypes zero c idx = err panicked
  collect_existing_dtypes (suc fuel) c idx = do
    col ← column_of c idx
    dtype ← schema_dtype (schema_column_from_arena_index fuel c) col.dtype
    below ← concat_map (collect_existing_dtypes fuel c) (children col.dtype)
    ok ((col.id, dtype) ∷ below)

  -- `From<&CatalogColumns> for HashMap<i64, DataType>`, in the order of insertion.
  unfoldable pub column_data_types : CatalogColumns V → Result (List (ℤ × DataType V))
  unfolding collect_existing_dtypes
  column_data_types c =
      concat_map (collect_existing_dtypes (suc (length c.arena)) c) (values c.root_columns)
