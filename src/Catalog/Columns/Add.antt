-- ===== src/Catalog/Columns/Add.antt =====
-- Adding columns: `add_column`, `add_column_to_arena` and `from_schema` of
-- crates/ducklake/src/catalog/typedefs/columns.rs.
use ducklake_sdk.Common.{
  ℕ, suc, ◌+◌, Bool, true, false, List, [], ◌∷◌, ◌++◌, Option, none, some, length, if◌then◌else◌,
  nat_beq, list_eq, nat_eq,
}
use ducklake_sdk.Common.Dict
use ducklake_sdk.Common.Dict.{Dict}
use ducklake_sdk.Common.Int.{ℤ, pos, add_i64}
use ducklake_sdk.Common.Error.{Result, ok, err, ◌>>=◌, ◌>>◌, ok_or, panicked}
use ducklake_sdk.Typedefs.Schema.{DataType, ColumnInfo, Column, column, FlattenedColumn, flatten}
use ducklake_sdk.Catalog.Arena.{put}
use ducklake_sdk.Catalog.Entities.{ArenaIdx, CatalogColumns, CatalogColumn, CatalogDataType}
use ducklake_sdk.Catalog.Columns.{
  name_of, field_names, zip, insert_all, ensure_column_unique_at_parent, names_at, set_names_at,
}

abbrev pub is_child : Option ℕ → ℕ → Bool
is_child none idx = false
is_child (some parent) idx = nat_beq parent idx

-- `parent_index.map(|i| ArenaIdx(first_idx + i)).or(parent)`.
abbrev pub parent_place : ArenaIdx → Option ArenaIdx → Option ℕ → Option ArenaIdx
parent_place first parent none = parent
parent_place first parent (some i) = some (first + i)

-- `arena_idxs[0]`.
abbrev pub first_of : List ArenaIdx → Result ArenaIdx
first_of [] = err panicked
first_of (idx ∷ idxs) = ok idx

module _ {V : Type 0} where
  -- `next_column_id`.
  unfoldable pub next_column_id : CatalogColumns V → Result (ℤ × CatalogColumns V)
  next_column_id c = do
    id ← ok_or c.next_column_id panicked
    ok (id, record c { next_column_id = some (add_i64 id (pos 1)) })

  -- `push_column`.
  unfoldable pub push_column : CatalogColumn V → CatalogColumns V → ArenaIdx × CatalogColumns V
  unfolding put
  push_column col c = (
    length c.arena,
    record c { arena = c.arena ++ (col ∷ []); by_id = put c.by_id col.id (length c.arena) },
  )

  -- `children_by_parent[&idx]`: the places of the children of the column `idx`. `at` is the place of
  -- the first of `columns`.
  unfoldable pub children_of : ℕ → ArenaIdx → List (FlattenedColumn V) → List ArenaIdx
  children_of idx place [] = []
  children_of idx place (f ∷ columns) =
      let rest = children_of idx (suc place) columns in
      if is_child f.parent_index idx then place ∷ rest else rest

  -- The type of a column. A column without children has no entry in `children_by_parent`.
  unfoldable pub catalog_dtype : DataType V → List ArenaIdx → Result (CatalogDataType V)
  unfolding insert_all
  catalog_dtype (DataType.list inner) [] = err panicked
  catalog_dtype (DataType.list inner) (item ∷ rest) = ok (CatalogDataType.list item)
  catalog_dtype (DataType.struct fields) [] = err panicked
  catalog_dtype (DataType.struct fields) (first ∷ rest) =
      ok (CatalogDataType.struct (insert_all [] (zip (field_names fields) (first ∷ rest))))
  catalog_dtype (DataType.map key value) [] = err panicked
  catalog_dtype (DataType.map key value) (first ∷ []) = err panicked
  catalog_dtype (DataType.map key value) (first ∷ second ∷ rest) =
      ok (CatalogDataType.map first second)
  catalog_dtype dtype places = ok (CatalogDataType.primitive dtype)

  -- The ID of a column: its own, or a new one.
  abbrev pub column_id : Bool → ColumnInfo V → CatalogColumns V → Result (ℤ × CatalogColumns V)
  column_id true info c = do id ← ok_or info.field_id panicked; ok (id, c)
  column_id false info c = next_column_id c

  -- The body of the loop of `add_column_to_arena`, for one of the flattened columns:
  -- `parent` is the place of its parent, `places` those of its children.
  unfoldable pub add_flat :
      Bool
      → Option ArenaIdx
      → List ArenaIdx
      → Column V
      → CatalogColumns V
      → Result (ArenaIdx × CatalogColumns V)
  unfolding next_column_id push_column catalog_dtype
  add_flat preserve parent places (column d info) c = do
    dtype ← catalog_dtype d places
    (id, named) ← column_id preserve info c
    ok (
        push_column
          (record {
            id = id;
            name = info.name;
            dtype = dtype;
            parent_column = parent;
            nullable = info.nullable;
            tags = info.tags;
            initial_default = info.initial_default;
            default_value = info.default_value;
          })
          named)

  -- The loop, from the column `idx` on. `flat` holds all flattened columns.
  unfoldable pub add_flattened :
      Bool
      → ArenaIdx
      → Option ArenaIdx
      → List (FlattenedColumn V)
      → ℕ
      → List (FlattenedColumn V)
      → CatalogColumns V
      → Result (List ArenaIdx × CatalogColumns V)
  unfolding add_flat children_of
  add_flattened preserve first parent flat idx [] c = ok ([], c)
  add_flattened preserve first parent flat idx (f ∷ rest) c = do
    (place, grown) ←
        add_flat preserve (parent_place first parent f.parent_index) (children_of idx first flat)
          f.column c
    (places, final) ← add_flattened preserve first parent flat (suc idx) rest grown
    ok (place ∷ places, final)

  -- `add_column_to_arena`.
  unfoldable pub add_column_to_arena :
      Column V
      → Option ArenaIdx
      → Bool
      → CatalogColumns V
      → Result (List ArenaIdx × CatalogColumns V)
  unfolding add_flattened flatten
  add_column_to_arena col parent preserve c =
      add_flattened preserve (length c.arena) parent (flatten col) 0 (flatten col) c

  -- `add_column`.
  unfoldable pub add_column :
      Option ArenaIdx → Column V → CatalogColumns V → Result (List ArenaIdx × CatalogColumns V)
  unfolding ensure_column_unique_at_parent add_column_to_arena names_at set_names_at Dict.insert
  add_column parent col c = do
    ensure_column_unique_at_parent c parent (name_of col)
    (idxs, grown) ← add_column_to_arena col parent false c
    idx ← first_of idxs
    names ← names_at grown parent
    ok (idxs, set_names_at parent (Dict.insert names (name_of col) idx) grown)

  -- The loop of `from_schema`.
  unfoldable pub add_roots : Bool → List (Column V) → CatalogColumns V → Result (CatalogColumns V)
  unfolding add_column_to_arena Dict.insert
  add_roots preserve [] c = ok c
  add_roots preserve (col ∷ columns) c = do
    (idxs, grown) ← add_column_to_arena col none preserve c
    idx ← first_of idxs
    add_roots preserve columns
        (record grown { root_columns = Dict.insert grown.root_columns (name_of col) idx })

  -- `from_schema`. A schema is its columns, in order.
  unfoldable pub from_schema : List (Column V) → Option ℤ → Result (CatalogColumns V)
  unfolding add_roots
  from_schema columns none =
      add_roots false columns
        (record { arena = []; by_id = []; root_columns = []; next_column_id = some (pos 1) })
  from_schema columns (some next) =
      add_roots true columns
        (record { arena = []; by_id = []; root_columns = []; next_column_id = some next })
