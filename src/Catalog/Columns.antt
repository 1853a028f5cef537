-- ===== src/Catalog/Columns.antt =====
-- `CatalogColumns` of crates/ducklake/src/catalog/typedefs/columns.rs: the columns of a table in one
-- arena, nested ones beside their parents. A panic is the error `panicked`. What descends from column
-- to column takes fuel, one more than there are columns; a tree of columns is never deeper.
pub mod Add
pub mod Flat
pub mod Children
pub mod Fits
pub mod Reference
pub mod Equivalence
pub mod Numbered
pub mod Grow
pub mod Readback
pub mod RoundTrip
pub mod Remove
pub mod Downward
pub mod ToSchema
use ducklake_sdk.Common.{
  ℕ, zero, suc, ◌+◌, Bool, true, false, List, [], ◌∷◌, ◌++◌, map, Option, none, some, length,
  get_elem?, set, if◌then◌else◌, nat_beq, list_beq, list_eq, nat_eq,
}
use ducklake_sdk.Common.Dict
use ducklake_sdk.Common.Dict.{Dict}
use ducklake_sdk.Common.Int.{ℤ, pos, add_i64}
use ducklake_sdk.Common.Text.{Text, codes}
use ducklake_sdk.Common.Error.{
  Result, ok, err, ◌>>=◌, ◌>>◌, ok_or, collect, panicked, already_exists, not_found,
}
use ducklake_sdk.Typedefs.Names.{format_identifier}
use ducklake_sdk.Typedefs.Schema.{
  DataType, ColumnInfo, Column, column, Columns, nil, cons, FlattenedColumn, flatten,
}
use ducklake_sdk.Typedefs.Schema
use ducklake_sdk.Catalog.Arena.{find, put, erase}
use ducklake_sdk.Catalog.Entities.{ArenaIdx, CatalogColumns, CatalogColumn, CatalogDataType}

-- `.ok_or_else(|| DucklakeError::column_path_not_found(path))`.
abbrev column_path_not_found : {A : Type 0} → List Text → Option A → Result A
column_path_not_found path found = ok_or found (not_found (codes "column") (format_identifier path))

abbrev pub name_of : {V : Type 0} → Column V → Text
name_of (column dtype info) = info.name

abbrev pub field_names : {V : Type 0} → Columns V → List Text
field_names nil = []
field_names (cons field fields) = name_of field ∷ field_names fields

abbrev pub zip : {A B : Type 0} → List A → List B → List (A × B)
zip [] bs = []
zip (a ∷ as') [] = []
zip (a ∷ as') (b ∷ bs) = (a, b) ∷ zip as' bs

-- `collect` into an `IndexMap`: a later value replaces an earlier one at the same key.
unfoldable pub insert_all : Dict Text ArenaIdx → List (Text × ArenaIdx) → Dict Text ArenaIdx
unfolding Dict.insert
insert_all m [] = m
insert_all m ((k, a) ∷ entries) = insert_all (Dict.insert m k a) entries

abbrev pub values : Dict Text ArenaIdx → List ArenaIdx
values = map (λ (entry : Text × ArenaIdx). entry.1)

-- A computation for each element, the lists it gives one behind the other.
abbrev pub concat_map : {A B : Type 0} → (A → Result (List B)) → List A → Result (List B)
concat_map f [] = ok []
concat_map f (x ∷ xs) = do ys ← f x; zs ← concat_map f xs; ok (ys ++ zs)

-- A change of the state for each element, in order.
abbrev pub fold_map :
    {A B S : Type 0} → (A → S → Result (List B × S)) → List A → S → Result (List B × S)
fold_map f [] s = ok ([], s)
fold_map f (x ∷ xs) s = do (ys, t) ← f x s; (zs, u) ← fold_map f xs t; ok (ys ++ zs, u)

module _ {V : Type 0} where
  -- The children of a column, in order.
  abbrev pub children : CatalogDataType V → List ArenaIdx
  children (CatalogDataType.primitive dtype) = []
  children (CatalogDataType.list item) = item ∷ []
  children (CatalogDataType.struct fields) = values fields
  children (CatalogDataType.map key value) = key ∷ value ∷ []

  abbrev pub column_of : CatalogColumns V → ArenaIdx → Result (CatalogColumn V)
  column_of c idx = ok_or (get_elem? c.arena idx) panicked

  -- `aggregate_column_indices`: a column and all below it.
  unfoldable pub aggregate_column_indices : ℕ → CatalogColumns V → ArenaIdx → Result (List ArenaIdx)
  aggregate_column_indices zero c idx = err panicked
  aggregate_column_indices (suc fuel) c idx = do
    col ← column_of c idx
    below ← concat_map (aggregate_column_indices fuel c) (children col.dtype)
    ok (idx ∷ below)

  -- `root_column_indices`.
  unfoldable pub root_column_indices : CatalogColumns V → Result (List (List ArenaIdx))
  unfolding aggregate_column_indices
  root_column_indices c =
      collect (aggregate_column_indices (suc (length c.arena)) c) (values c.root_columns)

  -- One step down a path.
  unfoldable pub child_named : CatalogDataType V → Text → Option ArenaIdx
  unfolding Dict.get
  child_named (CatalogDataType.primitive dtype) part = none
  child_named (CatalogDataType.struct fields) part = Dict.get fields part
  child_named (CatalogDataType.list item) part =
      if list_beq part (codes "element") then some item else none
  child_named (CatalogDataType.map key value) part =
      if list_beq part (codes "key")
      then some key
      else if list_beq part (codes "value")
      then some value
      else none

  -- The loop of `arena_idx_by_path`. `path` is the whole path, for the error.
  unfoldable pub walk : CatalogColumns V → List Text → ArenaIdx → List Text → Result ArenaIdx
  unfolding child_named
  walk c path idx [] = ok idx
  walk c path idx (part ∷ parts) = do
    col ← column_of c idx
    next ← column_path_not_found path (child_named col.dtype part)
    walk c path next parts

  -- `arena_idx_by_path`. The first part of an empty path is out of bounds.
  unfoldable pub arena_idx_by_path : CatalogColumns V → List Text → Result ArenaIdx
  unfolding Dict.get walk
  arena_idx_by_path c [] = err panicked
  arena_idx_by_path c (name ∷ parts) = do
    idx ← column_path_not_found (name ∷ parts) (Dict.get c.root_columns name)
    walk c (name ∷ parts) idx parts

  abbrev struct_fields : CatalogDataType V → Result (Dict Text ArenaIdx)
  struct_fields (CatalogDataType.struct fields) = ok fields
  struct_fields (CatalogDataType.primitive dtype) = err panicked
  struct_fields (CatalogDataType.list item) = err panicked
  struct_fields (CatalogDataType.map key value) = err panicked

  -- `&mut self.arena[idx.0]`.
  abbrev pub write_column :
      (CatalogColumn V → CatalogColumn V) → ArenaIdx → CatalogColumns V → CatalogColumns V
  write_column f idx c = elim (get_elem? c.arena idx) [
    | none ↦ c
    | some col ↦ record c { arena = set c.arena idx (f col) }
  ]

  -- The names at a level: those of the root columns, or of the fields of a struct.
  unfoldable pub names_at : CatalogColumns V → Option ArenaIdx → Result (Dict Text ArenaIdx)
  names_at c none = ok c.root_columns
  names_at c (some idx) = do col ← column_of c idx; struct_fields col.dtype

  -- A write to the names at a level that has names.
  unfoldable pub set_names_at :
      Option ArenaIdx → Dict Text ArenaIdx → CatalogColumns V → CatalogColumns V
  set_names_at none names c = record c { root_columns = names }
  set_names_at (some idx) names c =
      write_column (λ col. record col { dtype = CatalogDataType.struct names }) idx c

  -- `ensure_column_unique_at_parent`.
  unfoldable pub ensure_column_unique_at_parent :
      CatalogColumns V → Option ArenaIdx → Text → Result (Unit {0})
  unfolding names_at Dict.get
  ensure_column_unique_at_parent c parent name = do
    names ← names_at c parent
    if Dict.contains_key names name then err (already_exists (codes "column") name) else ok tt

  -- `rename_column`.
  unfoldable pub rename_column :
      ArenaIdx → Text → CatalogColumns V → Result (ArenaIdx × CatalogColumns V)
  unfolding ensure_column_unique_at_parent names_at set_names_at Dict.get Dict.replace_key
  rename_column idx new_name c = do
    col ← column_of c idx
    ensure_column_unique_at_parent c col.parent_column new_name
    names ← names_at c col.parent_column
    old ← ok_or (Dict.get names col.name) panicked
    let moved = set_names_at col.parent_column (Dict.replace_key names col.name new_name idx) c
    ok (idx, write_column (λ renamed. record renamed { name = new_name }) idx moved)

  -- `mark_column_deleted`: the column and all below it leave the index by ID.
  unfoldable pub mark_column_deleted :
      ℕ → ArenaIdx → CatalogColumns V → Result (List ArenaIdx × CatalogColumns V)
  unfolding erase
  mark_column_deleted zero idx c = err panicked
  mark_column_deleted (suc fuel) idx c = do
    col ← column_of c idx
    (below, rest) ←
        fold_map (mark_column_deleted fuel) (children col.dtype)
          (record c { by_id = erase c.by_id col.id })
    ok (idx ∷ below, rest)

  -- `remove_column`.
  unfoldable pub remove_column :
      ArenaIdx → CatalogColumns V → Result (List ArenaIdx × CatalogColumns V)
  unfolding mark_column_deleted
  remove_column idx c = mark_column_deleted (suc (length c.arena)) idx c
