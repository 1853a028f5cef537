-- ===== src/Tests/Columns.antt =====
-- Columns of a table: a nested column, and what becomes of removed ones.
use ducklake_sdk.Common.Dict
use ducklake_sdk.Common.{
  ◌≢◌, suc, length, if◌then◌else◌, inl, inr, Elem, list_beq_iff, ℕ, ◌≡◌, refl, true, false, List,
  [], ◌∷◌, none, some, list_eq, nat_eq,
}
use ducklake_sdk.Common.Int.{ℤ, pos, add_i64, int_eq}
use ducklake_sdk.Catalog.Arena.{find}
use ducklake_sdk.Catalog.Columns.Reference.{place}
use ducklake_sdk.Common.Unique.{contains}
use ducklake_sdk.Common.Text.{Text, codes}
use ducklake_sdk.Common.Error.{ok, err, ◌>>=◌, already_exists}
use ducklake_sdk.Typedefs.Schema.{
  Column, column, ColumnInfo, nil, cons, literal, int64, varchar, DataType, flatten_into,
}
use ducklake_sdk.Catalog.Columns.{arena_idx_by_path, remove_column, aggregate_column_indices}
use ducklake_sdk.Catalog.Columns.Add.{from_schema, add_column, add_column_to_arena}
use ducklake_sdk.Catalog.Columns.ToSchema.{to_schema}
use ducklake_sdk.Catalog.Columns.RoundTrip.{to_schema-from_schema, number_all, AllWellFormed}
use ducklake_sdk.Catalog.Columns.Numbered.{IsWellFormed}
use ducklake_sdk.Catalog.Entities.{CatalogColumns, CatalogColumn, CatalogDataType}
use ducklake_sdk.Catalog.Columns.Equivalence.{add_column_to_arena-place}
use ducklake_sdk.Catalog.Columns.Remove.{ids_at, remove_column-aggregate, add_column-removed_name}
use ducklake_sdk.Catalog.Columns.Downward.{IsDownward, remove_column-IsDownward}
use ducklake_sdk.Catalog.Columns.Downward.Adding.{from_schema-IsDownward}
use ducklake_sdk.Catalog.Columns.Downward.Naming.{add_column-IsDownward}

abbrev info : Text → ColumnInfo ℕ
info name = record {
  name = name;
  nullable = true;
  tags = [];
  initial_default = none;
  default_value = literal none;
  field_id = none;
}

abbrev numbered : Text → ℕ → ColumnInfo ℕ
numbered name id = record (info name) { field_id = some (pos id) }

abbrev nested : List (Column ℕ)
nested =
    column int64 (info (codes "a"))
    ∷ column
        (DataType.struct (
          cons (column int64 (info (codes "x"))) (
            cons
              (column (DataType.list (column varchar (info (codes "element")))) (info (codes "y")))
              nil)))
        (info (codes "b"))
    ∷ []

round_trip :
    (from_schema nested none >>= to_schema)
    ≡ ok (
        column int64 (numbered (codes "a") 1)
        ∷ column
            (DataType.struct (
              cons (column int64 (numbered (codes "x") 3)) (
                cons
                  (column
                    (DataType.list (column varchar (numbered (codes "element") 5)))
                    (numbered (codes "y") 4))
                  nil)))
            (numbered (codes "b") 2)
        ∷ [])
unfolding from_schema to_schema flatten_into add_i64 contains
round_trip = refl

-- A path down to the element of a list.
path :
    (from_schema nested none >>= λ c.
    arena_idx_by_path c (codes "b" ∷ codes "y" ∷ codes "element" ∷ []))
    ≡ ok 4
unfolding from_schema arena_idx_by_path flatten_into
path = refl

a_b : codes "a" ≢ codes "b"
a_b e = let t = (list_beq_iff (codes "a") (codes "b")).1 e in cc

x_y : codes "x" ≢ codes "y"
x_y e = let t = (list_beq_iff (codes "x") (codes "y")).1 e in cc

-- A name in a list of one.
only : {a b : Text} → a ≢ b → ¬ Elem a (b ∷ [])
only n (inl e) = n e
only n (inr e) = e

to_schema-from_schema_example :
    (from_schema nested none >>= to_schema) ≡ ok (number_all (pos 1) nested)
unfolding AllWellFormed IsWellFormed
to_schema-from_schema_example =
    to_schema-from_schema nested (tt, (((λ e. cc), (only x_y, ((λ e. e), tt)), (tt, (tt, tt))), tt))
      (only a_b, ((λ e. e), tt))

abbrev no_columns : CatalogColumns ℕ
no_columns = record { arena = []; by_id = []; root_columns = []; next_column_id = some (pos 1) }

abbrev b : Column ℕ
b = column (DataType.list (column varchar (info (codes "element")))) (info (codes "b"))

add_column_to_arena-place_example :
    add_column_to_arena b none false no_columns ≡ place false none b no_columns
add_column_to_arena-place_example = add_column_to_arena-place b none false no_columns

-- A column `b` with a list of texts, and its element.
abbrev node : ℕ → Text → CatalogDataType ℕ → CatalogColumn ℕ
node id name dtype = record {
  id = pos id;
  name = name;
  dtype = dtype;
  parent_column = none;
  nullable = true;
  tags = [];
  initial_default = none;
  default_value = literal none;
}

abbrev texts : CatalogColumns ℕ
texts = record {
  arena =
      node 1 (codes "b") (CatalogDataType.list 1)
      ∷ record (node 2 (codes "element") (CatalogDataType.primitive varchar)) {
        parent_column = some 0;
      }
      ∷ [];
  by_id = (pos 1, 0) ∷ (pos 2, 1) ∷ [];
  root_columns = (codes "b", 0) ∷ [];
  next_column_id = some (pos 3);
}

texts_removed : remove_column 0 texts ≡ ok (0 ∷ 1 ∷ [], record texts { by_id = [] })
unfolding remove_column
texts_removed = refl

remove_column-aggregate_example :
    (aggregate_column_indices (suc (length texts.arena)) texts 0 ≡ ok (0 ∷ 1 ∷ []))
    × (texts.arena ≡ texts.arena)
    × (texts.root_columns ≡ texts.root_columns)
    × ((j : ℤ)
        → find [] j
          ≡ (if contains (ids_at texts.arena (0 ∷ 1 ∷ [])) j then none else find texts.by_id j))
remove_column-aggregate_example =
    remove_column-aggregate 0 texts (record texts { by_id = [] }) (0 ∷ 1 ∷ []) texts_removed

add_column-removed_name_example :
    add_column none (column int64 (info (codes "b"))) (record texts { by_id = [] })
    ≡ err (already_exists (codes "column") (codes "b"))
add_column-removed_name_example =
    add_column-removed_name 0 0 texts (record texts { by_id = [] }) (0 ∷ 1 ∷ [])
      (column int64 (info (codes "b"))) (unfold Dict.get in refl) texts_removed

texts_made : from_schema (b ∷ []) none ≡ ok texts
unfolding from_schema flatten_into add_i64 contains
texts_made = refl

remove_column-IsDownward_example :
    (idxs : List ℕ) × (d : CatalogColumns ℕ) × (remove_column 0 texts ≡ ok (idxs, d))
    × (aggregate_column_indices (suc (length texts.arena)) texts 0 ≡ ok idxs)
    × IsDownward d
remove_column-IsDownward_example =
    remove_column-IsDownward texts 0 (node 1 (codes "b") (CatalogDataType.list 1))
      (from_schema-IsDownward (b ∷ []) none texts texts_made) refl

abbrev two_columns : CatalogColumns ℕ
two_columns = record texts {
  arena =
      node 1 (codes "b") (CatalogDataType.list 1)
      ∷ record (node 2 (codes "element") (CatalogDataType.primitive varchar)) {
        parent_column = some 0;
      }
      ∷ node 3 (codes "c") (CatalogDataType.primitive int64)
      ∷ [];
  by_id = (pos 1, 0) ∷ (pos 2, 1) ∷ (pos 3, 2) ∷ [];
  root_columns = (codes "b", 0) ∷ (codes "c", 2) ∷ [];
  next_column_id = some (pos 4);
}

added : add_column none (column int64 (info (codes "c"))) texts ≡ ok (2 ∷ [], two_columns)
unfolding add_column flatten_into add_i64 contains
added = refl

add_column-IsDownward_example : IsDownward two_columns
add_column-IsDownward_example =
    add_column-IsDownward none (column int64 (info (codes "c"))) texts two_columns (2 ∷ [])
      (from_schema-IsDownward (b ∷ []) none texts texts_made) added
