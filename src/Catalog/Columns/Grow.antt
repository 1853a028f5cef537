-- ===== src/Catalog/Columns/Grow.antt =====
-- `add_column_to_arena` of crates/ducklake/src/catalog/typedefs/columns.rs succeeds on well-formed
-- columns, and what it leaves behind.
use ducklake_sdk.Common.{
  ◌+◌, ◌≡◌, refl, sym, ap, ◌∙◌, subst, inl, inr, true, false, List, [], ◌∷◌, ◌++◌, Option, none,
  some, length, append_assoc, append-nil, Elem, Distinct, arith, list_eq, nat_eq, if◌then◌else◌,
  ==_ne,
}
use ducklake_sdk.Common.Dict
use ducklake_sdk.Common.Dict.{Dict, is_some, insert_fresh, get-insert}
use ducklake_sdk.Common.Int.{ℤ, pos, add_i64, ℤ_beq_iff}
use ducklake_sdk.Common.Text.{Text}
use ducklake_sdk.Common.Error.{ok}
use ducklake_sdk.Typedefs.Schema.{DataType, ColumnInfo, column, Columns, nil, cons}
use ducklake_sdk.Catalog.Arena.{find, put, find-put}
use ducklake_sdk.Catalog.Entities.{ArenaIdx, CatalogColumns, CatalogColumn, CatalogDataType}
use ducklake_sdk.Catalog.Columns.{field_names, zip, insert_all}
use ducklake_sdk.Catalog.Columns.Add.{add_flat, catalog_dtype, push_column, next_column_id}
use ducklake_sdk.Catalog.Columns.Flat.{size}
use ducklake_sdk.Catalog.Columns.Children.{child_places, field_places}
use ducklake_sdk.Catalog.Columns.Numbered.{IsWellFormed, IsWellFormedBelow, Grown}

-- The names that are paired with places.
abbrev names : List (Text × ArenaIdx) → List Text
names [] = []
names ((k, a) ∷ entries) = k ∷ names entries

abbrev pub Fresh : Dict Text ArenaIdx → List Text → Type 0
Fresh m ks = (k : Text) → Elem k ks → Dict.get m k ≡ none

-- What is new and not the key inserted stays new.
pub Fresh-insert :
    (m : Dict Text ArenaIdx) (k : Text) (a : ArenaIdx) (ks : List Text)
    → ¬ Elem k ks
    → Fresh m ks
    → Fresh (Dict.insert m k a) ks
Fresh-insert m k a ks n f j i =
    get-insert m k a j
    ∙ ap (λ t. if t then some a else Dict.get m j)
        (==_ne k j (λ e. n (subst (λ t. Elem t ks) (sym e) i)))
    ∙ f j i

-- Different new names are all inserted, in order.
insert_all-Fresh :
    (m : Dict Text ArenaIdx) (entries : List (Text × ArenaIdx))
    → Distinct (names entries)
    → Fresh m (names entries)
    → insert_all m entries ≡ m ++ entries
unfolding insert_all
insert_all-Fresh m [] d f = sym (append-nil m)
insert_all-Fresh m ((k, a) ∷ entries) (n, d) f =
    insert_all-Fresh (Dict.insert m k a) entries d
      (Fresh-insert m k a (names entries) n (λ j i. f j (inr i)))
    ∙ ap (λ l. l ++ entries) (insert_fresh m k a (f k (inl refl)))
    ∙ append_assoc m ((k, a) ∷ []) entries

names-zip :
    {V : Type 0} (fields : Columns V) (n : ArenaIdx)
    → names (zip (field_names fields) (field_places n fields)) ≡ field_names fields
unfolding size
names-zip nil n = refl
names-zip (cons (column d info) fields) n =
    ap (◌∷◌ info.name) (names-zip fields (n + size (column d info)))

-- The type of a column whose children stand from `n` on.
abbrev pub dtype_at : {V : Type 0} → ArenaIdx → DataType V → CatalogDataType V
unfolding size
dtype_at n (DataType.list item) = CatalogDataType.list n
dtype_at n (DataType.struct fields) =
    CatalogDataType.struct (zip (field_names fields) (field_places n fields))
dtype_at n (DataType.map key value) = CatalogDataType.map n (n + size key)
dtype_at n d = CatalogDataType.primitive d

pub catalog_dtype-dtype_at :
    {V : Type 0} (n : ArenaIdx) (d : DataType V)
    → IsWellFormedBelow d
    → catalog_dtype d (child_places n d) ≡ ok (dtype_at n d)
unfolding catalog_dtype IsWellFormed size Dict.get
catalog_dtype-dtype_at n (DataType.list item) w = refl
catalog_dtype-dtype_at n (DataType.struct nil) (w, d, ws) = absurd (w refl)
catalog_dtype-dtype_at n (DataType.struct (cons field fields)) (w, d, ws) =
    ap (λ m. ok (CatalogDataType.struct m))
      (insert_all-Fresh []
        (zip (field_names (cons field fields)) (field_places n (cons field fields)))
        (subst Distinct (sym (names-zip (cons field fields) n)) d) (λ k i. refl))
catalog_dtype-dtype_at n (DataType.map key value) w = refl
catalog_dtype-dtype_at n _ w = refl

module _ {V : Type 0} where
  -- The column that `add_flat` pushes.
  abbrev pub node_of : Option ArenaIdx → CatalogDataType V → ColumnInfo V → ℤ → CatalogColumn V
  node_of parent dtype info id = record {
    id = id;
    name = info.name;
    dtype = dtype;
    parent_column = parent;
    nullable = info.nullable;
    tags = info.tags;
    initial_default = info.initial_default;
    default_value = info.default_value;
  }

  abbrev pub with_node : CatalogColumns V → CatalogColumn V → CatalogColumns V
  with_node c node = record {
    arena = c.arena ++ (node ∷ []);
    by_id = put c.by_id node.id (length c.arena);
    root_columns = c.root_columns;
    next_column_id = some (add_i64 node.id (pos 1));
  }

  pub add_flat-with_node :
      (parent : Option ArenaIdx) (places : List ArenaIdx) (d : DataType V) (info : ColumnInfo V)
      (c : CatalogColumns V) (dtype : CatalogDataType V) (id : ℤ)
      → c.next_column_id ≡ some id
      → catalog_dtype d places ≡ ok dtype
      → add_flat false parent places (column d info) c
        ≡ ok (length c.arena, with_node c (node_of parent dtype info id))
  unfolding add_flat push_column next_column_id
  add_flat-with_node parent places d info c dtype id h e = rw (e, h) refl

  kept-put :
      (c : CatalogColumns V) (id i : ℤ) (idx : ArenaIdx)
      → is_some (find c.by_id i) ≡ true
      → is_some (find (put c.by_id id idx) i) ≡ true
  kept-put c id i idx h = ground (arith, find-put c.by_id id idx i)

  pub found-put :
      (c : CatalogColumns V) (id : ℤ) (idx : ArenaIdx)
      → is_some (find (put c.by_id id idx) id) ≡ true
  found-put c id idx = ground (arith, find-put c.by_id id idx id, ℤ_beq_iff id id)

  pub Grown-with_node :
      (c : CatalogColumns V) (node : CatalogColumn V) → Grown c (with_node c node) 1 node.id
  Grown-with_node c node = record {
    next = refl;
    more = node ∷ [];
    grown = refl;
    roots = refl;
    kept = λ i k. kept-put c node.id i (length c.arena) k;
  }
