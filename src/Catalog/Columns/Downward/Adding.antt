-- ===== src/Catalog/Columns/Downward/Adding.antt =====
-- Adding columns (crates/ducklake/src/catalog/typedefs/columns.rs) and the order of columns and their
-- children.
use ducklake_sdk.Common.{
  ℕ, zero, suc, ◌+◌, ◌<◌, ◌≤◌, ◌≡◌, refl, sym, ap, ◌∙◌, subst, ◌⊎◌, inl, inr, Bool, true, false,
  List, [], ◌∷◌, ◌++◌, Option, none, some, length, get_elem?, Elem, arith, nat_beq, if◌then◌else◌,
  list_eq, list_beq, nat_eq,
}
use ducklake_sdk.Common.Dict
use ducklake_sdk.Common.Dict.{Dict}
use ducklake_sdk.Common.Text.{Text}
use ducklake_sdk.Common.Int.{ℤ, pos}
use ducklake_sdk.Common.Error.{ok, >>=-ok, ok_inj}
use ducklake_sdk.Typedefs.Schema.{DataType, Column, column, Columns, nil, cons}
use ducklake_sdk.Catalog.Arena.{get_elem?-append}
use ducklake_sdk.Catalog.Entities.{ArenaIdx, CatalogColumns, CatalogColumn, CatalogDataType}
use ducklake_sdk.Catalog.Columns.{children, values, zip, insert_all, field_names}
use ducklake_sdk.Catalog.Columns.Add.{
  add_flat, add_roots, add_column_to_arena, from_schema, first_of, catalog_dtype, column_id,
  push_column,
}
use ducklake_sdk.Catalog.Columns.Equivalence.{add_column_to_arena-place}
use ducklake_sdk.Catalog.Columns.Downward.{IsDownward, get_elem?-bound}
use ducklake_sdk.Catalog.Columns.Flat.{size, size_below, size_fields}
use ducklake_sdk.Catalog.Columns.Children.{child_places, field_places}
use ducklake_sdk.Catalog.Columns.Reference.{
  place, place_below, place_fields, length-place, length-add_flat, column_id-arena,
}

pub values-insert :
    (m : Dict Text ArenaIdx) (k : Text) (a x : ArenaIdx)
    → Elem x (values (Dict.insert m k a))
    → Elem x (values m) ⊎ (x ≡ a)
unfolding Dict.insert
values-insert [] k a x (inl e) = inr e
values-insert [] k a x (inr e) = absurd e
values-insert ((j, b) ∷ m) k a x h =
    let rest = values-insert m k a x in
    (elim (list_beq j k)
        as (λ t.
          Elem x (values (if t then (k, a) ∷ m else (j, b) ∷ Dict.insert m k a))
          → Elem x (values ((j, b) ∷ m)) ⊎ (x ≡ a)) [
            | true ↦ λ e. elim e [ inl l ↦ inr l | inr r ↦ inl (inr r) ]
            | false ↦ λ e. elim e [
              | inl l ↦ inl (inl l)
              | inr r ↦ elim (rest r) [ inl l ↦ inl (inr l) | inr l ↦ inr l ]
            ]
          ])
      h

values-insert_all :
    (m : Dict Text ArenaIdx) (entries : List (Text × ArenaIdx)) (x : ArenaIdx)
    → Elem x (values (insert_all m entries))
    → Elem x (values m) ⊎ Elem x (values entries)
unfolding insert_all
values-insert_all m [] x h = inl h
values-insert_all m ((k, a) ∷ entries) x h =
    elim (values-insert_all (Dict.insert m k a) entries x h) [
      | inl l ↦ elim (values-insert m k a x l) [ inl e ↦ inl e | inr e ↦ inr (inl e) ]
      | inr r ↦ inr (inr r)
    ]

values-zip_right :
    (ks : List Text) (places : List ArenaIdx) (x : ArenaIdx)
    → Elem x (values (zip ks places))
    → Elem x places
values-zip_right [] places x h = absurd h
values-zip_right (k ∷ ks) [] x h = absurd h
values-zip_right (k ∷ ks) (p ∷ places) x (inl e) = inl e
values-zip_right (k ∷ ks) (p ∷ places) x (inr e) = inr (values-zip_right ks places x e)

mutual
  unfolding size

  field_places-bounds :
      {V : Type 0} (n : ArenaIdx) (fields : Columns V) (x : ArenaIdx)
      → Elem x (field_places n fields)
      → (n ≤ x) × (x < n + size_fields fields)
  field_places-bounds n nil x h = absurd h
  field_places-bounds n (cons (column d info) fields) x (inl e) =
      (omega (arith, e), omega (arith, e))
  field_places-bounds n (cons field fields) x (inr h) =
      let (a, b) = field_places-bounds (n + size field) fields x h in (omega arith, omega arith)

child_places-bounds :
    {V : Type 0} (n : ArenaIdx) (d : DataType V) (x : ArenaIdx)
    → Elem x (child_places n d)
    → (n ≤ x) × (x < n + size_below d)
unfolding size
child_places-bounds n (DataType.list (column d info)) x (inl e) =
    (omega (arith, e), omega (arith, e))
child_places-bounds n (DataType.list item) x (inr e) = absurd e
child_places-bounds n (DataType.struct fields) x h = field_places-bounds n fields x h
child_places-bounds n (DataType.map (column d info) (column d2 info2)) x (inl e) =
    (omega (arith, e), omega (arith, e))
child_places-bounds n (DataType.map (column d info) (column d2 info2)) x (inr (inl e)) =
    (omega (arith, e), omega (arith, e))
child_places-bounds n (DataType.map key value) x (inr (inr e)) = absurd e
child_places-bounds n _ x h = absurd h

pub get_elem?-inside :
    {A : Type 0} (xs : List A) (i : ℕ) → i < length xs → (x : A) × (get_elem? xs i ≡ some x)
get_elem?-inside [] i h = absurd (omega arith)
get_elem?-inside (x ∷ xs) zero h = (x, refl)
get_elem?-inside (x ∷ xs) (suc i) h = get_elem?-inside xs i (omega arith)

if_some :
    {A : Type 0} (b : Bool) (x y : A) (o : Option A)
    → (if b then some x else o) ≡ some y
    → ((b ≡ true) × (some x ≡ some y)) ⊎ (o ≡ some y)
if_some true x y o h = inl (refl, h)
if_some false x y o h = inr h

module _ {V : Type 0} where
  moved :
      (a dtype : CatalogDataType V) (x : ArenaIdx)
      → ok a ≡ ok dtype
      → Elem x (children dtype)
      → Elem x (children a)
  moved a dtype x h m = subst (λ t. Elem x (children t)) (sym (ok_inj a dtype h)) m

  catalog_dtype-children :
      (d : DataType V) (places : List ArenaIdx) (dtype : CatalogDataType V) (x : ArenaIdx)
      → catalog_dtype d places ≡ ok dtype
      → Elem x (children dtype)
      → Elem x places
  unfolding catalog_dtype
  catalog_dtype-children (DataType.list inner) [] dtype x h m = cc
  catalog_dtype-children (DataType.list inner) (item ∷ rest) dtype x h m =
      elim (moved (CatalogDataType.list item) dtype x h m) [ inl e ↦ inl e | inr e ↦ absurd e ]
  catalog_dtype-children (DataType.struct fields) [] dtype x h m = cc
  catalog_dtype-children (DataType.struct fields) (first ∷ rest) dtype x h m =
      let entries = zip (field_names fields) (first ∷ rest) in
      elim (values-insert_all [] entries x
        (moved (CatalogDataType.struct (insert_all [] entries)) dtype x h m)) [
          | inl e ↦ absurd e
          | inr e ↦ values-zip_right (field_names fields) (first ∷ rest) x e
        ]
  catalog_dtype-children (DataType.map key value) [] dtype x h m = cc
  catalog_dtype-children (DataType.map key value) (first ∷ []) dtype x h m = cc
  catalog_dtype-children (DataType.map key value) (first ∷ second ∷ rest) dtype x h m =
      elim (moved (CatalogDataType.map first second) dtype x h m) [
        | inl e ↦ inl e
        | inr (inl e) ↦ inr (inl e)
        | inr (inr e) ↦ absurd e
      ]
  catalog_dtype-children d places dtype x h m =
      absurd (moved (CatalogDataType.primitive d) dtype x h m)

  abbrev pub children_at : Option (CatalogColumn V) → List ArenaIdx
  children_at none = []
  children_at (some col) = children col.dtype

  -- The children of each column stand behind it and before `bound`.
  abbrev WithinList : ℕ → List (CatalogColumn V) → Type 0
  WithinList bound arena =
      (idx : ArenaIdx) (col : CatalogColumn V)
      → get_elem? arena idx ≡ some col
      → (child : ArenaIdx) → Elem child (children col.dtype)
      → (idx < child) × (child < bound)

  abbrev Within : ℕ → CatalogColumns V → Type 0
  Within bound c = WithinList bound c.arena

  pushed-Within :
      (bound : ℕ) (c : CatalogColumns V) (node : CatalogColumn V)
      → Within bound c
      → ((child : ArenaIdx)
          → Elem child (children node.dtype)
          → (length c.arena < child) × (child < bound))
      → Within bound (record c { arena = c.arena ++ (node ∷ []) })
  pushed-Within bound c node w new idx col h child m =
      elim (if_some (nat_beq (length c.arena) idx) node col (get_elem? c.arena idx)
        (sym (get_elem?-append c.arena node idx) ∙ h)) [
          | inl (t, e) ↦
              let (a, b) = new child (subst (λ o. Elem child (children_at o)) (sym e) m) in
              (ground arith, b)
          | inr e ↦ w idx col e child m
        ]

  add_flat-Within :
      (bound : ℕ) (preserve : Bool) (parent : Option ArenaIdx) (places : List ArenaIdx)
      (col : Column V) (c g : CatalogColumns V) (idx : ArenaIdx)
      → Within bound c
      → ((child : ArenaIdx) → Elem child places → (length c.arena < child) × (child < bound))
      → add_flat preserve parent places col c ≡ ok (idx, g)
      → Within bound g
  unfolding add_flat push_column
  add_flat-Within bound preserve parent places (column d info) c g idx w new h =
      let (dtype, a, b) = >>=-ok (catalog_dtype d places) _ (idx, g) h in
      let ((id, named), a', b') = >>=-ok (column_id preserve info c) _ (idx, g) b in
      let e = ok_inj _ (idx, g) b' in
      let same = column_id-arena preserve info c named id a' in
      let same_length = ap length same in
      subst (λ (z : ArenaIdx × CatalogColumns V). Within bound z.1) e
        (pushed-Within bound named _ (subst (λ l. WithinList bound l) (sym same) w) (λ child m.
          let (l, u) = new child (catalog_dtype-children d places dtype child a m) in
          (omega arith, u)))

  mutual
    unfolding place size

    pub place-Within :
        (bound : ℕ) (preserve : Bool) (parent : Option ArenaIdx) (col : Column V)
        (c g : CatalogColumns V) (idxs : List ArenaIdx)
        → Within bound c
        → length c.arena + size col ≤ bound
        → place preserve parent col c ≡ ok (idxs, g)
        → Within bound g
    place-Within bound preserve parent (column d info) c g idxs w l h =
        let places = child_places (suc (length c.arena)) d in
        let ((idx, t), a, b) =
          >>=-ok (add_flat preserve parent places (column d info) c) _ (idxs, g) h in
        let ((below, u), a', b') =
          >>=-ok (place_below preserve (length c.arena) d t) _ (idxs, g) b in
        let e = ok_inj {A = List ArenaIdx × CatalogColumns V} (idx ∷ below, u) (idxs, g) b' in
        let (i, grown) = length-add_flat preserve parent places (column d info) c t idx a in
        subst (λ (z : List ArenaIdx × CatalogColumns V). Within bound z.1) e
          (place_below-Within bound preserve (length c.arena) d t u below
            (add_flat-Within bound preserve parent places (column d info) c t idx w
              (λ child m.
                let (x, y) = child_places-bounds (suc (length c.arena)) d child m in
                (omega arith, omega arith))
              a)
            (omega arith) a')

    pub place_below-Within :
        (bound : ℕ) (preserve : Bool) (p : ArenaIdx) (d : DataType V) (c g : CatalogColumns V)
        (idxs : List ArenaIdx)
        → Within bound c
        → length c.arena + size_below d ≤ bound
        → place_below preserve p d c ≡ ok (idxs, g)
        → Within bound g
    place_below-Within bound preserve p (DataType.list item) c g idxs w l h =
        place-Within bound preserve (some p) item c g idxs w l h
    place_below-Within bound preserve p (DataType.struct fields) c g idxs w l h =
        place_fields-Within bound preserve p fields c g idxs w l h
    place_below-Within bound preserve p (DataType.map key value) c g idxs w l h =
        let ((ks, t), a, b) = >>=-ok (place preserve (some p) key c) _ (idxs, g) h in
        let ((vs, u), a', b') = >>=-ok (place preserve (some p) value t) _ (idxs, g) b in
        let grown = length-place preserve (some p) key c t ks a in
        subst (λ (z : List ArenaIdx × CatalogColumns V). Within bound z.1)
          (ok_inj {A = List ArenaIdx × CatalogColumns V} (ks ++ vs, u) (idxs, g) b')
          (place-Within bound preserve (some p) value t u vs
            (place-Within bound preserve (some p) key c t ks w (omega arith) a) (omega arith) a')
    place_below-Within bound preserve p _ c g idxs w l h =
        subst (λ (z : List ArenaIdx × CatalogColumns V). Within bound z.1)
          (ok_inj {A = List ArenaIdx × CatalogColumns V} ([], c) (idxs, g) h) w

    pub place_fields-Within :
        (bound : ℕ) (preserve : Bool) (p : ArenaIdx) (fields : Columns V) (c g : CatalogColumns V)
        (idxs : List ArenaIdx)
        → Within bound c
        → length c.arena + size_fields fields ≤ bound
        → place_fields preserve p fields c ≡ ok (idxs, g)
        → Within bound g
    place_fields-Within bound preserve p nil c g idxs w l h =
        subst (λ (z : List ArenaIdx × CatalogColumns V). Within bound z.1)
          (ok_inj {A = List ArenaIdx × CatalogColumns V} ([], c) (idxs, g) h) w
    place_fields-Within bound preserve p (cons field fields) c g idxs w l h =
        let ((ks, t), a, b) = >>=-ok (place preserve (some p) field c) _ (idxs, g) h in
        let ((vs, u), a', b') = >>=-ok (place_fields preserve p fields t) _ (idxs, g) b in
        let grown = length-place preserve (some p) field c t ks a in
        subst (λ (z : List ArenaIdx × CatalogColumns V). Within bound z.1)
          (ok_inj {A = List ArenaIdx × CatalogColumns V} (ks ++ vs, u) (idxs, g) b')
          (place_fields-Within bound preserve p fields t u vs
            (place-Within bound preserve (some p) field c t ks w (omega arith) a) (omega arith) a')

  -- The columns with their children behind them, as `remove_column` wants them.
  Within-IsDownward : (c : CatalogColumns V) → Within (length c.arena) c → IsDownward c
  Within-IsDownward c w idx col h child m =
      let (a, b) = w idx col h child m in
      let (node, there) = get_elem?-inside c.arena child b in (a, node, there)

  IsDownward-Within : (c : CatalogColumns V) (n : ℕ) → IsDownward c → Within (length c.arena + n) c
  IsDownward-Within c n d idx col h child m =
      let (a, node, there) = d idx col h child m in
      let b = get_elem?-bound c.arena child node there in (a, omega arith)

  -- Adding a column keeps the children of each column behind it.
  pub add_column_to_arena-IsDownward :
      (col : Column V) (parent : Option ArenaIdx) (preserve : Bool) (c g : CatalogColumns V)
      (idxs : List ArenaIdx)
      → IsDownward c
      → add_column_to_arena col parent preserve c ≡ ok (idxs, g)
      → IsDownward g
  add_column_to_arena-IsDownward col parent preserve c g idxs d h =
      let p = sym (add_column_to_arena-place col parent preserve c) ∙ h in
      let grown = length-place preserve parent col c g idxs p in
      Within-IsDownward g (
        subst (λ n. Within n g) (sym grown)
          (place-Within (length c.arena + size col) preserve parent col c g idxs
            (IsDownward-Within c (size col) d) (omega arith) p))

  add_roots-IsDownward :
      (preserve : Bool) (columns : List (Column V)) (c g : CatalogColumns V)
      → IsDownward c
      → add_roots preserve columns c ≡ ok g
      → IsDownward g
  unfolding add_roots
  add_roots-IsDownward preserve [] c g d h = subst IsDownward (ok_inj c g h) d
  add_roots-IsDownward preserve (col ∷ columns) c g d h =
      let ((idxs, t), a, b) = >>=-ok (add_column_to_arena col none preserve c) _ g h in
      let (idx, a', b') = >>=-ok (first_of idxs) _ g b in
      add_roots-IsDownward preserve columns _ g
        (add_column_to_arena-IsDownward col none preserve c t idxs d a) b'

  no_columns-IsDownward :
      (next : ℤ)
      → IsDownward {V = V}
          (record { arena = []; by_id = []; root_columns = []; next_column_id = some next })
  no_columns-IsDownward next idx col h = cc

  -- In the catalog of a new table the children of each column are columns behind it.
  pub from_schema-IsDownward :
      (columns : List (Column V)) (next : Option ℤ) (g : CatalogColumns V)
      → from_schema columns next ≡ ok g
      → IsDownward g
  unfolding from_schema
  from_schema-IsDownward columns none g h =
      add_roots-IsDownward false columns _ g (no_columns-IsDownward (pos 1)) h
  from_schema-IsDownward columns (some next) g h =
      add_roots-IsDownward true columns _ g (no_columns-IsDownward next) h
