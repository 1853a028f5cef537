-- ===== src/Catalog/Columns/Readback.antt =====
-- Columns that were added are read back by `schema_column_from_arena_index` of
-- crates/ducklake/src/catalog/typedefs/columns.rs as they were, with their IDs.
use ducklake_sdk.Common.{
  ℕ, zero, suc, ◌+◌, ◌≤◌, ◌≡◌, refl, sym, ap, ◌∙◌, subst, true, false, List, [], ◌∷◌, ◌++◌, Option,
  some, length, length-append, get_elem?, append_assoc, arith,
}
use ducklake_sdk.Common.Dict.{is_some}
use ducklake_sdk.Common.Int.{ℤ, pos, add_i64}
use ducklake_sdk.Common.Error.{ok, ◌>>=◌, >>=-through, ok_or, panicked}
use ducklake_sdk.Typedefs.Schema.{DataType, ColumnInfo, Column, column, Columns, nil, cons}
use ducklake_sdk.Catalog.Arena.{find}
use ducklake_sdk.Catalog.Entities.{ArenaIdx, CatalogColumns, CatalogColumn}
use ducklake_sdk.Catalog.Columns.{values, zip, field_names}
use ducklake_sdk.Catalog.Columns.ToSchema.{
  columns_of, schema_dtype, with_dtype, schema_column_from_arena_index,
}
use ducklake_sdk.Catalog.Columns.Add.{add_flat}
use ducklake_sdk.Catalog.Columns.Flat.{size, size_below, size_fields}
use ducklake_sdk.Catalog.Columns.Children.{field_places, child_places}
use ducklake_sdk.Catalog.Columns.Reference.{place, place_below, place_fields, length-place}
use ducklake_sdk.Catalog.Columns.Numbered.{
  id_after, number, number_below, number_fields, IsWellFormed, IsWellFormedBelow, AreWellFormed,
  Grown, Grown-refl, Grown-trans,
}
use ducklake_sdk.Catalog.Columns.Grow.{
  dtype_at, catalog_dtype-dtype_at, node_of, with_node, add_flat-with_node, found-put,
  Grown-with_node,
}

get_elem?-middle :
    {A : Type 0} (xs ys : List A) (y : A) → get_elem? (xs ++ (y ∷ ys)) (length xs) ≡ some y
get_elem?-middle [] ys y = refl
get_elem?-middle (x ∷ xs) ys y = get_elem?-middle xs ys y

values-zip :
    {V : Type 0} (fields : Columns V) (n : ArenaIdx)
    → values (zip (field_names fields) (field_places n fields)) ≡ field_places n fields
unfolding size
values-zip nil n = refl
values-zip (cons (column d info) fields) n =
    ap (◌∷◌ n) (values-zip fields (n + size (column d info)))

module _ {V : Type 0} where
  -- `col` has been added to `c`, and can be read wherever the arena has grown further.
  pub record Added (parent : Option ArenaIdx) (col : Column V) (c : CatalogColumns V) (id : ℤ)
      : Type 0 where
    pub idxs : List ArenaIdx
    pub final : CatalogColumns V
    pub placed : place false parent col c ≡ ok (length c.arena ∷ idxs, final)
    pub grown : Grown c final (size col) id
    pub found : is_some (find final.by_id id) ≡ true
    pub reads :
        (h : CatalogColumns V) (rest : List (CatalogColumn V)) (fuel : ℕ)
        → h.arena ≡ final.arena ++ rest
        → size col ≤ fuel
        → schema_column_from_arena_index fuel h (length c.arena) ≡ ok (number id col)

  record AddedBelow (p : ArenaIdx) (d : DataType V) (c : CatalogColumns V) (id : ℤ) : Type 0 where
    idxs : List ArenaIdx
    final : CatalogColumns V
    placed : place_below false p d c ≡ ok (idxs, final)
    grown : Grown c final (size_below d) id
    reads :
        (h : CatalogColumns V) (rest : List (CatalogColumn V)) (fuel : ℕ)
        → h.arena ≡ final.arena ++ rest
        → size_below d ≤ fuel
        → schema_dtype (schema_column_from_arena_index fuel h) (dtype_at (length c.arena) d)
          ≡ ok (number_below id d)

  record AddedFields (p : ArenaIdx) (fields : Columns V) (c : CatalogColumns V) (id : ℤ)
      : Type 0 where
    idxs : List ArenaIdx
    final : CatalogColumns V
    placed : place_fields false p fields c ≡ ok (idxs, final)
    grown : Grown c final (size_fields fields) id
    reads :
        (h : CatalogColumns V) (rest : List (CatalogColumn V)) (fuel : ℕ)
        → h.arena ≡ final.arena ++ rest
        → size_fields fields ≤ fuel
        → columns_of (schema_column_from_arena_index fuel h) (field_places (length c.arena) fields)
          ≡ ok (number_fields id fields)

  -- A column of which the type can be read can be read.
  read_node :
      (h : CatalogColumns V) (pre rest : List (CatalogColumn V)) (node : CatalogColumn V)
      (dtype : DataType V) (fuel : ℕ)
      → h.arena ≡ pre ++ (node ∷ rest)
      → schema_dtype (schema_column_from_arena_index fuel h) node.dtype ≡ ok dtype
      → schema_column_from_arena_index (suc fuel) h (length pre) ≡ ok (with_dtype node dtype)
  unfolding schema_column_from_arena_index
  read_node h pre rest node dtype fuel e r =
      let found : get_elem? h.arena (length pre) ≡ some node =
        ap (λ l. get_elem? l (length pre)) e ∙ get_elem?-middle pre rest node in
      ap
        (λ o. ok_or o panicked >>= λ (col : CatalogColumn V).
          schema_dtype (schema_column_from_arena_index fuel h) col.dtype >>= λ d.
          ok (with_dtype col d))
        found
      ∙ ap (λ o. o >>= λ d. ok (with_dtype node d)) r

  length-after :
      (xs : List (CatalogColumn V)) (y : CatalogColumn V)
      → length (xs ++ (y ∷ [])) ≡ suc (length xs)
  length-after xs y = omega (arith, length-append {0} xs (y ∷ []))

  reads_node :
      (c : CatalogColumns V) (node : CatalogColumn V) (d numbered : DataType V)
      (final : CatalogColumns V) (more : List (CatalogColumn V)) (n : ℕ)
      → final.arena ≡ (c.arena ++ (node ∷ [])) ++ more
      → ((h : CatalogColumns V) (rest : List (CatalogColumn V)) (fuel : ℕ)
          → h.arena ≡ final.arena ++ rest
          → n ≤ fuel
          → schema_dtype (schema_column_from_arena_index fuel h) node.dtype ≡ ok numbered)
      → (h : CatalogColumns V) (rest : List (CatalogColumn V)) (fuel : ℕ)
      → h.arena ≡ final.arena ++ rest
      → suc n ≤ fuel
      → schema_column_from_arena_index fuel h (length c.arena) ≡ ok (with_dtype node numbered)
  reads_node c node d numbered final more n g r h rest zero e l = absurd (omega arith)
  reads_node c node d numbered final more n g r h rest (suc fuel) e l =
      read_node h c.arena (more ++ rest) node numbered fuel
        (e
          ∙ ap (λ l. l ++ rest) g
          ∙ append_assoc (c.arena ++ (node ∷ [])) more rest
          ∙ append_assoc c.arena (node ∷ []) (more ++ rest))
        (r h rest fuel e (omega arith))

  Added-node :
      (parent : Option ArenaIdx) (d : DataType V) (info : ColumnInfo V) (c : CatalogColumns V)
      (id : ℤ)
      → c.next_column_id ≡ some id
      → IsWellFormedBelow d
      → AddedBelow
          (length c.arena)
          d
          (with_node c (node_of parent (dtype_at (suc (length c.arena)) d) info id))
          (add_i64 id (pos 1))
      → Added parent (column d info) c id
  unfolding place size number
  Added-node parent d info c id h w b =
      let node = node_of parent (dtype_at (suc (length c.arena)) d) info id in
      let t = with_node c node in
      record {
        idxs = b.idxs;
        final = b.final;
        placed =
            >>=-through
              (add_flat false parent (child_places (suc (length c.arena)) d) (column d info) c) _
              (length c.arena, t) _
              (add_flat-with_node parent (child_places (suc (length c.arena)) d) d info c
                (dtype_at (suc (length c.arena)) d) id h
                (catalog_dtype-dtype_at (suc (length c.arena)) d w))
              (>>=-through (place_below false (length c.arena) d t) _ (b.idxs, b.final) _ b.placed
                refl);
        grown =
            let e : 1 + size_below d ≡ suc (size_below d) = omega arith in
            subst (λ n. Grown c b.final n id) e
              (Grown-trans c t b.final 1 (size_below d) id (Grown-with_node c node) b.grown);
        found = b.grown.kept id (found-put c id (length c.arena));
        reads =
            reads_node c node d (number_below (add_i64 id (pos 1)) d) b.final b.grown.more
              (size_below d) b.grown.grown
              (λ h rest fuel e l.
                subst
                  (λ n.
                    schema_dtype (schema_column_from_arena_index fuel h) (dtype_at n d)
                    ≡ ok (number_below (add_i64 id (pos 1)) d))
                  (length-after c.arena node) (b.reads h rest fuel e l));
      }

  -- The arena of `h` holds what stood behind `a`, also where that has grown to `b`.
  further :
      (h a b : CatalogColumns V) (more rest : List (CatalogColumn V))
      → b.arena ≡ a.arena ++ more
      → h.arena ≡ b.arena ++ rest
      → h.arena ≡ a.arena ++ (more ++ rest)
  further h a b more rest g e = e ∙ ap (λ l. l ++ rest) g ∙ append_assoc a.arena more rest

  mutual
    unfolding place size number IsWellFormed

    pub added :
        (parent : Option ArenaIdx) (col : Column V) (c : CatalogColumns V) (id : ℤ)
        → c.next_column_id ≡ some id
        → IsWellFormed col
        → Added parent col c id
    added parent (column d info) c id h w = Added-node parent d info c id h w (
        added_below (length c.arena) d
          (with_node c (node_of parent (dtype_at (suc (length c.arena)) d) info id))
          (add_i64 id (pos 1)) refl w)

    added_below :
        (p : ArenaIdx) (d : DataType V) (c : CatalogColumns V) (id : ℤ)
        → c.next_column_id ≡ some id
        → IsWellFormedBelow d
        → AddedBelow p d c id
    added_below p (DataType.list item) c id h w =
        let a = added (some p) item c id h w in
        record {
          idxs = length c.arena ∷ a.idxs;
          final = a.final;
          placed = a.placed;
          grown = a.grown;
          reads = λ h rest fuel e l.
              >>=-through (schema_column_from_arena_index fuel h (length c.arena)) _
                (number id item) _ (a.reads h rest fuel e l) refl;
        }
    added_below p (DataType.struct fields) c id h (ne, d, w) =
        let a = added_fields p fields c id h w in
        record {
          idxs = a.idxs;
          final = a.final;
          placed = a.placed;
          grown = a.grown;
          reads = λ h rest fuel e l.
              ap
                (λ idxs. columns_of (schema_column_from_arena_index fuel h) idxs >>= λ columns.
                  ok (DataType.struct columns))
                (values-zip fields (length c.arena))
              ∙ >>=-through
                  (columns_of (schema_column_from_arena_index fuel h)
                    (field_places (length c.arena) fields))
                  _ (number_fields id fields) _ (a.reads h rest fuel e l) refl;
        }
    added_below p (DataType.map key value) c id h (wk, wv) =
        let a = added (some p) key c id h wk in
        let b = added (some p) value a.final (id_after id (size key)) a.grown.next wv in
        record {
          idxs = (length c.arena ∷ a.idxs) ++ (length a.final.arena ∷ b.idxs);
          final = b.final;
          placed =
              >>=-through (place false (some p) key c) _ (length c.arena ∷ a.idxs, a.final) _
                a.placed
                (>>=-through (place false (some p) value a.final) _
                  (length a.final.arena ∷ b.idxs, b.final) _ b.placed refl);
          grown = Grown-trans c a.final b.final (size key) (size value) id a.grown b.grown;
          reads = λ h rest fuel e l.
              >>=-through (schema_column_from_arena_index fuel h (length c.arena)) _ (number id key)
                _
                (a.reads h (b.grown.more ++ rest) fuel
                  (further h a.final b.final b.grown.more rest b.grown.grown e) (omega arith))
                (ap
                    (λ n. schema_column_from_arena_index fuel h n >>= λ v.
                      ok (DataType.map (number id key) v))
                    (sym (
                      length-place false (some p) key c a.final (length c.arena ∷ a.idxs) a.placed))
                  ∙ >>=-through (schema_column_from_arena_index fuel h (length a.final.arena)) _
                      (number (id_after id (size key)) value) _
                      (b.reads h rest fuel e (omega arith)) refl);
        }
    added_below p _ c id h w = record {
      idxs = [];
      final = c;
      placed = refl;
      grown = Grown-refl c id h;
      reads = λ h rest fuel e l. refl;
    }

    added_fields :
        (p : ArenaIdx) (fields : Columns V) (c : CatalogColumns V) (id : ℤ)
        → c.next_column_id ≡ some id
        → AreWellFormed fields
        → AddedFields p fields c id
    added_fields p nil c id h w = record {
      idxs = [];
      final = c;
      placed = refl;
      grown = Grown-refl c id h;
      reads = λ h rest fuel e l. refl;
    }
    added_fields p (cons field fields) c id h (w, ws) =
        let a = added (some p) field c id h w in
        let b = added_fields p fields a.final (id_after id (size field)) a.grown.next ws in
        record {
          idxs = (length c.arena ∷ a.idxs) ++ b.idxs;
          final = b.final;
          placed =
              >>=-through (place false (some p) field c) _ (length c.arena ∷ a.idxs, a.final) _
                a.placed
                (>>=-through (place_fields false p fields a.final) _ (b.idxs, b.final) _ b.placed
                  refl);
          grown =
              Grown-trans c a.final b.final (size field) (size_fields fields) id a.grown b.grown;
          reads = λ h rest fuel e l.
              >>=-through (schema_column_from_arena_index fuel h (length c.arena)) _
                (number id field) _
                (a.reads h (b.grown.more ++ rest) fuel
                  (further h a.final b.final b.grown.more rest b.grown.grown e) (omega arith))
                (ap
                    (λ n.
                      columns_of (schema_column_from_arena_index fuel h) (field_places n fields)
                      >>= λ rest. ok (cons (number id field) rest))
                    (sym (
                      length-place false (some p) field c a.final (length c.arena ∷ a.idxs)
                        a.placed))
                  ∙ >>=-through
                      (columns_of (schema_column_from_arena_index fuel h)
                        (field_places (length a.final.arena) fields))
                      _ (number_fields (id_after id (size field)) fields) _
                      (b.reads h rest fuel e (omega arith)) refl);
        }
