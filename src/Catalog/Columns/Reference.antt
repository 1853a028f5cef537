-- ===== src/Catalog/Columns/Reference.antt =====
-- A reference for `add_column_to_arena` of crates/ducklake/src/catalog/typedefs/columns.rs: the same
-- columns, by recursion on the column instead of its flattened form.
use ducklake_sdk.Common.{
  suc, ◌+◌, ◌≡◌, sym, ap, ◌∙◌, Bool, true, false, List, [], ◌∷◌, ◌++◌, Option, some, length,
  length-append, arith,
}
use ducklake_sdk.Common.Int.{ℤ}
use ducklake_sdk.Common.Error.{Result, ok, ◌>>=◌, >>=-ok, ok_inj, ok_or, panicked}
use ducklake_sdk.Typedefs.Schema.{DataType, ColumnInfo, Column, column, Columns, nil, cons}
use ducklake_sdk.Catalog.Entities.{ArenaIdx, CatalogColumns}
use ducklake_sdk.Catalog.Columns.Add.{
  add_flat, catalog_dtype, column_id, push_column, next_column_id,
}
use ducklake_sdk.Catalog.Columns.Flat.{size, size_below, size_fields}
use ducklake_sdk.Catalog.Columns.Children.{child_places}

unfoldable mutual
  unfolding add_flat

  pub place :
      {V : Type 0}
      → Bool
      → Option ArenaIdx
      → Column V
      → CatalogColumns V
      → Result (List ArenaIdx × CatalogColumns V)
  place preserve parent (column d info) c = do
    (idx, grown) ←
        add_flat preserve parent (child_places (suc (length c.arena)) d) (column d info) c
    (idxs, final) ← place_below preserve (length c.arena) d grown
    ok (idx ∷ idxs, final)

  pub place_below :
      {V : Type 0}
      → Bool
      → ArenaIdx
      → DataType V
      → CatalogColumns V
      → Result (List ArenaIdx × CatalogColumns V)
  place_below preserve p (DataType.list item) c = place preserve (some p) item c
  place_below preserve p (DataType.struct fields) c = place_fields preserve p fields c
  place_below preserve p (DataType.map key value) c = do
    (ks, grown) ← place preserve (some p) key c
    (vs, final) ← place preserve (some p) value grown
    ok (ks ++ vs, final)
  place_below preserve p _ c = ok ([], c)

  pub place_fields :
      {V : Type 0}
      → Bool
      → ArenaIdx
      → Columns V
      → CatalogColumns V
      → Result (List ArenaIdx × CatalogColumns V)
  place_fields preserve p nil c = ok ([], c)
  place_fields preserve p (cons field fields) c = do
    (xs, grown) ← place preserve (some p) field c
    (ys, final) ← place_fields preserve p fields grown
    ok (xs ++ ys, final)

module _ {V : Type 0} where
  pub column_id-arena :
      (preserve : Bool) (info : ColumnInfo V) (c t : CatalogColumns V) (id : ℤ)
      → column_id preserve info c ≡ ok (id, t)
      → t.arena ≡ c.arena
  unfolding next_column_id
  column_id-arena true info c t id h =
      let (i, a, b) = >>=-ok (ok_or info.field_id panicked) _ (id, t) h in
      sym (ap (λ (z : ℤ × CatalogColumns V). z.1.arena) (ok_inj (i, c) (id, t) b))
  column_id-arena false info c t id h =
      let (i, a, b) = >>=-ok (ok_or c.next_column_id panicked) _ (id, t) h in
      sym (ap (λ (z : ℤ × CatalogColumns V). z.1.arena) (ok_inj _ (id, t) b))

  -- A pushed column stands behind the others.
  pub length-add_flat :
      (preserve : Bool) (parent : Option ArenaIdx) (places : List ArenaIdx) (col : Column V)
      (c g : CatalogColumns V) (idx : ArenaIdx)
      → add_flat preserve parent places col c ≡ ok (idx, g)
      → (idx ≡ length c.arena) × (length g.arena ≡ suc (length c.arena))
  unfolding add_flat push_column
  length-add_flat preserve parent places (column d info) c g idx h =
      let (dtype, a, b) = >>=-ok (catalog_dtype d places) _ (idx, g) h in
      let ((id, named), a', b') = >>=-ok (column_id preserve info c) _ (idx, g) b in
      let e = ok_inj _ (idx, g) b' in
      let same = ap length (column_id-arena preserve info c named id a') in
      (
        ap (λ (z : ArenaIdx × CatalogColumns V). z.0) (sym e) ∙ same,
        ap (λ (z : ArenaIdx × CatalogColumns V). length z.1.arena) (sym e)
            ∙ omega (arith, length-append {0} named.arena (_ ∷ []), same),
      )

  mutual
    unfolding place size

    pub length-place :
        (preserve : Bool) (parent : Option ArenaIdx) (col : Column V) (c g : CatalogColumns V)
        (idxs : List ArenaIdx)
        → place preserve parent col c ≡ ok (idxs, g)
        → length g.arena ≡ length c.arena + size col
    length-place preserve parent (column d info) c g idxs h =
        let ((idx, t), a, b) =
          >>=-ok
            (add_flat preserve parent (child_places (suc (length c.arena)) d) (column d info) c) _
            (idxs, g) h in
        let ((below, u), a', b') =
          >>=-ok (place_below preserve (length c.arena) d t) _ (idxs, g) b in
        let e = ok_inj {A = List ArenaIdx × CatalogColumns V} (idx ∷ below, u) (idxs, g) b' in
        ap (λ (z : List ArenaIdx × CatalogColumns V). length z.1.arena) (sym e)
        ∙ omega (
          arith,
          length-place_below preserve (length c.arena) d t u below a',
          (length-add_flat preserve parent (child_places (suc (length c.arena)) d) (column d info) c
              t idx a).1,
        )

    pub length-place_below :
        (preserve : Bool) (p : ArenaIdx) (d : DataType V) (c g : CatalogColumns V)
        (idxs : List ArenaIdx)
        → place_below preserve p d c ≡ ok (idxs, g)
        → length g.arena ≡ length c.arena + size_below d
    length-place_below preserve p (DataType.list item) c g idxs h =
        length-place preserve (some p) item c g idxs h
    length-place_below preserve p (DataType.struct fields) c g idxs h =
        length-place_fields preserve p fields c g idxs h
    length-place_below preserve p (DataType.map key value) c g idxs h =
        let ((ks, t), a, b) = >>=-ok (place preserve (some p) key c) _ (idxs, g) h in
        let ((vs, u), a', b') = >>=-ok (place preserve (some p) value t) _ (idxs, g) b in
        ap (λ (z : List ArenaIdx × CatalogColumns V). length z.1.arena)
          (sym (ok_inj {A = List ArenaIdx × CatalogColumns V} (ks ++ vs, u) (idxs, g) b'))
        ∙ omega (
          arith,
          length-place preserve (some p) key c t ks a,
          length-place preserve (some p) value t u vs a',
        )
    length-place_below preserve p _ c g idxs h =
        ap (λ (z : List ArenaIdx × CatalogColumns V). length z.1.arena)
          (sym (ok_inj {A = List ArenaIdx × CatalogColumns V} ([], c) (idxs, g) h))
        ∙ omega arith

    pub length-place_fields :
        (preserve : Bool) (p : ArenaIdx) (fields : Columns V) (c g : CatalogColumns V)
        (idxs : List ArenaIdx)
        → place_fields preserve p fields c ≡ ok (idxs, g)
        → length g.arena ≡ length c.arena + size_fields fields
    length-place_fields preserve p nil c g idxs h =
        ap (λ (z : List ArenaIdx × CatalogColumns V). length z.1.arena)
          (sym (ok_inj {A = List ArenaIdx × CatalogColumns V} ([], c) (idxs, g) h))
        ∙ omega arith
    length-place_fields preserve p (cons field fields) c g idxs h =
        let ((xs, t), a, b) = >>=-ok (place preserve (some p) field c) _ (idxs, g) h in
        let ((ys, u), a', b') = >>=-ok (place_fields preserve p fields t) _ (idxs, g) b in
        ap (λ (z : List ArenaIdx × CatalogColumns V). length z.1.arena)
          (sym (ok_inj {A = List ArenaIdx × CatalogColumns V} (xs ++ ys, u) (idxs, g) b'))
        ∙ omega (
          arith,
          length-place preserve (some p) field c t xs a,
          length-place_fields preserve p fields t u ys a',
        )
