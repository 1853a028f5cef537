-- ===== src/Catalog/Columns/Downward/Naming.antt =====
-- The names of columns (crates/ducklake/src/catalog/typedefs/columns.rs): a new field is entered among the
-- names of its struct.
use ducklake_sdk.Common.{
  ℕ, zero, suc, ◌<◌, ◌≡◌, refl, sym, ap, ◌∙◌, subst, ◌⊎◌, inl, inr, Bool, false, List, [], ◌∷◌,
  Option, none, some, Option-cases, set, get_elem?, get_elem?-set, get_elem?-set_ne, Elem, arith,
  nat_beq, Bool-cases, length, list_eq, nat_eq,
}
use ducklake_sdk.Common.Dict
use ducklake_sdk.Common.Dict.{Dict}
use ducklake_sdk.Common.Text.{Text}
use ducklake_sdk.Common.Error.{ok, err, ok_or, panicked, ◌>>=◌, >>=-ok, ok_inj}
use ducklake_sdk.Typedefs.Schema.{Column}
use ducklake_sdk.Catalog.Entities.{ArenaIdx, CatalogColumns, CatalogColumn, CatalogDataType}
use ducklake_sdk.Catalog.Columns.{
  children, values, names_at, set_names_at, struct_fields, write_column, column_of,
  ensure_column_unique_at_parent, name_of,
}
use ducklake_sdk.Catalog.Columns.Add.{add_column, add_column_to_arena, first_of}
use ducklake_sdk.Catalog.Columns.Downward.{IsDownward, get_elem?-bound}
use ducklake_sdk.Catalog.Columns.Downward.Adding.{
  children_at, values-insert, add_column_to_arena-IsDownward, get_elem?-inside,
}
use ducklake_sdk.Typedefs.Schema.{column}
use ducklake_sdk.Catalog.Columns.Flat.{size}
use ducklake_sdk.Catalog.Columns.Children.{child_places}
use ducklake_sdk.Catalog.Columns.Equivalence.{add_column_to_arena-place}
use ducklake_sdk.Catalog.Columns.Reference.{place, place_below, length-place, length-add_flat}
use ducklake_sdk.Catalog.Columns.Add.{add_flat}

set-present :
    {A : Type 0} (xs : List A) (i j : ℕ) (v x : A)
    → get_elem? xs i ≡ some x
    → (y : A) × (get_elem? (set xs j v) i ≡ some y)
set-present [] i j v x h = cc
set-present (a ∷ xs) zero zero v x h = (v, refl)
set-present (a ∷ xs) zero (suc j) v x h = (a, refl)
set-present (a ∷ xs) (suc i) zero v x h = (x, h)
set-present (a ∷ xs) (suc i) (suc j) v x h = set-present xs i j v x h

module _ {V : Type 0} where
  struct_fields-children :
      (dtype : CatalogDataType V) (names : Dict Text ArenaIdx)
      → struct_fields dtype ≡ ok names
      → children dtype ≡ values names
  struct_fields-children (CatalogDataType.struct fields) names h = ap values (ok_inj fields names h)
  struct_fields-children (CatalogDataType.primitive d) names h = cc
  struct_fields-children (CatalogDataType.list item) names h = cc
  struct_fields-children (CatalogDataType.map key value) names h = cc

  -- A column behind the parent, if there is one.
  abbrev IsBelow : CatalogColumns V → Option ArenaIdx → ArenaIdx → Type 0
  IsBelow c none x = Unit {0}
  IsBelow c (some p) x = (p < x) × (node : CatalogColumn V) × (get_elem? c.arena x ≡ some node)

  written-IsDownward :
      (c : CatalogColumns V) (p : ArenaIdx) (before after : CatalogColumn V)
      → IsDownward c
      → get_elem? c.arena p ≡ some before
      → ((x : ArenaIdx)
          → Elem x (children after.dtype)
          → Elem x (children before.dtype) ⊎ IsBelow c (some p) x)
      → IsDownward (record c { arena = set c.arena p after })
  written-IsDownward c p before after d e new idx col h child m =
      elim (Bool-cases (nat_beq idx p)) [
        | inl t ↦
            let same : idx ≡ p = ground arith in
            let moved : get_elem? (set c.arena p after) p ≡ some col =
              subst (λ i. get_elem? (set c.arena p after) i ≡ some col) same h in
            let is_after : some after ≡ some col =
              sym (get_elem?-set c.arena p after before e) ∙ moved in
            let (below, node, there) : IsBelow c (some p) child =
              elim (new child (subst (λ o. Elem child (children_at o)) (sym is_after) m)) [
                | inl l ↦ d p before e child l
                | inr r ↦ r
              ] in
            let (y, found_there) = set-present c.arena child p after node there in
            (omega (arith, same), y, found_there)
        | inr f ↦
            let other : get_elem? c.arena idx ≡ some col =
              sym (get_elem?-set_ne c.arena p idx after (λ k. ground arith)) ∙ h in
            let (below, node, there) = d idx col other child m in
            let (y, found_there) = set-present c.arena child p after node there in
            (below, y, found_there)
      ]

  write_column-some :
      (f : CatalogColumn V → CatalogColumn V) (p : ArenaIdx) (c : CatalogColumns V)
      (col : CatalogColumn V)
      → get_elem? c.arena p ≡ some col
      → write_column f p c ≡ record c { arena = set c.arena p (f col) }
  write_column-some f p c col e = rw (e, write_column) refl

  set_names_at-IsDownward :
      (c : CatalogColumns V) (parent : Option ArenaIdx) (old new : Dict Text ArenaIdx)
      → IsDownward c
      → names_at c parent ≡ ok old
      → ((x : ArenaIdx) → Elem x (values new) → Elem x (values old) ⊎ IsBelow c parent x)
      → IsDownward (set_names_at parent new c)
  unfolding set_names_at names_at
  set_names_at-IsDownward c none old new d h n = d
  set_names_at-IsDownward c (some p) old new d h n = elim (Option-cases (get_elem? c.arena p)) [
    | inl e ↦
        let (col, a, b) = >>=-ok (column_of c p) _ old h in
        absurd (none_ok col (ap (λ o. ok_or o panicked) (sym e) ∙ a))
    | inr (col, e) ↦
        let names : struct_fields col.dtype ≡ ok old =
          ap (λ o. ok_or o panicked >>= λ (x : CatalogColumn V). struct_fields x.dtype) (sym e)
          ∙ h in
        let same = struct_fields-children col.dtype old names in
        subst IsDownward (sym (write_column-some _ p c col e)) (
          written-IsDownward c p col (record col { dtype = CatalogDataType.struct new }) d e
            (λ x m. elim (n x m) [ inl l ↦ inl (subst (Elem x) (sym same) l) | inr r ↦ inr r ]))
  ]
    where
      none_ok : (col : CatalogColumn V) → err panicked ≡ ok col → ⊥
      none_ok col k = cc

  -- The first column that is added stands behind the others.
  first_of-place :
      (preserve : Bool) (parent : Option ArenaIdx) (col : Column V) (c g : CatalogColumns V)
      (idxs : List ArenaIdx) (i : ArenaIdx)
      → place preserve parent col c ≡ ok (idxs, g)
      → first_of idxs ≡ ok i
      → (i ≡ length c.arena) × (length c.arena < length g.arena)
  unfolding place size
  first_of-place preserve parent (column d info) c g idxs i h f =
      let places = child_places (suc (length c.arena)) d in
      let ((idx, t), a, b) =
        >>=-ok (add_flat preserve parent places (column d info) c) _ (idxs, g) h in
      let ((below, u), a', b') = >>=-ok (place_below preserve (length c.arena) d t) _ (idxs, g) b in
      let e = ok_inj {A = List ArenaIdx × CatalogColumns V} (idx ∷ below, u) (idxs, g) b' in
      let (at_end, grown) = length-add_flat preserve parent places (column d info) c t idx a in
      let first =
        ok_inj idx i (ap (λ (z : List ArenaIdx × CatalogColumns V). first_of z.0) e ∙ f) in
      let total = length-place preserve parent (column d info) c g idxs h in
      (sym first ∙ at_end, omega arith)

  -- A level that has names is that of a column.
  named-bound :
      (c : CatalogColumns V) (p : ArenaIdx) (names : Dict Text ArenaIdx)
      → names_at c (some p) ≡ ok names
      → p < length c.arena
  unfolding names_at
  named-bound c p names h =
      let (col, a, b) = >>=-ok (column_of c p) _ names h in
      elim (Option-cases (get_elem? c.arena p)) [
        | inl e ↦ absurd (none_ok col (ap (λ o. ok_or o panicked) (sym e) ∙ a))
        | inr (x, e) ↦ get_elem?-bound c.arena p x e
      ]
    where
      none_ok : (col : CatalogColumn V) → err panicked ≡ ok col → ⊥
      none_ok col k = cc

  first-IsBelow :
      (c g : CatalogColumns V) (parent : Option ArenaIdx) (names : Dict Text ArenaIdx)
      (i : ArenaIdx)
      → names_at c parent ≡ ok names
      → i ≡ length c.arena
      → length c.arena < length g.arena
      → IsBelow g parent i
  first-IsBelow c g none names i h e l = tt
  first-IsBelow c g (some p) names i h e l =
      let b = named-bound c p names h in
      let (node, there) = get_elem?-inside g.arena i (omega arith) in (omega arith, node, there)

  -- Adding a column to a table or to one of its structs keeps the children of each column behind it.
  pub add_column-IsDownward :
      (parent : Option ArenaIdx) (col : Column V) (c d : CatalogColumns V) (idxs : List ArenaIdx)
      → IsDownward c
      → add_column parent col c ≡ ok (idxs, d)
      → IsDownward d
  unfolding add_column ensure_column_unique_at_parent
  add_column-IsDownward parent col c d idxs w h =
      let (u, a, b) =
        >>=-ok (ensure_column_unique_at_parent c parent (name_of col)) _ (idxs, d) h in
      let (level, named, unused) = >>=-ok (names_at c parent) _ u a in
      let ((added, grown), a1, b1) =
        >>=-ok (add_column_to_arena col parent false c) _ (idxs, d) b in
      let (i, a2, b2) = >>=-ok (first_of added) _ (idxs, d) b1 in
      let (names, a3, b3) = >>=-ok (names_at grown parent) _ (idxs, d) b2 in
      let e = ok_inj {A = List ArenaIdx × CatalogColumns V} _ (idxs, d) b3 in
      let placed = sym (add_column_to_arena-place col parent false c) ∙ a1 in
      let (last, longer) = first_of-place false parent col c grown added i placed a2 in
      subst (λ (z : List ArenaIdx × CatalogColumns V). IsDownward z.1) e
        (set_names_at-IsDownward grown parent names (Dict.insert names (name_of col) i)
          (add_column_to_arena-IsDownward col parent false c grown added w a1) a3
          (λ x m. elim (values-insert names (name_of col) i x m) [
            | inl l ↦ inl l
            | inr k ↦ inr (
                subst (IsBelow grown parent) (sym k)
                  (first-IsBelow c grown parent level i named last longer))
          ]))
