-- ===== src/Catalog/Columns/Remove.antt =====
-- Removing columns: `remove_column` and `mark_column_deleted` of
-- crates/ducklake/src/catalog/typedefs/columns.rs.
use ducklake_sdk.Common.{
  ℕ, zero, suc, ◌≡◌, refl, sym, ap, ◌∙◌, Option-cases, inl, inr, List, [], ◌∷◌, ◌++◌, none, some,
  length, get_elem?, arith, list_eq, nat_eq, if◌then◌else◌,
}
use ducklake_sdk.Common.Dict
use ducklake_sdk.Common.Dict.{Dict, get-replace_key}
use ducklake_sdk.Common.Unique.{contains}
use ducklake_sdk.Common.Int.{ℤ, ℤ_beq_iff, int_eq}
use ducklake_sdk.Common.Text.{codes}
use ducklake_sdk.Common.Error.{
  Result, ok, err, ◌>>=◌, >>=-ok, >>=-assoc, >>=-ext, >>=-through, ok_inj, ok_or, panicked,
  already_exists,
}
use ducklake_sdk.Typedefs.Schema.{Column}
use ducklake_sdk.Catalog.Arena.{Index, find, erase, find-erase}
use ducklake_sdk.Catalog.Entities.{ArenaIdx, CatalogColumns, CatalogColumn}
use ducklake_sdk.Catalog.Columns.{
  name_of, column_of, children, concat_map, fold_map, aggregate_column_indices, mark_column_deleted,
  remove_column, ensure_column_unique_at_parent, names_at,
}
use ducklake_sdk.Catalog.Columns.Add.{add_column}

module _ {V : Type 0} where
  -- The index without the columns at some places.
  abbrev pub erased : List (CatalogColumn V) → List ArenaIdx → Index → Index
  erased arena [] index = index
  erased arena (idx ∷ idxs) index = elim (get_elem? arena idx) [
    | none ↦ erased arena idxs index
    | some col ↦ erased arena idxs (erase index col.id)
  ]

  erased-append :
      (arena : List (CatalogColumn V)) (xs ys : List ArenaIdx) (index : Index)
      → erased arena (xs ++ ys) index ≡ erased arena ys (erased arena xs index)
  erased-append arena [] ys index = refl
  erased-append arena (x ∷ xs) ys index =
      elim (get_elem? arena x)
        as (λ o.
          (elim o [
            | none ↦ erased arena (xs ++ ys) index
            | some col ↦ erased arena (xs ++ ys) (erase index col.id)
          ])
          ≡ erased arena ys (elim o [
            | none ↦ erased arena xs index
            | some col ↦ erased arena xs (erase index col.id)
          ])) [
            | none ↦ erased-append arena xs ys index
            | some col ↦ erased-append arena xs ys (erase index col.id)
          ]

  abbrev pub with_index : CatalogColumns V → Index → CatalogColumns V
  with_index c index = record c { by_id = index }

  abbrev pub dropped :
      CatalogColumns V → Index → List ArenaIdx → Result (List ArenaIdx × CatalogColumns V)
  dropped c index idxs = ok (idxs, with_index c (erased c.arena idxs index))

  erased-some :
      (arena : List (CatalogColumn V)) (idx : ArenaIdx) (idxs : List ArenaIdx) (index : Index)
      (col : CatalogColumn V)
      → get_elem? arena idx ≡ some col
      → erased arena (idx ∷ idxs) index ≡ erased arena idxs (erase index col.id)
  erased-some arena idx idxs index col e = rw (e, erased) refl

  -- Where each step drops a part, the steps drop the parts together.
  fold_map-dropped :
      (f : ArenaIdx → CatalogColumns V → Result (List ArenaIdx × CatalogColumns V))
      (g : ArenaIdx → Result (List ArenaIdx)) (c : CatalogColumns V)
      → ((idx : ArenaIdx) (index : Index)
          → f idx (with_index c index) ≡ (g idx >>= dropped c index))
      → (idxs : List ArenaIdx) (index : Index)
      → fold_map f idxs (with_index c index) ≡ (concat_map g idxs >>= dropped c index)
  fold_map-dropped f g c h [] index = refl
  fold_map-dropped f g c h (idx ∷ idxs) index =
      ap
        (λ r. r >>= λ (z : List ArenaIdx × CatalogColumns V).
          fold_map f idxs z.1 >>= λ (w : List ArenaIdx × CatalogColumns V). ok (z.0 ++ w.0, w.1))
        (h idx index)
      ∙ >>=-assoc (g idx) (dropped c index) _
      ∙ >>=-ext (g idx) _ _ (λ xs e.
        ap (λ r. r >>= λ (w : List ArenaIdx × CatalogColumns V). ok (xs ++ w.0, w.1))
          (fold_map-dropped f g c h idxs (erased c.arena xs index))
        ∙ >>=-assoc (concat_map g idxs) (dropped c (erased c.arena xs index)) _
        ∙ >>=-ext (concat_map g idxs) _ _ (λ ys k.
          ap (λ i. ok (xs ++ ys, with_index c i)) (sym (erased-append c.arena xs ys index)))
        ∙ sym (>>=-assoc (concat_map g idxs) (λ ys. ok (xs ++ ys)) (dropped c index)))
      ∙ sym (>>=-assoc (g idx) _ (dropped c index))

  marked_one :
      (fuel : ℕ) (c : CatalogColumns V) (index : Index) (idx : ArenaIdx) (col : CatalogColumn V)
      → get_elem? c.arena idx ≡ some col
      → ((i : ArenaIdx) (x : Index)
          → mark_column_deleted fuel i (with_index c x)
            ≡ (aggregate_column_indices fuel c i >>= dropped c x))
      → mark_column_deleted (suc fuel) idx (with_index c index)
        ≡ (aggregate_column_indices (suc fuel) c idx >>= dropped c index)
  unfolding mark_column_deleted aggregate_column_indices
  marked_one fuel c index idx col e h =
      let there : column_of c idx ≡ ok col = ap (λ o. ok_or o panicked) e in
      let below = concat_map (aggregate_column_indices fuel c) (children col.dtype) in
      >>=-through (column_of c idx) _ col _ there (
        ap (λ r. r >>= λ (z : List ArenaIdx × CatalogColumns V). ok (idx ∷ z.0, z.1))
          (fold_map-dropped (mark_column_deleted fuel) (aggregate_column_indices fuel c) c h
            (children col.dtype) (erase index col.id))
        ∙ >>=-assoc below (dropped c (erase index col.id)) _
        ∙ >>=-ext below _ _ (λ xs k.
          ap (λ i. ok (idx ∷ xs, with_index c i)) (sym (erased-some c.arena idx xs index col e)))
        ∙ sym (>>=-assoc below (λ xs. ok (idx ∷ xs)) (dropped c index)))
      ∙ ap
          (λ r.
            (r >>= λ (col : CatalogColumn V).
            concat_map (aggregate_column_indices fuel c) (children col.dtype) >>= λ xs.
            ok (idx ∷ xs))
            >>= dropped c index)
          (sym there)

  marked_none :
      (fuel : ℕ) (c : CatalogColumns V) (index : Index) (idx : ArenaIdx)
      → get_elem? c.arena idx ≡ none
      → mark_column_deleted (suc fuel) idx (with_index c index)
        ≡ (aggregate_column_indices (suc fuel) c idx >>= dropped c index)
  unfolding mark_column_deleted aggregate_column_indices
  marked_none fuel c index idx e = rw e refl

  pub mark_column_deleted-aggregate :
      (fuel : ℕ) (c : CatalogColumns V) (idx : ArenaIdx) (index : Index)
      → mark_column_deleted fuel idx (with_index c index)
        ≡ (aggregate_column_indices fuel c idx >>= dropped c index)
  mark_column_deleted-aggregate zero c idx index =
      unfold mark_column_deleted aggregate_column_indices in refl
  mark_column_deleted-aggregate (suc fuel) c idx index =
      elim (Option-cases (get_elem? c.arena idx)) [
        | inl e ↦ marked_none fuel c index idx e
        | inr (col, e) ↦
            marked_one fuel c index idx col e (λ i x. mark_column_deleted-aggregate fuel c i x)
      ]

  -- The IDs of the columns at some places.
  abbrev pub ids_at : List (CatalogColumn V) → List ArenaIdx → List ℤ
  ids_at arena [] = []
  ids_at arena (idx ∷ idxs) = elim (get_elem? arena idx) [
    | none ↦ ids_at arena idxs
    | some col ↦ col.id ∷ ids_at arena idxs
  ]

  find-erased :
      (arena : List (CatalogColumn V)) (idxs : List ArenaIdx) (index : Index) (j : ℤ)
      → find (erased arena idxs index) j
        ≡ (if contains (ids_at arena idxs) j then none else find index j)
  unfolding contains
  find-erased arena [] index j = refl
  find-erased arena (idx ∷ idxs) index j =
      elim (get_elem? arena idx)
        as (λ o.
          find
            (elim o [
              | none ↦ erased arena idxs index
              | some col ↦ erased arena idxs (erase index col.id)
            ])
            j
          ≡ (if contains
                (elim o [ none ↦ ids_at arena idxs | some col ↦ col.id ∷ ids_at arena idxs ]) j
              then none
              else find index j)) [
                | none ↦ find-erased arena idxs index j
                | some col ↦
                    find-erased arena idxs (erase index col.id) j
                    ∙ ground
                        (arith, find-erase index col.id j, ℤ_beq_iff col.id j, ℤ_beq_iff j col.id)
              ]

  -- What `remove_column` gives.
  removed-dropped :
      (idx : ArenaIdx) (c d : CatalogColumns V) (idxs : List ArenaIdx)
      → remove_column idx c ≡ ok (idxs, d)
      → (aggregate_column_indices (suc (length c.arena)) c idx ≡ ok idxs)
        × (d ≡ with_index c (erased c.arena idxs c.by_id))
  unfolding remove_column
  removed-dropped idx c d idxs h =
      let e = sym (mark_column_deleted-aggregate (suc (length c.arena)) c idx c.by_id) ∙ h in
      let (xs, a, b) =
        >>=-ok (aggregate_column_indices (suc (length c.arena)) c idx) _ (idxs, d) e in
      let k = ok_inj {A = List ArenaIdx × CatalogColumns V} _ (idxs, d) b in
      let same : xs ≡ idxs = ap (λ z. z.0) k in
      (
        a ∙ ap ok same,
        ap (λ z. z.1) (sym k) ∙ ap (λ l. with_index c (erased c.arena l c.by_id)) same,
      )

  -- Where a column is removed, the places returned are those of the column and of all columns below it.
  -- Their IDs, and no others, no longer lead to a column. The columns and the names of
  -- the root columns stay as they are.
  pub remove_column-aggregate :
      (idx : ArenaIdx) (c d : CatalogColumns V) (idxs : List ArenaIdx)
      → remove_column idx c ≡ ok (idxs, d)
      → (aggregate_column_indices (suc (length c.arena)) c idx ≡ ok idxs)
        × (d.arena ≡ c.arena)
        × (d.root_columns ≡ c.root_columns)
        × ((j : ℤ)
            → find d.by_id j ≡ (if contains (ids_at c.arena idxs) j then none else find c.by_id j))
  remove_column-aggregate idx c d idxs h =
      let (a, e) = removed-dropped idx c d idxs h in
      (
        a,
        ap (λ x. x.arena) e,
        ap (λ x. x.root_columns) e,
        λ j. ap (λ (x : CatalogColumns V). find x.by_id j) e ∙ find-erased c.arena idxs c.by_id j,
      )

  -- The name of a removed root column is not free again: a column of that name cannot be added.
  pub add_column-removed_name :
      (idx at : ArenaIdx) (c d : CatalogColumns V) (idxs : List ArenaIdx) (col : Column V)
      → Dict.get c.root_columns (name_of col) ≡ some at
      → remove_column idx c ≡ ok (idxs, d)
      → add_column none col d ≡ err (already_exists (codes "column") (name_of col))
  unfolding add_column ensure_column_unique_at_parent names_at
  add_column-removed_name idx at c d idxs col g h =
      let (a, e) = removed-dropped idx c d idxs h in
      let there : Dict.get d.root_columns (name_of col) ≡ some at =
        ap (λ x. Dict.get x.root_columns (name_of col)) e ∙ g in
      rw there refl
