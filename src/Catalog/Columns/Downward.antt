-- ===== src/Catalog/Columns/Downward.antt =====
-- Walks through the columns of crates/ducklake/src/catalog/typedefs/columns.rs come to an end.
pub mod Adding
pub mod Naming
use ducklake_sdk.Common.{
  ℕ, zero, suc, ◌+◌, ◌<◌, ◌≤◌, ◌≡◌, refl, ap, ◌∙◌, inl, inr, List, [], ◌∷◌, ◌++◌, some, length,
  get_elem?, Elem, arith,
}
use ducklake_sdk.Common.Error.{Result, ok, ok_or, panicked, ◌>>=◌, >>=-through}
use ducklake_sdk.Catalog.Entities.{ArenaIdx, CatalogColumns, CatalogColumn}
use ducklake_sdk.Catalog.Columns.{
  column_of, children, concat_map, aggregate_column_indices, remove_column,
}
use ducklake_sdk.Catalog.Columns.Remove.{mark_column_deleted-aggregate, dropped, erased, with_index}

pub get_elem?-bound :
    {A : Type 0} (xs : List A) (i : ℕ) (x : A) → get_elem? xs i ≡ some x → i < length xs
get_elem?-bound [] i x h = cc
get_elem?-bound (y ∷ ys) zero x h = omega arith
get_elem?-bound (y ∷ ys) (suc i) x h = let b = get_elem?-bound ys i x h in omega arith

concat_map-returns :
    {A B : Type 0} (f : A → Result (List B)) (xs : List A)
    → ((x : A) → Elem x xs → (ys : List B) × (f x ≡ ok ys))
    → (ys : List B) × (concat_map f xs ≡ ok ys)
concat_map-returns f [] h = ([], refl)
concat_map-returns f (x ∷ xs) h =
    let (ys, p) = h x (inl refl) in
    let (zs, q) = concat_map-returns f xs (λ y e. h y (inr e)) in (ys ++ zs, rw (p, q) refl)

module _ {V : Type 0} where
  -- The children of each column are columns behind it.
  abbrev pub IsDownward : CatalogColumns V → Type 0
  IsDownward c =
      (idx : ArenaIdx) (col : CatalogColumn V)
      → get_elem? c.arena idx ≡ some col
      → (child : ArenaIdx) → Elem child (children col.dtype)
      → (idx < child) × (node : CatalogColumn V) × (get_elem? c.arena child ≡ some node)

  aggregate-returns :
      (fuel : ℕ) (c : CatalogColumns V)
      → IsDownward c
      → (idx : ArenaIdx) (col : CatalogColumn V) → get_elem? c.arena idx ≡ some col
      → length c.arena < fuel + idx
      → (idxs : List ArenaIdx) × (aggregate_column_indices fuel c idx ≡ ok idxs)
  unfolding aggregate_column_indices
  aggregate-returns zero c d idx col e l =
      let b = get_elem?-bound c.arena idx col e in absurd (omega arith)
  aggregate-returns (suc fuel) c d idx col e l =
      let (below, p) =
        concat_map-returns (aggregate_column_indices fuel c) (children col.dtype) (λ child m.
          let (less, node, there) = d idx col e child m in
          aggregate-returns fuel c d child node there (omega arith)) in
      (idx ∷ below, rw (e, p) refl)

  -- Where the children of each column are columns behind it, removing a column does not panic, and
  -- the removal ends within the steps that it is given. It returns the column and all columns below it,
  -- and the children of each column still stand behind it.
  pub remove_column-IsDownward :
      (c : CatalogColumns V) (idx : ArenaIdx) (col : CatalogColumn V)
      → IsDownward c
      → get_elem? c.arena idx ≡ some col
      → (idxs : List ArenaIdx) × (d : CatalogColumns V) × (remove_column idx c ≡ ok (idxs, d))
        × (aggregate_column_indices (suc (length c.arena)) c idx ≡ ok idxs)
        × IsDownward d
  unfolding remove_column
  remove_column-IsDownward c idx col down e =
      let (idxs, p) = aggregate-returns (suc (length c.arena)) c down idx col e (omega arith) in
      (
        idxs,
        with_index c (erased c.arena idxs c.by_id),
        mark_column_deleted-aggregate (suc (length c.arena)) c idx c.by_id
            ∙ ap (λ r. r >>= dropped c c.by_id) p,
        p,
        down,
      )
