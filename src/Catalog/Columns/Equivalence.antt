-- ===== src/Catalog/Columns/Equivalence.antt =====
-- `add_column_to_arena` of crates/ducklake/src/catalog/typedefs/columns.rs, which goes over flattened
-- columns, adds what its reference by recursion on the column adds.
use ducklake_sdk.Common.{
  ℕ, suc, ◌+◌, ◌≡◌, refl, sym, ap, ◌∙◌, Bool, List, [], ◌∷◌, ◌++◌, Option, none, some, length,
  append_assoc, append-nil, arith,
}
use ducklake_sdk.Common.Error.{Result, ok, err, ◌>>=◌, >>=-assoc, >>=-ext, >>=-pure}
use ducklake_sdk.Typedefs.Schema.{DataType, Column, column, Columns, nil, cons, FlattenedColumn}
use ducklake_sdk.Catalog.Entities.{ArenaIdx, CatalogColumns}
use ducklake_sdk.Catalog.Columns.Add.{add_flat, add_flattened, add_column_to_arena, parent_place}
use ducklake_sdk.Catalog.Columns.Flat.{
  size, size_below, size_fields, flat, flat_below, flat_fields, flatten-flat,
}
use ducklake_sdk.Catalog.Columns.Children.{child_places}
use ducklake_sdk.Catalog.Columns.Fits.{Fits, FitsBelow, FitsFields, flat-Fits}
use ducklake_sdk.Catalog.Columns.Reference.{
  place, place_below, place_fields, length-add_flat, length-place,
}

module _ {V : Type 0} (preserve : Bool) (first : ArenaIdx) (parent : Option ArenaIdx)
    (all : List (FlattenedColumn V)) where
  -- The loop goes on at the index `m` with `post`, behind what has been added.
  abbrev go_on :
      ℕ
      → List (FlattenedColumn V)
      → List ArenaIdx × CatalogColumns V
      → Result (List ArenaIdx × CatalogColumns V)
  go_on m post (idxs, c) =
      add_flattened preserve first parent all m post c >>= λ (z : List ArenaIdx × CatalogColumns V).
      ok (idxs ++ z.0, z.1)

  -- Two parts, one behind the other.
  go_on_twice :
      (m : ℕ) (post : List (FlattenedColumn V)) (xs : List ArenaIdx)
      (r : Result (List ArenaIdx × CatalogColumns V))
      → ((r >>= go_on m post) >>= λ (z : List ArenaIdx × CatalogColumns V). ok (xs ++ z.0, z.1))
        ≡ (r >>= λ (y : List ArenaIdx × CatalogColumns V). go_on m post (xs ++ y.0, y.1))
  go_on_twice m post xs (err e) = refl
  go_on_twice m post xs (ok (ys, c)) =
      >>=-assoc (add_flattened preserve first parent all m post c) _ _
      ∙ >>=-ext (add_flattened preserve first parent all m post c) _ _
          (λ z h. ap (λ l. ok (l, z.1)) (sym (append_assoc xs ys z.0)))

  -- A part, and what is placed behind it.
  go_on_after :
      {A : Type 0} (m : ℕ) (post : List (FlattenedColumn V)) (list_of : A → List ArenaIdx)
      (r : Result (A × CatalogColumns V))
      (next : A × CatalogColumns V → Result (List ArenaIdx × CatalogColumns V))
      (f : CatalogColumns V → Result (List ArenaIdx × CatalogColumns V))
      → ((x : A × CatalogColumns V)
          → r ≡ ok x
          → next x ≡ (
              (f x.1 >>= go_on m post) >>= λ (z : List ArenaIdx × CatalogColumns V).
              ok (list_of x.0 ++ z.0, z.1)))
      → (r >>= next) ≡ (
          (r >>= λ (x : A × CatalogColumns V).
          f x.1 >>= λ (y : List ArenaIdx × CatalogColumns V). ok (list_of x.0 ++ y.0, y.1))
          >>= go_on m post)
  go_on_after m post list_of (err e) next f h = refl
  go_on_after m post list_of (ok x) next f h =
      h x refl ∙ go_on_twice m post (list_of x.0) (f x.1) ∙ sym (>>=-assoc (f x.1) _ (go_on m post))

  mutual
    unfolding place size flat Fits add_flattened

    add_flattened-place :
        (n : ℕ) (up : Option ℕ) (col : Column V) (post : List (FlattenedColumn V))
        (c : CatalogColumns V)
        → Fits first all n col
        → length c.arena ≡ first + n
        → add_flattened preserve first parent all n (flat n up col ++ post) c
          ≡ (place preserve (parent_place first parent up) col c >>= go_on (n + size col) post)
    add_flattened-place n up (column d info) post c (f, fs) l =
        ap
          (λ places.
            add_flat preserve (parent_place first parent up) places (column d info) c
            >>= λ (x : ArenaIdx × CatalogColumns V).
                add_flattened preserve first parent all (suc n) (flat_below n (suc n) d ++ post) x.1
                >>= λ (z : List ArenaIdx × CatalogColumns V). ok (x.0 ∷ z.0, z.1))
          (f ∙ ap (λ k. child_places k d) (omega (arith, l)))
        ∙ go_on_after (n + suc (size_below d)) post (λ (idx : ArenaIdx). idx ∷ [])
            (add_flat preserve (parent_place first parent up)
              (child_places (suc (length c.arena)) d) (column d info) c)
            _ (place_below preserve (length c.arena) d)
            (λ x h.
              ap (λ r. r >>= λ (z : List ArenaIdx × CatalogColumns V). ok (x.0 ∷ z.0, z.1))
                (add_flattened-place_below n (suc n) d post x.1 fs (
                    omega (
                      arith,
                      l,
                      (length-add_flat preserve (parent_place first parent up)
                          (child_places (suc (length c.arena)) d) (column d info) c x.1 x.0 h).1,
                    ))
                  ∙ ap (λ k. place_below preserve k d x.1 >>= go_on (suc n + size_below d) post)
                      (sym l)
                  ∙ ap (λ k. place_below preserve (length c.arena) d x.1 >>= go_on k post)
                      (omega arith)))

    add_flattened-place_below :
        (p n : ℕ) (d : DataType V) (post : List (FlattenedColumn V)) (c : CatalogColumns V)
        → FitsBelow first all n d
        → length c.arena ≡ first + n
        → add_flattened preserve first parent all n (flat_below p n d ++ post) c
          ≡ (place_below preserve (first + p) d c >>= go_on (n + size_below d) post)
    add_flattened-place_below p n (DataType.list item) post c f l =
        add_flattened-place n (some p) item post c f l
    add_flattened-place_below p n (DataType.struct fields) post c f l =
        add_flattened-place_fields p n fields post c f l
    add_flattened-place_below p n (DataType.map key value) post c (f, g) l =
        let ks = flat n (some p) key in
        let vs = flat (n + size key) (some p) value in
        ap (λ l. add_flattened preserve first parent all n l c) (append_assoc ks vs post)
        ∙ add_flattened-place n (some p) key (vs ++ post) c f l
        ∙ go_on_after (n + (size key + size value)) post (λ (idxs : List ArenaIdx). idxs)
            (place preserve (some (first + p)) key c) _ (place preserve (some (first + p)) value)
            (λ x h.
              ap (λ r. r >>= λ (z : List ArenaIdx × CatalogColumns V). ok (x.0 ++ z.0, z.1))
                (add_flattened-place (n + size key) (some p) value post x.1 g
                    (omega (arith, l, length-place preserve (some (first + p)) key c x.1 x.0 h))
                  ∙ ap (λ k. place preserve (some (first + p)) value x.1 >>= go_on k post)
                      (omega arith)))
    add_flattened-place_below p n _ post c f l =
        sym (>>=-pure (add_flattened preserve first parent all n post c))
        ∙ ap
            (λ k.
              add_flattened preserve first parent all k post c
              >>= λ (z : List ArenaIdx × CatalogColumns V). ok z)
            (omega arith)

    add_flattened-place_fields :
        (p n : ℕ) (fields : Columns V) (post : List (FlattenedColumn V)) (c : CatalogColumns V)
        → FitsFields first all n fields
        → length c.arena ≡ first + n
        → add_flattened preserve first parent all n (flat_fields p n fields ++ post) c
          ≡ (place_fields preserve (first + p) fields c >>= go_on (n + size_fields fields) post)
    add_flattened-place_fields p n nil post c f l =
        sym (>>=-pure (add_flattened preserve first parent all n post c))
        ∙ ap
            (λ k.
              add_flattened preserve first parent all k post c
              >>= λ (z : List ArenaIdx × CatalogColumns V). ok z)
            (omega arith)
    add_flattened-place_fields p n (cons field fields) post c (f, fs) l =
        let xs = flat n (some p) field in
        let ys = flat_fields p (n + size field) fields in
        ap (λ l. add_flattened preserve first parent all n l c) (append_assoc xs ys post)
        ∙ add_flattened-place n (some p) field (ys ++ post) c f l
        ∙ go_on_after (n + (size field + size_fields fields)) post (λ (idxs : List ArenaIdx). idxs)
            (place preserve (some (first + p)) field c) _ (place_fields preserve (first + p) fields)
            (λ x h.
              ap (λ r. r >>= λ (z : List ArenaIdx × CatalogColumns V). ok (x.0 ++ z.0, z.1))
                (add_flattened-place_fields p (n + size field) fields post x.1 fs
                    (omega (arith, l, length-place preserve (some (first + p)) field c x.1 x.0 h))
                  ∙ ap (λ k. place_fields preserve (first + p) fields x.1 >>= go_on k post)
                      (omega arith)))

module _ {V : Type 0} where
  -- The columns that are added, their places and their IDs are those of the reference, or both panic.
  pub add_column_to_arena-place :
      (col : Column V) (parent : Option ArenaIdx) (preserve : Bool) (c : CatalogColumns V)
      → add_column_to_arena col parent preserve c ≡ place preserve parent col c
  unfolding add_column_to_arena add_flattened
  add_column_to_arena-place col parent preserve c =
      let first = length c.arena in
      let all = flat 0 none col in
      ap (λ l. add_flattened preserve first parent l 0 l c) (flatten-flat col)
      ∙ ap (λ l. add_flattened preserve first parent all 0 l c) (sym (append-nil all))
      ∙ add_flattened-place preserve first parent all 0 none col [] c (flat-Fits first col)
          (omega arith)
      ∙ >>=-ext (place preserve parent col c) (go_on preserve first parent all (0 + size col) [])
          (λ z. ok z) (λ z h. ap (λ l. ok (l, z.1)) (append-nil z.0))
      ∙ >>=-pure (place preserve parent col c)
