-- ===== src/Catalog/Columns/Fits.antt =====
-- Every column in a flattened column finds its children where they stand, also among the columns
-- around it (crates/ducklake/src/catalog/typedefs/columns.rs).
use ducklake_sdk.Common.{
  ℕ, suc, ◌+◌, ◌≤◌, ◌<◌, ◌≡◌, refl, sym, ap, ◌∙◌, ◌⊎◌, inl, inr, false, List, [], ◌∷◌, ◌++◌, Option,
  none, some, length, length-append, append_assoc, append-nil, arith,
}
use ducklake_sdk.Typedefs.Schema.{DataType, Column, column, Columns, nil, cons, FlattenedColumn}
use ducklake_sdk.Catalog.Entities.{ArenaIdx}
use ducklake_sdk.Catalog.Columns.Add.{children_of, is_child}
use ducklake_sdk.Catalog.Columns.Flat.{
  size, size_below, size_fields, flat, flat_below, flat_fields, length-flat,
}
use ducklake_sdk.Catalog.Columns.Children.{
  child_places, children_of-append, children_of-flat, children_of-flat_fields,
  children_of-flat_below_own,
}

-- A parent before `n`, or none.
abbrev pub Before : Option ℕ → ℕ → Type 0
Before none n = Unit {0}
Before (some p) n = p < n

Before-is_child : (up : Option ℕ) (n idx : ℕ) → Before up n → n ≤ idx → is_child up idx ≡ false
Before-is_child none n idx b h = refl
Before-is_child (some p) n idx b h = ground arith

module _ {V : Type 0} where
  -- No column in the list is a child of a column between `lo` and `hi`.
  abbrev Free : ℕ → ℕ → List (FlattenedColumn V) → Type 0
  Free lo hi xs = (idx q : ℕ) → lo ≤ idx → idx < hi → children_of idx q xs ≡ []

  Free-append :
      (lo hi : ℕ) (xs ys : List (FlattenedColumn V))
      → Free lo hi xs
      → Free lo hi ys
      → Free lo hi (xs ++ ys)
  Free-append lo hi xs ys f g idx q h k =
      children_of-append idx q xs ys
      ∙ ap (λ l. l ++ children_of idx (q + length xs) ys) (f idx q h k)
      ∙ g idx (q + length xs) h k

  Free-node :
      (c : Column V) (up : Option ℕ) (n lo hi : ℕ)
      → Before up n
      → n ≤ lo
      → Free lo hi (record { column = c; parent_index = up } ∷ [])
  unfolding children_of
  Free-node c up n lo hi b h idx q k l = rw (Before-is_child up n idx b (omega arith)) refl

  Free-flat :
      (n lo hi : ℕ) (up : Option ℕ) (c : Column V)
      → Before up lo
      → (hi ≤ n) ⊎ (n + size c ≤ lo)
      → Free lo hi (flat n up c)
  Free-flat n lo hi up c b (inl h) idx q k l =
      children_of-flat idx q n up c (Before-is_child up lo idx b k) (inl (omega arith))
  Free-flat n lo hi up c b (inr h) idx q k l =
      children_of-flat idx q n up c (Before-is_child up lo idx b k) (inr (omega arith))

  -- Each column of `c`, which stands at the index `n`, has its children found in `all`. `first` is
  -- the place of the first of `all`.
  unfoldable mutual
    unfolding size

    pub Fits : ArenaIdx → List (FlattenedColumn V) → ℕ → Column V → Type 0
    Fits first all n (column d info) =
        (children_of n first all ≡ child_places (first + suc n) d) × FitsBelow first all (suc n) d

    pub FitsBelow : ArenaIdx → List (FlattenedColumn V) → ℕ → DataType V → Type 0
    FitsBelow first all n (DataType.list item) = Fits first all n item
    FitsBelow first all n (DataType.struct fields) = FitsFields first all n fields
    FitsBelow first all n (DataType.map key value) =
        Fits first all n key × Fits first all (n + size key) value
    FitsBelow first all n _ = Unit {0}

    pub FitsFields : ArenaIdx → List (FlattenedColumn V) → ℕ → Columns V → Type 0
    FitsFields first all n nil = Unit {0}
    FitsFields first all n (cons field fields) =
        Fits first all n field × FitsFields first all (n + size field) fields

  Free-narrow :
      (lo hi lo' hi' : ℕ) (xs : List (FlattenedColumn V))
      → lo ≤ lo'
      → hi' ≤ hi
      → Free lo hi xs
      → Free lo' hi' xs
  Free-narrow lo hi lo' hi' xs h k f idx q a b = f idx q (omega arith) (omega arith)

  -- `pre` stands before `len` columns from `n` on and `post` behind, and neither holds children of
  -- theirs.
  record Around (n len : ℕ) (pre post : List (FlattenedColumn V)) : Type 0 where
    starts : length pre ≡ n
    before : Free n (n + len) pre
    after : Free n (n + len) post

  -- The first and the second part of what is surrounded.
  Around-left :
      (n a b : ℕ) (xs pre post : List (FlattenedColumn V))
      → Around n (a + b) pre post
      → Free n (n + a) xs
      → Around n a pre (xs ++ post)
  Around-left n a b xs pre post r f = record {
    starts = r.starts;
    before = Free-narrow n (n + (a + b)) n (n + a) pre (omega arith) (omega arith) r.before;
    after =
        Free-append n (n + a) xs post f
          (Free-narrow n (n + (a + b)) n (n + a) post (omega arith) (omega arith) r.after);
  }

  Around-right :
      (n a b : ℕ) (xs pre post : List (FlattenedColumn V))
      → Around n (a + b) pre post
      → length xs ≡ a
      → Free (n + a) (n + a + b) xs
      → Around (n + a) b (pre ++ xs) post
  Around-right n a b xs pre post r l f = record {
    starts = omega (arith, length-append {0} pre xs, r.starts);
    before =
        Free-append (n + a) (n + a + b) pre xs
          (Free-narrow n (n + (a + b)) (n + a) (n + a + b) pre (omega arith) (omega arith) r.before)
          f;
    after =
        Free-narrow n (n + (a + b)) (n + a) (n + a + b) post (omega arith) (omega arith) r.after;
  }

  Around-node :
      (n len : ℕ) (pre post : List (FlattenedColumn V)) (up : Option ℕ) (c : Column V)
      → Around n (suc len) pre post
      → Before up n
      → Around (suc n) len (pre ++ (record { column = c; parent_index = up } ∷ [])) post
  Around-node n len pre post up c r b =
      let node : FlattenedColumn V = record { column = c; parent_index = up } in
      record {
        starts = omega (arith, length-append {0} pre (node ∷ []), r.starts);
        before =
            Free-append (suc n) (suc n + len) pre (node ∷ [])
              (Free-narrow n (n + suc len) (suc n) (suc n + len) pre (omega arith) (omega arith)
                r.before)
              (Free-node c up n (suc n) (suc n + len) b (omega arith));
        after =
            Free-narrow n (n + suc len) (suc n) (suc n + len) post (omega arith) (omega arith)
              r.after;
      }

  -- `all` with a part moved from behind to before.
  shift :
      (all pre xs ys post : List (FlattenedColumn V))
      → all ≡ pre ++ ((xs ++ ys) ++ post)
      → all ≡ (pre ++ xs) ++ (ys ++ post)
  shift all pre xs ys post e =
      e ∙ ap (λ l. pre ++ l) (append_assoc xs ys post) ∙ sym (append_assoc pre xs (ys ++ post))

  own_children :
      (first n : ℕ) (all pre post : List (FlattenedColumn V)) (up : Option ℕ) (c : Column V)
      (d : DataType V)
      → all ≡ pre ++ ((record { column = c; parent_index = up } ∷ flat_below n (suc n) d) ++ post)
      → Around n (suc (size_below d)) pre post
      → Before up n
      → children_of n first all ≡ child_places (first + suc n) d
  unfolding children_of
  own_children first n all pre post up c d e r b =
      let node : FlattenedColumn V = record { column = c; parent_index = up } in
      let below = flat_below n (suc n) d in
      let q = first + length pre in
      let skip : children_of n q (node ∷ below) ≡ children_of n (suc q) below =
        rw (Before-is_child up n n b (omega arith)) refl in
      ap (children_of n first) e
      ∙ children_of-append n first pre ((node ∷ below) ++ post)
      ∙ ap (λ l. l ++ children_of n q ((node ∷ below) ++ post))
          (r.before n first (omega arith) (omega arith))
      ∙ children_of-append n q (node ∷ below) post
      ∙ ap (λ l. children_of n q (node ∷ below) ++ l)
          (r.after n (q + length (node ∷ below)) (omega arith) (omega arith))
      ∙ append-nil (children_of n q (node ∷ below))
      ∙ skip
      ∙ children_of-flat_below_own n (suc q) d
      ∙ ap (λ k. child_places k d) (omega (arith, r.starts))

  mutual
    unfolding flat size Fits

    fits :
        (first n : ℕ) (all pre post : List (FlattenedColumn V)) (up : Option ℕ) (c : Column V)
        → all ≡ pre ++ (flat n up c ++ post)
        → Around n (size c) pre post
        → Before up n
        → Fits first all n c
    fits first n all pre post up (column d info) e r b =
        let node : FlattenedColumn V = record { column = column d info; parent_index = up } in
        (
          own_children first n all pre post up (column d info) d e r b,
          fits_below first n (suc n) all (pre ++ (node ∷ [])) post d
              (shift all pre (node ∷ []) (flat_below n (suc n) d) post e)
              (Around-node n (size_below d) pre post up (column d info) r b) (omega arith),
        )

    fits_below :
        (first p n : ℕ) (all pre post : List (FlattenedColumn V)) (d : DataType V)
        → all ≡ pre ++ (flat_below p n d ++ post)
        → Around n (size_below d) pre post
        → p < n
        → FitsBelow first all n d
    fits_below first p n all pre post (DataType.list item) e r b =
        fits first n all pre post (some p) item e r b
    fits_below first p n all pre post (DataType.struct fields) e r b =
        fits_fields first p n all pre post fields e r b
    fits_below first p n all pre post (DataType.map key value) e r b =
        let ks = flat n (some p) key in
        let vs = flat (n + size key) (some p) value in
        (
          fits first n all pre (vs ++ post) (some p) key
              (e ∙ ap (λ l. pre ++ l) (append_assoc ks vs post))
              (Around-left n (size key) (size value) vs pre post r
                (Free-flat (n + size key) n (n + size key) (some p) value b (inl (omega arith))))
              b,
          fits first (n + size key) all (pre ++ ks) post (some p) value (shift all pre ks vs post e)
              (Around-right n (size key) (size value) ks pre post r (length-flat n (some p) key) (
                Free-flat n (n + size key) (n + size key + size value) (some p) key (omega arith)
                  (inr (omega arith))))
              (omega arith),
        )
    fits_below first p n all pre post _ e r b = tt

    fits_fields :
        (first p n : ℕ) (all pre post : List (FlattenedColumn V)) (fields : Columns V)
        → all ≡ pre ++ (flat_fields p n fields ++ post)
        → Around n (size_fields fields) pre post
        → p < n
        → FitsFields first all n fields
    fits_fields first p n all pre post nil e r b = tt
    fits_fields first p n all pre post (cons field fields) e r b =
        let xs = flat n (some p) field in
        let ys = flat_fields p (n + size field) fields in
        (
          fits first n all pre (ys ++ post) (some p) field
              (e ∙ ap (λ l. pre ++ l) (append_assoc xs ys post))
              (Around-left n (size field) (size_fields fields) ys pre post r (λ idx q k l.
                children_of-flat_fields idx q p (n + size field) fields
                  (Before-is_child (some p) n idx b k) (inl l)))
              b,
          fits_fields first p (n + size field) all (pre ++ xs) post fields
              (shift all pre xs ys post e)
              (Around-right n (size field) (size_fields fields) xs pre post r
                (length-flat n (some p) field)
                (Free-flat n (n + size field) (n + size field + size_fields fields) (some p) field
                  (omega arith) (inr (omega arith))))
              (omega arith),
        )

  -- The columns of a flattened column fit.
  pub flat-Fits : (first : ℕ) (c : Column V) → Fits first (flat 0 none c) 0 c
  unfolding children_of
  flat-Fits first c =
      fits first 0 (flat 0 none c) [] [] none c (sym (append-nil (flat 0 none c)))
        (record { starts = refl; before = λ idx q a b. refl; after = λ idx q a b. refl }) tt
