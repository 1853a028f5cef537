-- ===== src/Catalog/Columns/Children.antt =====
-- The children that `add_column_to_arena` of crates/ducklake/src/catalog/typedefs/columns.rs groups by
-- parent: each flattened column finds its own.
use ducklake_sdk.Common.{
  ℕ, suc, ◌+◌, ◌≤◌, ◌<◌, ◌≡◌, refl, ap, ◌∙◌, ◌⊎◌, inl, inr, true, false, Bool-cases, List, [], ◌∷◌,
  ◌++◌, Option, some, length, nat_beq, arith,
}
use ducklake_sdk.Typedefs.Schema.{DataType, Column, column, Columns, nil, cons, FlattenedColumn}
use ducklake_sdk.Catalog.Entities.{ArenaIdx}
use ducklake_sdk.Catalog.Columns.Add.{children_of, is_child}
use ducklake_sdk.Catalog.Columns.Flat.{
  size, size_below, size_fields, flat, flat_below, flat_fields, length-flat,
}

-- The places of the children of a column whose first child stands at `n`.
abbrev pub field_places : {V : Type 0} → ArenaIdx → Columns V → List ArenaIdx
unfolding size
field_places n nil = []
field_places n (cons field fields) = n ∷ field_places (n + size field) fields

abbrev pub child_places : {V : Type 0} → ArenaIdx → DataType V → List ArenaIdx
unfolding size
child_places n (DataType.list item) = n ∷ []
child_places n (DataType.struct fields) = field_places n fields
child_places n (DataType.map key value) = n ∷ (n + size key) ∷ []
child_places n _ = []

-- Outside of `len` places from `n` on.
abbrev pub Apart : ℕ → ℕ → ℕ → Type 0
Apart idx n len = (idx < n) ⊎ (n + len ≤ idx)

Apart-ne : (idx n len : ℕ) → Apart idx n (suc len) → nat_beq n idx ≡ false
Apart-ne idx n len (inl h) = ground arith
Apart-ne idx n len (inr h) = ground arith

Apart-suc : (idx n len : ℕ) → Apart idx n (suc len) → Apart idx (suc n) len
Apart-suc idx n len (inl h) = inl (omega arith)
Apart-suc idx n len (inr h) = inr (omega arith)

Apart-left : (idx n a b : ℕ) → Apart idx n (a + b) → Apart idx n a
Apart-left idx n a b (inl h) = inl h
Apart-left idx n a b (inr h) = inr (omega arith)

Apart-right : (idx n a b : ℕ) → Apart idx n (a + b) → Apart idx (n + a) b
Apart-right idx n a b (inl h) = inl (omega arith)
Apart-right idx n a b (inr h) = inr (omega arith)

module _ {V : Type 0} where
  pub children_of-append :
      (idx q : ℕ) (xs ys : List (FlattenedColumn V))
      → children_of idx q (xs ++ ys) ≡ children_of idx q xs ++ children_of idx (q + length xs) ys
  unfolding children_of
  children_of-append idx q [] ys = ap (λ n. children_of idx n ys) (omega arith)
  children_of-append idx q (x ∷ xs) ys = elim (Bool-cases (is_child x.parent_index idx)) [
    | inl h ↦
        rw (h, children_of-append idx (suc q) xs ys)
          (ap (λ n. q ∷ (children_of idx (suc q) xs ++ children_of idx n ys)) (omega arith))
    | inr h ↦
        rw (h, children_of-append idx (suc q) xs ys)
          (ap (λ n. children_of idx (suc q) xs ++ children_of idx n ys) (omega arith))
  ]

  mutual
    unfolding children_of flat size

    pub children_of-flat :
        (idx q n : ℕ) (up : Option ℕ) (c : Column V)
        → is_child up idx ≡ false
        → Apart idx n (size c)
        → children_of idx q (flat n up c) ≡ []
    children_of-flat idx q n up (column d info) h a = rw h (
        children_of-flat_below idx (suc q) n (suc n) d (Apart-ne idx n (size_below d) a)
          (Apart-suc idx n (size_below d) a))

    children_of-flat_below :
        (idx q p n : ℕ) (d : DataType V)
        → nat_beq p idx ≡ false
        → Apart idx n (size_below d)
        → children_of idx q (flat_below p n d) ≡ []
    children_of-flat_below idx q p n (DataType.list item) h a =
        children_of-flat idx q n (some p) item h a
    children_of-flat_below idx q p n (DataType.struct fields) h a =
        children_of-flat_fields idx q p n fields h a
    children_of-flat_below idx q p n (DataType.map key value) h a =
        children_of-append idx q (flat n (some p) key) (flat (n + size key) (some p) value)
        ∙ ap
            (λ l.
              l
              ++ children_of idx (q + length (flat n (some p) key))
                  (flat (n + size key) (some p) value))
            (children_of-flat idx q n (some p) key h (Apart-left idx n (size key) (size value) a))
        ∙ children_of-flat idx (q + length (flat n (some p) key)) (n + size key) (some p) value h
            (Apart-right idx n (size key) (size value) a)
    children_of-flat_below idx q p n _ h a = refl

    pub children_of-flat_fields :
        (idx q p n : ℕ) (fields : Columns V)
        → nat_beq p idx ≡ false
        → Apart idx n (size_fields fields)
        → children_of idx q (flat_fields p n fields) ≡ []
    children_of-flat_fields idx q p n nil h a = refl
    children_of-flat_fields idx q p n (cons field fields) h a =
        children_of-append idx q (flat n (some p) field) (flat_fields p (n + size field) fields)
        ∙ ap
            (λ l.
              l
              ++ children_of idx (q + length (flat n (some p) field))
                  (flat_fields p (n + size field) fields))
            (children_of-flat idx q n (some p) field h
              (Apart-left idx n (size field) (size_fields fields) a))
        ∙ children_of-flat_fields idx (q + length (flat n (some p) field)) p (n + size field) fields
            h (Apart-right idx n (size field) (size_fields fields) a)

  -- The column itself is a child of the column that it names.
  children_of-flat_own :
      (idx q n : ℕ) (c : Column V) → idx < n → children_of idx q (flat n (some idx) c) ≡ q ∷ []
  unfolding children_of flat
  children_of-flat_own idx q n (column d info) h =
      let e : nat_beq idx idx ≡ true = ground arith in
      rw (e, children_of-flat_below idx (suc q) n (suc n) d (ground arith) (inl (omega arith))) refl

  children_of-flat_fields_own :
      (idx q n : ℕ) (fields : Columns V)
      → idx < n
      → children_of idx q (flat_fields idx n fields) ≡ field_places q fields
  unfolding flat size children_of
  children_of-flat_fields_own idx q n nil h = refl
  children_of-flat_fields_own idx q n (cons field fields) h =
      children_of-append idx q (flat n (some idx) field) (flat_fields idx (n + size field) fields)
      ∙ ap
          (λ l.
            l
            ++ children_of idx (q + length (flat n (some idx) field))
                (flat_fields idx (n + size field) fields))
          (children_of-flat_own idx q n field h)
      ∙ ap (λ k. q ∷ children_of idx (q + k) (flat_fields idx (n + size field) fields))
          (length-flat n (some idx) field)
      ∙ ap (◌∷◌ q)
          (children_of-flat_fields_own idx (q + size field) (n + size field) fields (omega arith))

  -- Below a column, its children are found at their places.
  pub children_of-flat_below_own :
      (n q : ℕ) (d : DataType V) → children_of n q (flat_below n (suc n) d) ≡ child_places q d
  unfolding flat size children_of
  children_of-flat_below_own n q (DataType.list item) =
      children_of-flat_own n q (suc n) item (omega arith)
  children_of-flat_below_own n q (DataType.struct fields) =
      children_of-flat_fields_own n q (suc n) fields (omega arith)
  children_of-flat_below_own n q (DataType.map key value) =
      children_of-append n q (flat (suc n) (some n) key) (flat (suc n + size key) (some n) value)
      ∙ ap
          (λ l.
            l
            ++ children_of n (q + length (flat (suc n) (some n) key))
                (flat (suc n + size key) (some n) value))
          (children_of-flat_own n q (suc n) key (omega arith))
      ∙ ap (◌∷◌ q) (
          children_of-flat_own n (q + length (flat (suc n) (some n) key)) (suc n + size key) value
            (omega arith)
          ∙ ap (λ k. (q + k) ∷ []) (length-flat (suc n) (some n) key))
  children_of-flat_below_own n q _ = refl
