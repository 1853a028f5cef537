-- ===== src/Catalog/Columns/Flat.antt =====
-- The order in which `Column::flatten` of crates/ducklake/src/typedefs/schema/column.rs lists a column
-- and all below it, written by recursion on the column.
use ducklake_sdk.Common.{
  ℕ, suc, ◌+◌, ◌≡◌, refl, sym, ap, ◌∙◌, List, [], ◌∷◌, ◌++◌, Option, none, some, length,
  length-append, append_assoc, append-nil, arith,
}
use ducklake_sdk.Typedefs.Schema.{
  DataType, Column, column, Columns, nil, cons, FlattenedColumn, flatten, flatten_into,
  flatten_children, flatten_fields,
}

-- The number of columns in a column.
unfoldable mutual
  pub size : {V : Type 0} → Column V → ℕ
  size (column d info) = suc (size_below d)

  pub size_below : {V : Type 0} → DataType V → ℕ
  size_below (DataType.list item) = size item
  size_below (DataType.struct fields) = size_fields fields
  size_below (DataType.map key value) = size key + size value
  size_below _ = 0

  pub size_fields : {V : Type 0} → Columns V → ℕ
  size_fields nil = 0
  size_fields (cons field fields) = size field + size_fields fields

-- A column that stands at the index `n`, and those below it.
unfoldable mutual
  unfolding size

  pub flat : {V : Type 0} → ℕ → Option ℕ → Column V → List (FlattenedColumn V)
  flat n up (column d info) =
      record { column = column d info; parent_index = up } ∷ flat_below n (suc n) d

  pub flat_below : {V : Type 0} → ℕ → ℕ → DataType V → List (FlattenedColumn V)
  flat_below p n (DataType.list item) = flat n (some p) item
  flat_below p n (DataType.struct fields) = flat_fields p n fields
  flat_below p n (DataType.map key value) =
      flat n (some p) key ++ flat (n + size key) (some p) value
  flat_below p n _ = []

  pub flat_fields : {V : Type 0} → ℕ → ℕ → Columns V → List (FlattenedColumn V)
  flat_fields p n nil = []
  flat_fields p n (cons field fields) =
      flat n (some p) field ++ flat_fields p (n + size field) fields

mutual
  unfolding size flat

  pub length-flat :
      {V : Type 0} (n : ℕ) (up : Option ℕ) (c : Column V) → length (flat n up c) ≡ size c
  length-flat n up (column d info) = ap suc (length-flat_below n (suc n) d)

  pub length-flat_below :
      {V : Type 0} (p n : ℕ) (d : DataType V) → length (flat_below p n d) ≡ size_below d
  length-flat_below p n (DataType.list item) = length-flat n (some p) item
  length-flat_below p n (DataType.struct fields) = length-flat_fields p n fields
  length-flat_below p n (DataType.map key value) = omega (
    arith,
    length-append {0} (flat n (some p) key) (flat (n + size key) (some p) value),
    length-flat n (some p) key,
    length-flat (n + size key) (some p) value,
  )
  length-flat_below p n _ = refl

  pub length-flat_fields :
      {V : Type 0} (p n : ℕ) (fields : Columns V)
      → length (flat_fields p n fields) ≡ size_fields fields
  length-flat_fields p n nil = refl
  length-flat_fields p n (cons field fields) = omega (
    arith,
    length-append {0} (flat n (some p) field) (flat_fields p (n + size field) fields),
    length-flat n (some p) field,
    length-flat_fields p (n + size field) fields,
  )

length-append_flat :
    {V : Type 0} (acc : List (FlattenedColumn V)) (up : Option ℕ) (c : Column V)
    → length (acc ++ flat (length acc) up c) ≡ length acc + size c
length-append_flat acc up c =
    omega (arith, length-append {0} acc (flat (length acc) up c), length-flat (length acc) up c)

mutual
  unfolding flatten_into flat size

  pub flatten_into-flat :
      {V : Type 0} (c : Column V) (up : Option ℕ) (acc : List (FlattenedColumn V))
      → flatten_into c up acc ≡ acc ++ flat (length acc) up c
  flatten_into-flat (column d info) up acc =
      let node : FlattenedColumn _ = record { column = column d info; parent_index = up } in
      flatten_children-flat d (length acc) (acc ++ (node ∷ []))
      ∙ ap (λ n. (acc ++ (node ∷ [])) ++ flat_below (length acc) n d)
          (omega (arith, length-append {0} acc (node ∷ [])))
      ∙ append_assoc acc (node ∷ []) (flat_below (length acc) (suc (length acc)) d)

  flatten_children-flat :
      {V : Type 0} (d : DataType V) (p : ℕ) (acc : List (FlattenedColumn V))
      → flatten_children d p acc ≡ acc ++ flat_below p (length acc) d
  flatten_children-flat (DataType.list item) p acc = flatten_into-flat item (some p) acc
  flatten_children-flat (DataType.struct fields) p acc = flatten_fields-flat fields p acc
  flatten_children-flat (DataType.map key value) p acc =
      ap (flatten_into value (some p)) (flatten_into-flat key (some p) acc)
      ∙ flatten_into-flat value (some p) (acc ++ flat (length acc) (some p) key)
      ∙ append_assoc acc (flat (length acc) (some p) key) _
      ∙ ap (λ n. acc ++ (flat (length acc) (some p) key ++ flat n (some p) value))
          (length-append_flat acc (some p) key)
  flatten_children-flat _ p acc = sym (append-nil acc)

  flatten_fields-flat :
      {V : Type 0} (fields : Columns V) (p : ℕ) (acc : List (FlattenedColumn V))
      → flatten_fields fields p acc ≡ acc ++ flat_fields p (length acc) fields
  flatten_fields-flat nil p acc = sym (append-nil acc)
  flatten_fields-flat (cons field fields) p acc =
      ap (flatten_fields fields p) (flatten_into-flat field (some p) acc)
      ∙ flatten_fields-flat fields p (acc ++ flat (length acc) (some p) field)
      ∙ append_assoc acc (flat (length acc) (some p) field) _
      ∙ ap (λ n. acc ++ (flat (length acc) (some p) field ++ flat_fields p n fields))
          (length-append_flat acc (some p) field)

pub flatten-flat : {V : Type 0} (c : Column V) → flatten c ≡ flat 0 none c
unfolding flatten
flatten-flat c = flatten_into-flat c none []
