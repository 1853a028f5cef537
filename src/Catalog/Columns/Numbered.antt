-- ===== src/Catalog/Columns/Numbered.antt =====
-- The IDs that new columns get from the counter of crates/ducklake/src/catalog/typedefs/columns.rs,
-- and what else the adding of a column leaves behind.
use ducklake_sdk.Common.{
  ℕ, zero, suc, ◌+◌, ◌≡◌, ◌≢◌, refl, sym, ap, ◌∙◌, true, List, [], ◌++◌, some, append_assoc,
  append-nil, Distinct, arith, list_eq, nat_eq,
}
use ducklake_sdk.Common.Dict.{is_some}
use ducklake_sdk.Common.Int.{ℤ, pos, add_i64}
use ducklake_sdk.Typedefs.Schema.{DataType, Column, column, Columns, nil, cons}
use ducklake_sdk.Catalog.Arena.{find}
use ducklake_sdk.Catalog.Entities.{CatalogColumns, CatalogColumn}
use ducklake_sdk.Catalog.Columns.{field_names}
use ducklake_sdk.Catalog.Columns.Flat.{size}

-- The counter after `n` more columns.
abbrev pub id_after : ℤ → ℕ → ℤ
id_after id zero = id
id_after id (suc n) = id_after (add_i64 id (pos 1)) n

pub id_after-add : (id : ℤ) (n m : ℕ) → id_after (id_after id n) m ≡ id_after id (n + m)
id_after-add id zero m = let e : m ≡ 0 + m = omega arith in ap (id_after id) e
id_after-add id (suc n) m =
    let e : suc (n + m) ≡ suc n + m = omega arith in
    id_after-add (add_i64 id (pos 1)) n m ∙ ap (id_after id) e

-- A column with IDs from `id` on: first its own, then those below it, in order.
unfoldable mutual
  unfolding size

  pub number : {V : Type 0} → ℤ → Column V → Column V
  number id (column d info) =
      column (number_below (add_i64 id (pos 1)) d) (record info { field_id = some id })

  pub number_below : {V : Type 0} → ℤ → DataType V → DataType V
  number_below id (DataType.list item) = DataType.list (number id item)
  number_below id (DataType.struct fields) = DataType.struct (number_fields id fields)
  number_below id (DataType.map key value) =
      DataType.map (number id key) (number (id_after id (size key)) value)
  number_below id d = d

  pub number_fields : {V : Type 0} → ℤ → Columns V → Columns V
  number_fields id nil = nil
  number_fields id (cons field fields) =
      cons (number id field) (number_fields (id_after id (size field)) fields)

-- Every struct has fields, with different names.
unfoldable mutual
  pub IsWellFormed : {V : Type 0} → Column V → Type 0
  IsWellFormed (column d info) = IsWellFormedBelow d

  pub IsWellFormedBelow : {V : Type 0} → DataType V → Type 0
  IsWellFormedBelow (DataType.list item) = IsWellFormed item
  IsWellFormedBelow (DataType.struct fields) =
      (fields ≢ nil) × Distinct (field_names fields) × AreWellFormed fields
  IsWellFormedBelow (DataType.map key value) = IsWellFormed key × IsWellFormed value
  IsWellFormedBelow _ = Unit {0}

  pub AreWellFormed : {V : Type 0} → Columns V → Type 0
  AreWellFormed nil = Unit {0}
  AreWellFormed (cons field fields) = IsWellFormed field × AreWellFormed fields

-- `n` columns have been added to `c`, with IDs from `id` on.
pub record Grown {V : Type 0} (c g : CatalogColumns V) (n : ℕ) (id : ℤ) : Type 0 where
  pub next : g.next_column_id ≡ some (id_after id n)
  pub more : List (CatalogColumn V)
  pub grown : g.arena ≡ c.arena ++ more
  pub roots : g.root_columns ≡ c.root_columns
  pub kept : (i : ℤ) → is_some (find c.by_id i) ≡ true → is_some (find g.by_id i) ≡ true

module _ {V : Type 0} where
  pub Grown-refl : (c : CatalogColumns V) (id : ℤ) → c.next_column_id ≡ some id → Grown c c 0 id
  Grown-refl c id h = record {
    next = h;
    more = [];
    grown = sym (append-nil c.arena);
    roots = refl;
    kept = λ i k. k;
  }

  pub Grown-trans :
      (c t g : CatalogColumns V) (n m : ℕ) (id : ℤ)
      → Grown c t n id
      → Grown t g m (id_after id n)
      → Grown c g (n + m) id
  Grown-trans c t g n m id a b = record {
    next = b.next ∙ ap some (id_after-add id n m);
    more = a.more ++ b.more;
    grown = b.grown ∙ ap (λ l. l ++ b.more) a.grown ∙ append_assoc c.arena a.more b.more;
    roots = b.roots ∙ a.roots;
    kept = λ i k. b.kept i (a.kept i k);
  }
