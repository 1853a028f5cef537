-- ===== src/Catalog/Columns/RoundTrip.antt =====
-- `CatalogColumns::from_schema` and `Schema::from(&CatalogColumns)` of
-- crates/ducklake/src/catalog/typedefs/columns.rs: a new schema is read back.
use ducklake_sdk.Common.{
  ℕ, zero, suc, ◌≡◌, refl, sym, ap, ◌∙◌, subst, inl, inr, true, false, Bool-cases, List, [], ◌∷◌,
  ◌++◌, map, Option, none, some, length, length-append, append_assoc, append-nil, Elem, Distinct,
  arith, list_eq, nat_eq, if◌then◌else◌,
}
use ducklake_sdk.Common.Dict
use ducklake_sdk.Common.Dict.{is_some, insert_fresh}
use ducklake_sdk.Common.Unique.{contains, contains_iff}
use ducklake_sdk.Common.Int.{ℤ, pos}
use ducklake_sdk.Common.Text.{Text}
use ducklake_sdk.Common.Error.{ok, ◌>>=◌, >>=-ok, >>=-through, ok_inj}
use ducklake_sdk.Typedefs.Schema.{Column, column}
use ducklake_sdk.Catalog.Arena.{find}
use ducklake_sdk.Catalog.Entities.{ArenaIdx, CatalogColumns, CatalogColumn}
use ducklake_sdk.Catalog.Columns.{name_of, column_of, values}
use ducklake_sdk.Catalog.Columns.Add.{add_roots, from_schema, add_column_to_arena}
use ducklake_sdk.Catalog.Columns.ToSchema.{
  schema_dtype, with_dtype, schema_column_from_arena_index, existing_columns, try_schema, or_panic,
  to_schema,
}
use ducklake_sdk.Catalog.Columns.Flat.{size}
use ducklake_sdk.Catalog.Columns.Reference.{length-place}
use ducklake_sdk.Catalog.Columns.Equivalence.{add_column_to_arena-place}
use ducklake_sdk.Catalog.Columns.Numbered.{id_after, number, IsWellFormed}
use ducklake_sdk.Catalog.Columns.Grow.{Fresh, Fresh-insert}
use ducklake_sdk.Catalog.Columns.Readback.{Added, added}

module _ {V : Type 0} where
  -- Columns with IDs from `id` on: each column, what is below it, and then the next column.
  unfoldable pub number_all : ℤ → List (Column V) → List (Column V)
  unfolding number size
  number_all id [] = []
  number_all id (col ∷ columns) = number id col ∷ number_all (id_after id (size col)) columns

  abbrev pub names_of : List (Column V) → List Text
  names_of = map name_of

  unfoldable pub AllWellFormed : List (Column V) → Type 0
  unfolding IsWellFormed
  AllWellFormed [] = Unit {0}
  AllWellFormed (col ∷ columns) = IsWellFormed col × AllWellFormed columns

  names_of-number_all :
      (id : ℤ) (columns : List (Column V)) → names_of (number_all id columns) ≡ names_of columns
  unfolding number size number_all
  names_of-number_all id [] = refl
  names_of-number_all id (column d info ∷ columns) =
      ap (◌∷◌ info.name) (names_of-number_all (id_after id (size (column d info))) columns)

  -- Different names, none of them seen, pass.
  try_schema-Distinct :
      (seen : List Text) (columns : List (Column V))
      → Distinct (names_of columns)
      → ((k : Text) → Elem k (names_of columns) → ¬ Elem k seen)
      → try_schema seen columns ≡ ok columns
  unfolding try_schema
  try_schema-Distinct seen [] d f = refl
  try_schema-Distinct seen (col ∷ columns) (n, d) f =
      let rest = try_schema-Distinct (name_of col ∷ seen) columns d (unseen n) in
      elim (Bool-cases (contains seen (name_of col))) [
        | inl t ↦ absurd (f (name_of col) (inl refl) ((contains_iff seen (name_of col)).0 t))
        | inr t ↦ rw (t, rest) refl
      ]
    where
      unseen :
          ¬ Elem (name_of col) (names_of columns)
          → (k : Text) → Elem k (names_of columns)
          → ¬ Elem k (name_of col ∷ seen)
      unseen n k i (inl e) = n (subst (λ t. Elem t (names_of columns)) e i)
      unseen n k i (inr e) = f k (inr i) e

  abbrev id_of : Column V → Option ℤ
  id_of (column d info) = info.field_id

  id_of-number : (id : ℤ) (col : Column V) → id_of (number id col) ≡ some id
  unfolding number
  id_of-number id (column d info) = refl

  -- A column that is read is in the arena, with the ID that is read.
  column_of-read :
      (fuel : ℕ) (h : CatalogColumns V) (idx : ArenaIdx) (id : ℤ) (col : Column V)
      → schema_column_from_arena_index fuel h idx ≡ ok (number id col)
      → (node : CatalogColumn V) × (column_of h idx ≡ ok node) × (node.id ≡ id)
  unfolding schema_column_from_arena_index
  column_of-read zero h idx id col e = cc
  column_of-read (suc fuel) h idx id col e =
      let (node, a, b) = >>=-ok (column_of h idx) _ (number id col) e in
      let (dtype, a', b') =
        >>=-ok (schema_dtype (schema_column_from_arena_index fuel h) node.dtype) _ (number id col)
          b in
      let s : some node.id ≡ some id =
        ap id_of (ok_inj (with_dtype node dtype) (number id col) b') ∙ id_of-number id col in
      (node, a, cc)

  -- A root column that is read is among the existing columns.
  existing_columns-read :
      (h : CatalogColumns V) (idx : ArenaIdx) (idxs : List ArenaIdx) (id : ℤ) (col : Column V)
      (rest : List (Column V))
      → schema_column_from_arena_index (suc (length h.arena)) h idx ≡ ok (number id col)
      → is_some (find h.by_id id) ≡ true
      → existing_columns h idxs ≡ ok rest
      → existing_columns h (idx ∷ idxs) ≡ ok (number id col ∷ rest)
  unfolding existing_columns
  existing_columns-read h idx idxs id col rest r f k =
      let (node, a, b) = column_of-read (suc (length h.arena)) h idx id col r in
      let found : is_some (find h.by_id node.id) ≡ true =
        ap (λ i. is_some (find h.by_id i)) b ∙ f in
      >>=-through (column_of h idx) _ node _ a (
        >>=-through (existing_columns h idxs) _ rest _ k (
          ap
            (λ t.
              if t
              then (schema_column_from_arena_index (suc (length h.arena)) h idx >>= λ read.
                  ok (read ∷ rest))
              else ok rest)
            found
          ∙ ap (λ z. z >>= λ read. ok (read ∷ rest)) r))

  -- `columns` have been added as root columns, and are read.
  record Rooted (columns : List (Column V)) (c : CatalogColumns V) (id : ℤ) : Type 0 where
    final : CatalogColumns V
    placed : add_roots false columns c ≡ ok final
    more : List (CatalogColumn V)
    grown : final.arena ≡ c.arena ++ more
    kept : (i : ℤ) → is_some (find c.by_id i) ≡ true → is_some (find final.by_id i) ≡ true
    entries : List (Text × ArenaIdx)
    roots : final.root_columns ≡ c.root_columns ++ entries
    reads : existing_columns final (values entries) ≡ ok (number_all id columns)

  abbrev with_root : Column V → CatalogColumns V → ArenaIdx → CatalogColumns V
  with_root col g idx = record g { root_columns = Dict.insert g.root_columns (name_of col) idx }

  Rooted-one :
      (col : Column V) (columns : List (Column V)) (c : CatalogColumns V) (id : ℤ)
      → Dict.get c.root_columns (name_of col) ≡ none
      → (a : Added none col c id)
      → Rooted columns (with_root col a.final (length c.arena)) (id_after id (size col))
      → Rooted (col ∷ columns) c id
  unfolding add_roots existing_columns number_all
  Rooted-one col columns c id fresh a r =
      let t = with_root col a.final (length c.arena) in
      let idxs : List ArenaIdx = length c.arena ∷ a.idxs in
      record {
        final = r.final;
        placed =
            >>=-through (add_column_to_arena col none false c) _ (idxs, a.final) _
              (add_column_to_arena-place col none false c ∙ a.placed) r.placed;
        more = a.grown.more ++ r.more;
        grown =
            r.grown
            ∙ ap (λ l. l ++ r.more) a.grown.grown
            ∙ append_assoc c.arena a.grown.more r.more;
        kept = λ i k. r.kept i (a.grown.kept i k);
        entries = (name_of col, length c.arena) ∷ r.entries;
        roots =
            r.roots
            ∙ ap (λ m. Dict.insert m (name_of col) (length c.arena) ++ r.entries) a.grown.roots
            ∙ ap (λ l. l ++ r.entries)
                (insert_fresh c.root_columns (name_of col) (length c.arena) fresh)
            ∙ append_assoc c.root_columns ((name_of col, length c.arena) ∷ []) r.entries;
        reads =
            existing_columns-read r.final (length c.arena) (values r.entries) id col
              (number_all (id_after id (size col)) columns)
              (a.reads r.final r.more (suc (length r.final.arena)) r.grown (
                omega (
                  arith,
                  length-place false none col c a.final idxs a.placed,
                  ap length r.grown,
                  length-append {0} a.final.arena r.more,
                )))
              (r.kept id a.found) r.reads;
      }

  rooted :
      (columns : List (Column V)) (c : CatalogColumns V) (id : ℤ)
      → c.next_column_id ≡ some id
      → AllWellFormed columns
      → Distinct (names_of columns)
      → Fresh c.root_columns (names_of columns)
      → Rooted columns c id
  unfolding add_roots existing_columns number_all AllWellFormed
  rooted [] c id h w d f = record {
    final = c;
    placed = refl;
    more = [];
    grown = sym (append-nil c.arena);
    kept = λ i k. k;
    entries = [];
    roots = sym (append-nil c.root_columns);
    reads = refl;
  }
  rooted (col ∷ columns) c id h (w, ws) (n, d) f =
      let a = added none col c id h w in
      Rooted-one col columns c id (f (name_of col) (inl refl)) a (
        rooted columns (with_root col a.final (length c.arena)) (id_after id (size col))
          a.grown.next ws d
          (Fresh-insert a.final.root_columns (name_of col) (length c.arena) (names_of columns) n
            (λ k i. ap (λ m. Dict.get m k) a.grown.roots ∙ f k (inr i))))

  -- The columns of a new table, with different names on each level and no empty struct, are read back
  -- from its catalog as they were given, numbered from 1 in the order of a walk from each column to
  -- the columns below it. No step panics.
  pub to_schema-from_schema :
      (columns : List (Column V))
      → AllWellFormed columns
      → Distinct (names_of columns)
      → (from_schema columns none >>= to_schema) ≡ ok (number_all (pos 1) columns)
  unfolding from_schema to_schema
  to_schema-from_schema columns w d =
      let r =
        rooted columns
          (record { arena = []; by_id = []; root_columns = []; next_column_id = some (pos 1) })
          (pos 1) refl w d (λ k i. unfold Dict.get in refl) in
      let names = names_of-number_all (pos 1) columns in
      let unique =
        try_schema-Distinct [] (number_all (pos 1) columns) (subst Distinct (sym names) d)
          (λ k i e. e) in
      >>=-through (from_schema columns none) _ r.final _ r.placed (
        >>=-through (existing_columns r.final (values r.final.root_columns)) _
          (number_all (pos 1) columns) _
          (ap (λ m. existing_columns r.final (values m)) r.roots ∙ r.reads) (ap or_panic unique))
