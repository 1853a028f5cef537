-- ===== src/Catalog/Operations/Named/Add.antt =====
-- Adding tables, views and macros (crates/ducklake/src/catalog/mod.rs) keeps the names of the catalog
-- leading to entities of those names.
use ducklake_sdk.Common.{
  ◌≡◌, refl, sym, ◌∙◌, subst, inl, inr, Option, none, some, list_eq, nat_eq, pair_eq,
}
use ducklake_sdk.Common.Dict
use ducklake_sdk.Common.Dict.{insert-cases, remove-cases}
use ducklake_sdk.Common.Run.{Run, return, look, ◌>>=◌, ◌>>◌, keeps_bind}
use ducklake_sdk.Common.Int.{ℤ}
use ducklake_sdk.Common.Text.{Text}
use ducklake_sdk.Common.Error.{ok, err, DucklakeError, transpose, Result-split}
use ducklake_sdk.Typedefs.Layout.{DucklakePath, macro_type_eq}
use ducklake_sdk.Catalog.Arena
use ducklake_sdk.Catalog.Arena.{get, push-cases, set_entity-cases}
use ducklake_sdk.Catalog.Entities.{
  Catalog, ArenaIdx, CatalogSchema, CatalogTable, CatalogView, CatalogMacro,
}
use ducklake_sdk.Catalog.Lookup.{
  to_ascii_lowercase, schema_ref, inner_table, inner_view, inner_macro, table_ref, view_ref,
  macro_ref,
}
use ducklake_sdk.Catalog.Operations.{
  write_schema, push_table, push_view, push_macro, add_view, ViewInfo, add_macro, MacroInfo,
  add_table, TableInfo,
}
use ducklake_sdk.Catalog.Operations.Named.{Stands, IsNamed, Stands-pushed, qualified, macro_key}
use ducklake_sdk.Catalog.Layout.{from_partition, from_sort_info}
use ducklake_sdk.Catalog.Columns.{root_column_indices}
use ducklake_sdk.Catalog.Columns.Add.{from_schema}
use ducklake_sdk.Catalog.Operations.Named.Found.{
  schema_ref-found, table_ref-absent, view_ref-absent,
}
use ducklake_sdk.Catalog.Operations.Named.Entries.{
  pushed_table, pushed_view, pushed_macro, pushed_table-IsNamed, pushed_view-IsNamed,
  pushed_macro-IsNamed, Holds-insert_table, Holds-insert_view, Holds-insert_macro,
  write_schema-IsNamed,
}

-- The state behind a result.
keeps_return :
    {S A : Type 0} (P : S → Type 0) (m : Run S (Unit {0})) (a : A) (s : S)
    → P ((m s).1)
    → P (((m >> return a) s).1)
keeps_return P m a s p = keeps_bind P m (λ u. return a) s p (λ u t q r. r)

module _ {V : Type 0} where
  -- The schema that a name leads to has that name.
  schema_ref-name :
      (n : Text) (c : Catalog V) (j : ArenaIdx) (s : CatalogSchema)
      → schema_ref c n ≡ ok j
      → get c.schema_arena j ≡ some s
      → IsNamed c
      → s.name ≡ n
  schema_ref-name n c j s g k h =
      let (u, a, b) = h.schemas n j (schema_ref-found c n j g) in
      let same : some s ≡ some u = sym k ∙ a in cc

  -- A view that is new to its schema.
  new_view :
      (v : CatalogView) (c : Catalog V) (j i : ArenaIdx)
      → schema_ref c v.name.schema ≡ ok j
      → Stands c.view_arena (λ t. t.name) i v.name
      → ((s : CatalogSchema) → get c.schema_arena j ≡ some s → Dict.get s.tables v.name.name ≡ none)
      → IsNamed c
      → IsNamed ((write_schema j (λ s. record s { views = Dict.insert s.views v.name.name i }) c).1)
  new_view v c j i g st free h =
      write_schema-IsNamed j (λ s. record s { views = Dict.insert s.views v.name.name i }) c
        (λ s k. (
          refl,
          Holds-insert_view c s v.name.name i
              (subst (λ n. Stands c.view_arena (λ t. t.name) i (qualified n v.name.name))
                (sym (schema_ref-name v.name.schema c j s g k h)) st)
              (free s k) (h.holds v.name.schema j s (schema_ref-found c v.name.schema j g) k),
        ))
        h

  pub add_view-IsNamed :
      (info : ViewInfo) (c : Catalog V) → IsNamed c → IsNamed ((add_view info c).1)
  unfolding add_view push_view
  add_view-IsNamed info c h =
      let v : CatalogView = record {
        id = none;
        name = info.name;
        sql = info.sql;
        dialect = info.dialect;
        column_aliases = info.column_aliases;
        tags = info.tags;
      } in
      let d = pushed_view v c in
      let hd = pushed_view-IsNamed v c h in
      elim (Result-split (view_ref c info.name)) [
        | inl (i, e) ↦ elim (Result-split (inner_view c i)) [
          | inl (w, f) ↦ rw (e, f) h
          | inr (x, f) ↦ rw (e, f) h
        ]
        | inr (x, e) ↦ elim (Result-split (table_ref c info.name)) [
          | inl (i, f) ↦ elim (Result-split (inner_table c i)) [
            | inl (w, g) ↦ rw (e, f, g) h
            | inr (x, g) ↦ rw (e, f, g) h
          ]
          | inr (y, f) ↦ elim (Result-split (schema_ref d info.name.schema)) [
            | inl (j, g) ↦
                rw (e, f, g)
                  (keeps_return IsNamed
                    (write_schema j (λ s. record s {
                      views =
                          Dict.insert s.views info.name.name ((Arena.push c.view_arena v none).1);
                    }))
                    (j, (Arena.push c.view_arena v none).1) d
                    (new_view v d j ((Arena.push c.view_arena v none).1) g
                      (Stands-pushed c.view_arena v (λ t. t.name))
                      (λ s k.
                        table_ref-absent c info.name y j s f
                          (schema_ref-found d info.name.schema j g) k)
                      hd))
            | inr (x, g) ↦ rw (e, f, g) hd
          ]
        ]
      ]

  -- A macro of a schema.
  new_macro :
      (m : CatalogMacro) (c : Catalog V) (j i : ArenaIdx)
      → schema_ref c m.name.schema ≡ ok j
      → Stands c.macro_arena macro_key i (macro_key m)
      → IsNamed c
      → IsNamed (
          (write_schema j
            (λ s. record s {
              macros = Dict.insert s.macros (to_ascii_lowercase m.name.name, m.macro_type) i;
            })
            c).1)
  new_macro m c j i g st h =
      write_schema-IsNamed j
        (λ s. record s {
          macros = Dict.insert s.macros (to_ascii_lowercase m.name.name, m.macro_type) i;
        })
        c
        (λ s k. (
          refl,
          Holds-insert_macro c s (to_ascii_lowercase m.name.name, m.macro_type) i
              (subst
                (λ n.
                  Stands c.macro_arena macro_key i
                    (n, to_ascii_lowercase m.name.name, m.macro_type))
                (sym (schema_ref-name m.name.schema c j s g k h)) st)
              (h.holds m.name.schema j s (schema_ref-found c m.name.schema j g) k),
        ))
        h

  pub add_macro-IsNamed :
      (info : MacroInfo) (c : Catalog V) → IsNamed c → IsNamed ((add_macro info c).1)
  unfolding add_macro push_macro
  add_macro-IsNamed info c h =
      let m : CatalogMacro = record {
        id = none;
        name = info.name;
        macro_type = info.macro_type;
        implementations = info.implementations;
      } in
      let d = pushed_macro m c in
      let hd = pushed_macro-IsNamed m c h in
      let i = (Arena.push c.macro_arena m none).1 in
      elim (Result-split (macro_ref c info.name info.macro_type)) [
        | inl (i, e) ↦ elim (Result-split (inner_macro c i)) [
          | inl (w, f) ↦ rw (e, f) h
          | inr (x, f) ↦ rw (e, f) h
        ]
        | inr (x, e) ↦ elim (Result-split (schema_ref d info.name.schema)) [
          | inl (j, g) ↦
              rw (e, g)
                (keeps_return IsNamed
                  (write_schema j (λ s. record s {
                    macros =
                        Dict.insert s.macros (to_ascii_lowercase info.name.name, info.macro_type) i;
                  }))
                  (j, i) d (new_macro m d j i g (Stands-pushed c.macro_arena m macro_key) hd))
          | inr (x, g) ↦ rw (e, g) hd
        ]
      ]

  -- A table that is new to its schema.
  new_table :
      (v : CatalogTable V) (c : Catalog V) (j i : ArenaIdx)
      → schema_ref c v.name.schema ≡ ok j
      → Stands c.table_arena (λ t. t.name) i v.name
      → ((s : CatalogSchema) → get c.schema_arena j ≡ some s → Dict.get s.views v.name.name ≡ none)
      → IsNamed c
      → IsNamed
          ((write_schema j (λ s. record s { tables = Dict.insert s.tables v.name.name i }) c).1)
  new_table v c j i g st free h =
      write_schema-IsNamed j (λ s. record s { tables = Dict.insert s.tables v.name.name i }) c
        (λ s k. (
          refl,
          Holds-insert_table c s v.name.name i
              (subst (λ n. Stands c.table_arena (λ t. t.name) i (qualified n v.name.name))
                (sym (schema_ref-name v.name.schema c j s g k h)) st)
              (free s k) (h.holds v.name.schema j s (schema_ref-found c v.name.schema j g) k),
        ))
        h

  -- A table that has been pushed gets its entry, where there is its schema.
  placed_table :
      {A : Type 0} (t : CatalogTable V) (c : Catalog V) (result : ArenaIdx → A) (y : DucklakeError)
      → view_ref c t.name ≡ err y
      → IsNamed c
      → IsNamed (
          ((look (λ c. schema_ref c t.name.schema) >>= λ j.
          write_schema j (λ s. record s {
            tables = Dict.insert s.tables t.name.name ((Arena.push c.table_arena t none).1);
          })
          >> return (result j))
            (pushed_table t c)).1)
  placed_table t c result y f h =
      let d = pushed_table t c in
      let hd = pushed_table-IsNamed t c h in
      let i = (Arena.push c.table_arena t none).1 in
      elim (Result-split (schema_ref d t.name.schema)) [
        | inl (j, g) ↦ rw g (
            keeps_return IsNamed
              (write_schema j (λ s. record s { tables = Dict.insert s.tables t.name.name i }))
              (result j) d
              (new_table t d j i g (Stands-pushed c.table_arena t (λ t. t.name))
                (λ s k. view_ref-absent c t.name y j s f (schema_ref-found d t.name.schema j g) k)
                hd))
        | inr (x, g) ↦ rw g hd
      ]

  pub add_table-IsNamed :
      (info : TableInfo V) (path : DucklakePath) (next : Option ℤ) (c : Catalog V)
      → IsNamed c
      → IsNamed ((add_table info path next c).1)
  unfolding add_table push_table
  add_table-IsNamed info path next c h = elim (Result-split (table_ref c info.name)) [
    | inl (i, e) ↦ elim (Result-split (inner_table c i)) [
      | inl (w, f) ↦ rw (e, f) h
      | inr (x, f) ↦ rw (e, f) h
    ]
    | inr (x, e) ↦ elim (Result-split (view_ref c info.name)) [
      | inl (i, f) ↦ elim (Result-split (inner_view c i)) [
        | inl (w, g) ↦ rw (e, f, g) h
        | inr (x, g) ↦ rw (e, f, g) h
      ]
      | inr (y, f) ↦ elim (Result-split (from_schema info.schema next)) [
        | inr (x, a) ↦ rw (e, f, a) h
        | inl (columns, a) ↦
            elim (Result-split (transpose (from_partition columns) info.partitioning)) [
              | inr (x, b) ↦ rw (e, f, a, b) h
              | inl (partition, b) ↦
                  elim (Result-split (transpose (from_sort_info columns) info.sort_info)) [
                    | inr (x, k) ↦ rw (e, f, a, b, k) h
                    | inl (sort_info, k) ↦ elim (Result-split (root_column_indices columns)) [
                      | inr (x, l) ↦ rw (e, f, a, b, k, l) h
                      | inl (idxs, l) ↦
                          rw (e, f, a, b, k, l)
                            (placed_table
                              (record {
                                id = none;
                                name = info.name;
                                columns = columns;
                                partition = partition;
                                sort_info = sort_info;
                                tags = info.tags;
                                path = path;
                              })
                              c _ y f h)
                    ]
                  ]
            ]
      ]
    ]
  ]
