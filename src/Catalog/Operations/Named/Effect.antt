-- ===== src/Catalog/Operations/Named/Effect.antt =====
-- Deleting and renaming a table (crates/ducklake/src/catalog/views/table.rs), and what its name, the new name
-- and the other names lead to then.
use ducklake_sdk.Common.{
  ◌≡◌, refl, sym, ap, ◌∙◌, subst, inl, inr, Bool, true, false, Bool-cases, ◌&&◌, Option, none, some,
  if◌then◌else◌, list_beq, list_beq_iff, list_eq, nat_eq,
}
use ducklake_sdk.Common.Dict
use ducklake_sdk.Common.Dict.{is_some, get-remove, get-insert}
use ducklake_sdk.Common.Text.{Text, codes}
use ducklake_sdk.Common.Error.{Result, DucklakeError, ok, err, ok_or, not_found}
use ducklake_sdk.Typedefs.Names.{QualifiedName, qualified_name_beq, display_qualified_name}
use ducklake_sdk.Catalog.Arena
use ducklake_sdk.Catalog.Arena.{get, get-set_entity}
use ducklake_sdk.Catalog.Entities.{Catalog, ArenaIdx, CatalogSchema, CatalogTable}
use ducklake_sdk.Catalog.Lookup.{
  set_schema, set_table, schema_ref, inner_schema, inner_table, table_ref, view_ref,
}
use ducklake_sdk.Catalog.Operations.{write_schema, remove_table, rename}
use ducklake_sdk.Catalog.Operations.Named.{Stands, IsNamed, qualified}
use ducklake_sdk.Catalog.Operations.Named.Found.{
  schema_ref-there, inner_schema-there, inner_table-there, table_ref-entry, table_ref-found,
  table_ref-absent, view_ref-absent,
}
use ducklake_sdk.Catalog.Operations.Named.Rename.{
  Placed, table_ref-Placed, Stands-written, renamed_schema, renamed, renamed_table,
}
use ducklake_sdk.Catalog.Operations.Named.Lookup.{
  no_table, table_ref-set_schema, view_ref-set_schema, same_views, table_ref-set_table,
  view_ref-set_table,
}

-- An entry among others, in a schema or in another.
entry_if :
    {A : Type 0} (b e : Bool) (i : A) (o : Option A) (x : DucklakeError) (t r : Result A)
    → (if b then ok_or o x else t) ≡ r
    → (if b then ok_or (if e then some i else o) x else t) ≡ (if b && e then ok i else r)
entry_if true true i o x t r h = refl
entry_if true false i o x t r h = h
entry_if false true i o x t r h = h
entry_if false false i o x t r h = h

module _ {V : Type 0} where
  -- A table that a name leads to, in its schema.
  record Here (c : Catalog V) (n : QualifiedName) (i : ArenaIdx) : Type 0 where
    table : CatalogTable V
    at : ArenaIdx
    schema : CatalogSchema
    placed : Placed c at schema i table
    named : table.name ≡ n
    reads : inner_table c i ≡ ok table
    leads : schema_ref c table.name.schema ≡ ok at
    inner : inner_schema c at ≡ ok schema

  here :
      (c : Catalog V) (n : QualifiedName) (i : ArenaIdx)
      → IsNamed c
      → table_ref c n ≡ ok i
      → Here c n i
  here c n i h r =
      let (j', s', a, b, e') = table_ref-found c n i r in
      let (t, g, name) = (h.holds n.schema j' s' a b).tables n.name i e' in
      let (j, s, p, e) = table_ref-Placed c n i t h r g in
      record {
        table = t;
        at = j;
        schema = s;
        placed = p;
        named = e;
        reads = inner_table-there c i t g;
        leads =
            ap (λ (m : QualifiedName). schema_ref c m.schema) p.named
            ∙ schema_ref-there c s.name j p.live;
        inner = inner_schema-there c j s p.schema;
      }

  -- The entries of a schema without one of them.
  without_entry :
      (c : Catalog V) (n m : QualifiedName) (i : ArenaIdx) (w : Here c n i)
      → (if list_beq w.schema.name m.schema
          then ok_or
              (Dict.get (Dict.remove w.schema.tables w.table.name.name) m.name)
              (not_found (codes "table") (display_qualified_name m))
          else table_ref c m)
        ≡ (if qualified_name_beq n m then no_table m else table_ref c m)
  without_entry c n m i w =
      let p = w.placed in
      let same : w.schema.name ≡ n.schema = ap (λ k. k.schema) (sym p.named ∙ w.named) in
      elim (Bool-cases (list_beq n.schema m.schema)) [
        | inr b ↦ rw (same, b) refl
        | inl b ↦ elim (Bool-cases (list_beq n.name m.name)) [
          | inl d ↦
              rw (same, b, d)
                (ap (λ o. ok_or o (not_found (codes "table") (display_qualified_name m)))
                  (removed w d))
          | inr d ↦
              rw (same, b, d)
                (ap (λ o. ok_or o (not_found (codes "table") (display_qualified_name m))) (kept w d)
                  ∙ sym (table_ref-entry c m w.at w.schema (live w b) p.schema))
        ]
      ]
    where
      removed :
          {n : QualifiedName} (w : Here c n i)
          → list_beq n.name m.name ≡ true
          → Dict.get (Dict.remove w.schema.tables w.table.name.name) m.name ≡ none
      removed {n} w d =
          get-remove w.schema.tables w.table.name.name m.name
          ∙ ap (λ z. if z then none else Dict.get w.schema.tables m.name)
              (ap (λ (k : QualifiedName). list_beq k.name m.name) w.named ∙ d)

      kept :
          {n : QualifiedName} (w : Here c n i)
          → list_beq n.name m.name ≡ false
          → Dict.get (Dict.remove w.schema.tables w.table.name.name) m.name
            ≡ Dict.get w.schema.tables m.name
      kept {n} w d =
          get-remove w.schema.tables w.table.name.name m.name
          ∙ ap (λ z. if z then none else Dict.get w.schema.tables m.name)
              (ap (λ (k : QualifiedName). list_beq k.name m.name) w.named ∙ d)

      live :
          {n : QualifiedName} (w : Here c n i)
          → list_beq n.schema m.schema ≡ true
          → Dict.get c.schemas m.schema ≡ some w.at
      live {n} w b =
          ap (Dict.get c.schemas) (
            sym ((list_beq_iff n.schema m.schema).0 b)
            ∙ sym (ap (λ (k : QualifiedName). k.schema) (sym w.placed.named ∙ w.named)))
          ∙ w.placed.live

  -- The table that a name leads to can be deleted. Its name then leads to no table. Every other name
  -- leads to the table that it led to, and every name to the view that it led to.
  pub remove_table-lookup :
      (n : QualifiedName) (i : ArenaIdx) (c : Catalog V)
      → IsNamed c
      → table_ref c n ≡ ok i
      → (d : Catalog V) × (remove_table i c ≡ (ok tt, d))
        × ((m : QualifiedName)
            → table_ref d m ≡ (if qualified_name_beq n m then no_table m else table_ref c m))
        × ((m : QualifiedName) → view_ref d m ≡ view_ref c m)
  unfolding remove_table write_schema
  remove_table-lookup n i c h r =
      let w = here c n i h r in
      let p = w.placed in
      let u : CatalogSchema = record (w.schema) {
        tables = Dict.remove w.schema.tables w.table.name.name;
      } in
      (
        set_schema w.at u c,
        rw (w.reads, w.leads, w.inner) refl,
        λ m.
            table_ref-set_schema c w.at w.schema u w.schema.name m h p.live p.schema
            ∙ without_entry c n m i w,
        λ m.
            view_ref-set_schema c w.at w.schema u w.schema.name m h p.live p.schema
            ∙ same_views c w.at w.schema m p.live p.schema,
      )

  -- The entries of a schema with one of them under a new name.
  renamed_entry :
      (c : Catalog V) (n m : QualifiedName) (new : Text) (i : ArenaIdx) (w : Here c n i)
      → (if list_beq w.schema.name m.schema
          then ok_or
              (Dict.get (Dict.insert (Dict.remove w.schema.tables w.table.name.name) new i) m.name)
              (not_found (codes "table") (display_qualified_name m))
          else table_ref c m)
        ≡ (if qualified_name_beq (qualified n.schema new) m
            then ok i
            else if qualified_name_beq n m
            then no_table m
            else table_ref c m)
  renamed_entry c n m new i w =
      let x = not_found (codes "table") (display_qualified_name m) in
      let same : w.schema.name ≡ n.schema = ap (λ k. k.schema) (sym w.placed.named ∙ w.named) in
      let rest = Dict.remove w.schema.tables w.table.name.name in
      let others = if qualified_name_beq n m then no_table m else table_ref c m in
      ap (λ o. if list_beq w.schema.name m.schema then ok_or o x else table_ref c m)
        (get-insert rest new i m.name)
      ∙ entry_if (list_beq w.schema.name m.schema) (list_beq new m.name) i (Dict.get rest m.name) x
          (table_ref c m) others (without_entry c n m i w)
      ∙ ap (λ k. if list_beq k m.schema && list_beq new m.name then ok i else others) same

  renamed_table_name :
      (c : Catalog V) (n : QualifiedName) (new : Text) (i : ArenaIdx) (u : CatalogSchema)
      (w : Here c n i)
      → Stands
          ((set_table i (renamed_table w.table new) (set_schema w.at u c)).table_arena)
          (λ t. t.name)
          i
          (qualified n.schema new)
  unfolding set_table set_schema
  renamed_table_name c n new i u w =
      subst
        (λ k.
          Stands (Arena.set_entity c.table_arena i (renamed_table w.table new)) (λ t. t.name) i
            (qualified k new))
        (ap (λ k. k.schema) w.named)
        (Stands-written c.table_arena i (renamed_table w.table new) w.table (λ t. t.name)
          w.placed.table)

  -- A table of a schema can be renamed to a name that no table and no view of the schema has. The new
  -- name then leads to it and the old one to no table. Every other name leads to the table that it
  -- led to, and every name to the view that it led to. The table itself has the new name.
  pub rename-lookup :
      (n : QualifiedName) (new : Text) (i : ArenaIdx) (x y : DucklakeError) (c : Catalog V)
      → IsNamed c
      → table_ref c n ≡ ok i
      → table_ref c (qualified n.schema new) ≡ err x
      → view_ref c (qualified n.schema new) ≡ err y
      → (d : Catalog V) × (rename i new c ≡ (ok tt, d))
        × ((m : QualifiedName)
            → table_ref d m ≡ (
                if qualified_name_beq (qualified n.schema new) m
                then ok i
                else if qualified_name_beq n m
                then no_table m
                else table_ref c m))
        × ((m : QualifiedName) → view_ref d m ≡ view_ref c m)
        × Stands d.table_arena (λ t. t.name) i (qualified n.schema new)
  unfolding rename write_schema
  rename-lookup n new i x y c h r free free' =
      let w = here c n i h r in
      let p = w.placed in
      let u = renamed_schema w.schema w.table.name.name new i in
      let e = set_schema w.at u c in
      let same : w.schema.name ≡ n.schema = ap (λ k. k.schema) (sym p.named ∙ w.named) in
      let live = ap (Dict.get c.schemas) (sym same) ∙ p.live in
      let tables =
        ap is_some
          (table_ref-absent c (qualified n.schema new) x w.at w.schema free live p.schema) in
      let views =
        ap is_some
          (view_ref-absent c (qualified n.schema new) y w.at w.schema free' live p.schema) in
      (
        renamed c w.at w.schema i w.table new,
        rw (w.reads, w.leads, w.inner, tables, views, p.entry, w.inner) refl,
        λ m.
            table_ref-set_table e i (renamed_table w.table new) m
            ∙ table_ref-set_schema c w.at w.schema u w.schema.name m h p.live p.schema
            ∙ renamed_entry c n m new i w,
        λ m.
            view_ref-set_table e i (renamed_table w.table new) m
            ∙ view_ref-set_schema c w.at w.schema u w.schema.name m h p.live p.schema
            ∙ same_views c w.at w.schema m p.live p.schema,
        renamed_table_name c n new i u w,
      )
