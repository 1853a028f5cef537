-- ===== src/Catalog/Operations/Named/Lookup.antt =====
-- What the names of tables and views lead to after a table is deleted or renamed
-- (crates/ducklake/src/catalog/views/table.rs).
use ducklake_sdk.Common.{
  ◌≡◌, ◌≢◌, refl, sym, ap, ◌∙◌, inl, inr, false, Bool-cases, some, nat_beq, nat_beq_iff,
  if◌then◌else◌, list_beq, list_beq_iff, list_eq, nat_eq,
}
use ducklake_sdk.Common.Dict
use ducklake_sdk.Common.Dict.{is_some, get-remove, get-insert}
use ducklake_sdk.Common.Text.{Text, codes}
use ducklake_sdk.Common.Error.{Result, ok, err, ◌>>=◌, >>=-ext, ok_or, not_found, panicked}
use ducklake_sdk.Typedefs.Names.{QualifiedName, display_qualified_name}
use ducklake_sdk.Catalog.Arena.{get, get-set_entity}
use ducklake_sdk.Catalog.Entities.{Catalog, ArenaIdx, CatalogSchema, CatalogTable}
use ducklake_sdk.Catalog.Lookup.{
  set_schema, set_table, schema_ref, inner_schema, table_ref, view_ref,
}
use ducklake_sdk.Catalog.Operations.Named.{IsNamed}
use ducklake_sdk.Catalog.Operations.Named.Found.{schema_ref-found, table_ref-entry, view_ref-entry}
use ducklake_sdk.Catalog.Operations.Named.Rename.{Stands-same, Stands-written}

abbrev pub no_table : QualifiedName → Result ArenaIdx
no_table n = err (not_found (codes "table") (display_qualified_name n))

module _ {V : Type 0} (c : Catalog V) (j : ArenaIdx) (s u : CatalogSchema) where
  -- Other schemas are read as before.
  inner_schema-other :
      (k : ArenaIdx)
      → get c.schema_arena j ≡ some s
      → j ≢ k
      → inner_schema (set_schema j u c) k ≡ inner_schema c k
  unfolding inner_schema set_schema
  inner_schema-other k g ne = elim (Bool-cases (nat_beq j k)) [
    | inl b ↦ absurd (ne ((nat_beq_iff j k).0 b))
    | inr b ↦
        ap (λ o. ok_or o panicked)
          (get-set_entity c.schema_arena j u s k g
            ∙ ap (λ z. if z then some u else get c.schema_arena k) b)
  ]

  -- Two names do not lead to one schema.
  schema_ref-apart :
      (n m : Text) (k : ArenaIdx)
      → IsNamed c
      → Dict.get c.schemas n ≡ some j
      → get c.schema_arena j ≡ some s
      → list_beq n m ≡ false
      → schema_ref c m ≡ ok k
      → j ≢ k
  schema_ref-apart n m k h a g b e q =
      let first = Stands-same c.schema_arena j s (λ s. s.name) n g (h.schemas n j a) in
      let second =
        Stands-same c.schema_arena k s (λ s. s.name) m (ap (get c.schema_arena) (sym q) ∙ g)
          (h.schemas m k (schema_ref-found c m k e)) in
      let t = (list_beq_iff n m).1 (sym first ∙ second) in cc

  -- The names of tables after a write to a schema.
  pub table_ref-set_schema :
      (n : Text) (m : QualifiedName)
      → IsNamed c
      → Dict.get c.schemas n ≡ some j
      → get c.schema_arena j ≡ some s
      → table_ref (set_schema j u c) m ≡ (
          if list_beq n m.schema
          then ok_or
              (Dict.get u.tables m.name)
              (not_found (codes "table") (display_qualified_name m))
          else table_ref c m)
  unfolding table_ref schema_ref set_schema
  table_ref-set_schema n m h a g = elim (Bool-cases (list_beq n m.schema)) [
    | inl b ↦
        let (w, d, e) = Stands-written c.schema_arena j u s (λ s. s) g in
        table_ref-entry (set_schema j u c) m j u
          (ap (Dict.get c.schemas) (sym ((list_beq_iff n m.schema).0 b)) ∙ a) (d ∙ ap some e)
        ∙ ap
            (λ z.
              if z
              then ok_or (Dict.get u.tables m.name)
                  (not_found (codes "table") (display_qualified_name m))
              else table_ref c m)
            (sym b)
    | inr b ↦
        >>=-ext (schema_ref c m.schema) _ _ (λ k e.
          ap
            (λ r. r >>= λ (s : CatalogSchema).
              ok_or (Dict.get s.tables m.name)
                (not_found (codes "table") (display_qualified_name m)))
            (inner_schema-other k g (schema_ref-apart n m.schema k h a g b e)))
        ∙ ap
            (λ z.
              if z
              then ok_or (Dict.get u.tables m.name)
                  (not_found (codes "table") (display_qualified_name m))
              else table_ref c m)
            (sym b)
  ]

  -- The names of views after a write to a schema.
  pub view_ref-set_schema :
      (n : Text) (m : QualifiedName)
      → IsNamed c
      → Dict.get c.schemas n ≡ some j
      → get c.schema_arena j ≡ some s
      → view_ref (set_schema j u c) m ≡ (
          if list_beq n m.schema
          then ok_or (Dict.get u.views m.name) (not_found (codes "view") (display_qualified_name m))
          else view_ref c m)
  unfolding view_ref schema_ref set_schema
  view_ref-set_schema n m h a g = elim (Bool-cases (list_beq n m.schema)) [
    | inl b ↦
        let (w, d, e) = Stands-written c.schema_arena j u s (λ s. s) g in
        view_ref-entry (set_schema j u c) m j u
          (ap (Dict.get c.schemas) (sym ((list_beq_iff n m.schema).0 b)) ∙ a) (d ∙ ap some e)
        ∙ ap
            (λ z.
              if z
              then ok_or (Dict.get u.views m.name)
                  (not_found (codes "view") (display_qualified_name m))
              else view_ref c m)
            (sym b)
    | inr b ↦
        >>=-ext (schema_ref c m.schema) _ _ (λ k e.
          ap
            (λ r. r >>= λ (s : CatalogSchema).
              ok_or (Dict.get s.views m.name) (not_found (codes "view") (display_qualified_name m)))
            (inner_schema-other k g (schema_ref-apart n m.schema k h a g b e)))
        ∙ ap
            (λ z.
              if z
              then ok_or (Dict.get u.views m.name)
                  (not_found (codes "view") (display_qualified_name m))
              else view_ref c m)
            (sym b)
  ]

module _ {V : Type 0} (c : Catalog V) where
  -- A schema of which the views stay.
  pub same_views :
      (j : ArenaIdx) (s : CatalogSchema) (m : QualifiedName)
      → Dict.get c.schemas s.name ≡ some j
      → get c.schema_arena j ≡ some s
      → (if list_beq s.name m.schema
          then ok_or (Dict.get s.views m.name) (not_found (codes "view") (display_qualified_name m))
          else view_ref c m)
        ≡ view_ref c m
  same_views j s m a g = elim (Bool-cases (list_beq s.name m.schema)) [
    | inr b ↦ rw b refl
    | inl b ↦
        let live = ap (Dict.get c.schemas) (sym ((list_beq_iff s.name m.schema).0 b)) ∙ a in
        rw b (sym (view_ref-entry c m j s live g))
  ]

  -- A write to a table leaves the names alone.
  pub table_ref-set_table :
      (i : ArenaIdx) (t : CatalogTable V) (m : QualifiedName)
      → table_ref (set_table i t c) m ≡ table_ref c m
  unfolding table_ref schema_ref inner_schema set_table
  table_ref-set_table i t m = refl

  pub view_ref-set_table :
      (i : ArenaIdx) (t : CatalogTable V) (m : QualifiedName)
      → view_ref (set_table i t c) m ≡ view_ref c m
  unfolding view_ref schema_ref inner_schema set_table
  view_ref-set_table i t m = refl
