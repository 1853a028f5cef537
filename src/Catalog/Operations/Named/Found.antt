-- ===== src/Catalog/Operations/Named/Found.antt =====
-- What the references of crates/ducklake/src/catalog/views lead to.
use ducklake_sdk.Common.{◌≡◌, refl, sym, ap, ◌∙◌, Option, none, some, list_eq, nat_eq, pair_eq}
use ducklake_sdk.Common.Dict
use ducklake_sdk.Common.Text.{Text, codes}
use ducklake_sdk.Common.Error.{
  ok, err, DucklakeError, ok_or, ok_inj, >>=-ok, >>=-through, not_found, panicked,
}
use ducklake_sdk.Typedefs.Names.{QualifiedName, display_qualified_name}
use ducklake_sdk.Typedefs.Layout.{MacroType, macro_type_eq}
use ducklake_sdk.Catalog.Arena.{get}
use ducklake_sdk.Catalog.Entities.{
  Catalog, ArenaIdx, CatalogSchema, CatalogTable, CatalogView, CatalogMacro,
}
use ducklake_sdk.Catalog.Lookup.{
  to_ascii_lowercase, schema_ref, inner_schema, inner_table, inner_view, inner_macro, table_ref,
  view_ref, macro_ref,
}

pub ok_or-ok :
    {A : Type 0} (o : Option A) (e : DucklakeError) (a : A) → ok_or o e ≡ ok a → o ≡ some a
ok_or-ok none e a h = cc
ok_or-ok (some b) e a h = ap some (ok_inj b a h)

pub ok_or-err : {A : Type 0} (o : Option A) (e x : DucklakeError) → ok_or o e ≡ err x → o ≡ none
ok_or-err none e x h = refl
ok_or-err (some b) e x h = cc

module _ {V : Type 0} (c : Catalog V) where
  pub schema_ref-found :
      (n : Text) (i : ArenaIdx) → schema_ref c n ≡ ok i → Dict.get c.schemas n ≡ some i
  unfolding schema_ref
  schema_ref-found n i h = ok_or-ok _ _ i h

  pub schema_ref-there :
      (n : Text) (i : ArenaIdx) → Dict.get c.schemas n ≡ some i → schema_ref c n ≡ ok i
  unfolding schema_ref
  schema_ref-there n i h = ap (λ o. ok_or o (not_found (codes "schema") n)) h

  pub inner_schema-there :
      (i : ArenaIdx) (s : CatalogSchema) → get c.schema_arena i ≡ some s → inner_schema c i ≡ ok s
  unfolding inner_schema
  inner_schema-there i s h = ap (λ o. ok_or o panicked) h

  pub inner_table-there :
      (i : ArenaIdx) (t : CatalogTable V) → get c.table_arena i ≡ some t → inner_table c i ≡ ok t
  unfolding inner_table
  inner_table-there i s h = ap (λ o. ok_or o panicked) h

  pub inner_schema-found :
      (i : ArenaIdx) (s : CatalogSchema) → inner_schema c i ≡ ok s → get c.schema_arena i ≡ some s
  unfolding inner_schema
  inner_schema-found i s h = ok_or-ok _ _ s h

  pub inner_table-found :
      (i : ArenaIdx) (t : CatalogTable V) → inner_table c i ≡ ok t → get c.table_arena i ≡ some t
  unfolding inner_table
  inner_table-found i t h = ok_or-ok _ _ t h

  pub inner_view-found :
      (i : ArenaIdx) (t : CatalogView) → inner_view c i ≡ ok t → get c.view_arena i ≡ some t
  unfolding inner_view
  inner_view-found i t h = ok_or-ok _ _ t h

  pub inner_macro-found :
      (i : ArenaIdx) (t : CatalogMacro) → inner_macro c i ≡ ok t → get c.macro_arena i ≡ some t
  unfolding inner_macro
  inner_macro-found i t h = ok_or-ok _ _ t h

  -- A reference to a table comes from the entries of its schema.
  pub table_ref-entry :
      (n : QualifiedName) (i : ArenaIdx) (s : CatalogSchema)
      → Dict.get c.schemas n.schema ≡ some i
      → get c.schema_arena i ≡ some s
      → table_ref c n
        ≡ ok_or (Dict.get s.tables n.name) (not_found (codes "table") (display_qualified_name n))
  unfolding table_ref schema_ref inner_schema
  table_ref-entry n i s a b =
      >>=-through (schema_ref c n.schema) _ i _
        (ap (λ o. ok_or o (not_found (codes "schema") n.schema)) a)
        (>>=-through (inner_schema c i) _ s _ (ap (λ o. ok_or o panicked) b) refl)

  pub table_ref-found :
      (n : QualifiedName) (j : ArenaIdx)
      → table_ref c n ≡ ok j
      → (i : ArenaIdx) × (s : CatalogSchema) × (Dict.get c.schemas n.schema ≡ some i)
        × (get c.schema_arena i ≡ some s)
        × (Dict.get s.tables n.name ≡ some j)
  unfolding table_ref
  table_ref-found n j h =
      let (i, a, b) = >>=-ok (schema_ref c n.schema) _ j h in
      let (s, d, e) = >>=-ok (inner_schema c i) _ j b in
      (i, s, schema_ref-found n.schema i a, inner_schema-found i s d, ok_or-ok _ _ j e)

  -- A name that leads to no table is not among the entries of its schema.
  pub table_ref-absent :
      (n : QualifiedName) (x : DucklakeError) (i : ArenaIdx) (s : CatalogSchema)
      → table_ref c n ≡ err x
      → Dict.get c.schemas n.schema ≡ some i
      → get c.schema_arena i ≡ some s
      → Dict.get s.tables n.name ≡ none
  table_ref-absent n x i s h a b = ok_or-err _ _ x (sym (table_ref-entry n i s a b) ∙ h)

  -- A reference to a view comes from the entries of its schema.
  pub view_ref-entry :
      (n : QualifiedName) (i : ArenaIdx) (s : CatalogSchema)
      → Dict.get c.schemas n.schema ≡ some i
      → get c.schema_arena i ≡ some s
      → view_ref c n
        ≡ ok_or (Dict.get s.views n.name) (not_found (codes "view") (display_qualified_name n))
  unfolding view_ref schema_ref inner_schema
  view_ref-entry n i s a b =
      >>=-through (schema_ref c n.schema) _ i _
        (ap (λ o. ok_or o (not_found (codes "schema") n.schema)) a)
        (>>=-through (inner_schema c i) _ s _ (ap (λ o. ok_or o panicked) b) refl)

  pub view_ref-found :
      (n : QualifiedName) (j : ArenaIdx)
      → view_ref c n ≡ ok j
      → (i : ArenaIdx) × (s : CatalogSchema) × (Dict.get c.schemas n.schema ≡ some i)
        × (get c.schema_arena i ≡ some s)
        × (Dict.get s.views n.name ≡ some j)
  unfolding view_ref
  view_ref-found n j h =
      let (i, a, b) = >>=-ok (schema_ref c n.schema) _ j h in
      let (s, d, e) = >>=-ok (inner_schema c i) _ j b in
      (i, s, schema_ref-found n.schema i a, inner_schema-found i s d, ok_or-ok _ _ j e)

  -- A name that leads to no view is not among the entries of its schema.
  pub view_ref-absent :
      (n : QualifiedName) (x : DucklakeError) (i : ArenaIdx) (s : CatalogSchema)
      → view_ref c n ≡ err x
      → Dict.get c.schemas n.schema ≡ some i
      → get c.schema_arena i ≡ some s
      → Dict.get s.views n.name ≡ none
  view_ref-absent n x i s h a b = ok_or-err _ _ x (sym (view_ref-entry n i s a b) ∙ h)

  -- A reference to a macro comes from the entries of its schema.
  pub macro_ref-entry :
      (n : QualifiedName) (kind : MacroType) (i : ArenaIdx) (s : CatalogSchema)
      → Dict.get c.schemas n.schema ≡ some i
      → get c.schema_arena i ≡ some s
      → macro_ref c n kind
        ≡ ok_or
            (Dict.get s.macros (to_ascii_lowercase n.name, kind))
            (not_found (codes "macro") (display_qualified_name n))
  unfolding macro_ref schema_ref inner_schema
  macro_ref-entry n kind i s a b =
      >>=-through (schema_ref c n.schema) _ i _
        (ap (λ o. ok_or o (not_found (codes "schema") n.schema)) a)
        (>>=-through (inner_schema c i) _ s _ (ap (λ o. ok_or o panicked) b) refl)

  pub macro_ref-found :
      (n : QualifiedName) (kind : MacroType) (j : ArenaIdx)
      → macro_ref c n kind ≡ ok j
      → (i : ArenaIdx) × (s : CatalogSchema) × (Dict.get c.schemas n.schema ≡ some i)
        × (get c.schema_arena i ≡ some s)
        × (Dict.get s.macros (to_ascii_lowercase n.name, kind) ≡ some j)
  unfolding macro_ref
  macro_ref-found n kind j h =
      let (i, a, b) = >>=-ok (schema_ref c n.schema) _ j h in
      let (s, d, e) = >>=-ok (inner_schema c i) _ j b in
      (i, s, schema_ref-found n.schema i a, inner_schema-found i s d, ok_or-ok _ _ j e)

  -- A name that leads to no macro is not among the entries of its schema.
  pub macro_ref-absent :
      (n : QualifiedName) (kind : MacroType) (x : DucklakeError) (i : ArenaIdx) (s : CatalogSchema)
      → macro_ref c n kind ≡ err x
      → Dict.get c.schemas n.schema ≡ some i
      → get c.schema_arena i ≡ some s
      → Dict.get s.macros (to_ascii_lowercase n.name, kind) ≡ none
  macro_ref-absent n kind x i s h a b = ok_or-err _ _ x (sym (macro_ref-entry n kind i s a b) ∙ h)
