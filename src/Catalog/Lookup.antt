-- ===== src/Catalog/Lookup.antt =====
-- crates/ducklake/src/catalog/views/schema.rs, table.rs, view.rs and macro_.rs: looking entities up by
-- name, and reading and writing them by reference. A reference out of bounds panics.
use ducklake_sdk.Common.{ℕ, map, ◌&&◌, ◌+◌, leb, if◌then◌else◌, list_eq, nat_eq, pair_eq}
use ducklake_sdk.Common.Dict
use ducklake_sdk.Common.Text.{Text, codes}
use ducklake_sdk.Common.Error.{Result, ok, err, ◌>>=◌, ok_or, not_found, already_exists, panicked}
use ducklake_sdk.Typedefs.Names.{QualifiedName, display_qualified_name}
use ducklake_sdk.Typedefs.Layout.{MacroType, macro_type_eq}
use ducklake_sdk.Catalog.Arena.{get, set_entity}
use ducklake_sdk.Catalog.Entities.{
  Catalog, ArenaIdx, CatalogSchema, CatalogTable, CatalogView, CatalogMacro,
}

-- `to_ascii_lowercase`.
abbrev lower : ℕ → ℕ
lower c = if leb 65 c && leb c 90 then c + 32 else c

unfoldable pub to_ascii_lowercase : Text → Text
to_ascii_lowercase = map lower

-- `if let Ok(x) = … { return Err(…) }`, where the error names the entity that is there.
abbrev pub refuse :
    {A B : Type 0} → Result A → (A → Result B) → (B → QualifiedName) → Text → Result (Unit {0})
refuse (err e) read name entity = ok tt
refuse (ok a) read name entity =
    read a >>= λ found. err (already_exists entity (display_qualified_name (name found)))

module _ {V : Type 0} where
  -- `SchemaView::inner`, `TableView::inner`, `ViewView::inner` and `MacroView::inner`.
  unfoldable pub inner_schema : Catalog V → ArenaIdx → Result CatalogSchema
  unfolding get
  inner_schema c idx = ok_or (get c.schema_arena idx) panicked

  unfoldable pub inner_table : Catalog V → ArenaIdx → Result (CatalogTable V)
  unfolding get
  inner_table c idx = ok_or (get c.table_arena idx) panicked

  unfoldable pub inner_view : Catalog V → ArenaIdx → Result CatalogView
  unfolding get
  inner_view c idx = ok_or (get c.view_arena idx) panicked

  unfoldable pub inner_macro : Catalog V → ArenaIdx → Result CatalogMacro
  unfolding get
  inner_macro c idx = ok_or (get c.macro_arena idx) panicked

  -- Writes through `inner_mut`.
  unfoldable pub set_schema : ArenaIdx → CatalogSchema → Catalog V → Catalog V
  unfolding set_entity
  set_schema idx s c = record c { schema_arena = set_entity c.schema_arena idx s }

  unfoldable pub set_table : ArenaIdx → CatalogTable V → Catalog V → Catalog V
  unfolding set_entity
  set_table idx t c = record c { table_arena = set_entity c.table_arena idx t }

  -- `TryIntoRef<SchemaRef> for &S`.
  unfoldable pub schema_ref : Catalog V → Text → Result ArenaIdx
  unfolding Dict.get
  schema_ref c name = ok_or (Dict.get c.schemas name) (not_found (codes "schema") name)

  -- `TryIntoRef<TableRef> for &QualifiedName`.
  unfoldable pub table_ref : Catalog V → QualifiedName → Result ArenaIdx
  unfolding schema_ref inner_schema Dict.get
  table_ref c n = do
    idx ← schema_ref c n.schema
    s ← inner_schema c idx
    ok_or (Dict.get s.tables n.name) (not_found (codes "table") (display_qualified_name n))

  -- `TryIntoRef<ViewRef> for &QualifiedName`.
  unfoldable pub view_ref : Catalog V → QualifiedName → Result ArenaIdx
  unfolding schema_ref inner_schema Dict.get
  view_ref c n = do
    idx ← schema_ref c n.schema
    s ← inner_schema c idx
    ok_or (Dict.get s.views n.name) (not_found (codes "view") (display_qualified_name n))

  -- `TryIntoRef<MacroRef> for (&QualifiedName, MacroType)`.
  unfoldable pub macro_ref : Catalog V → QualifiedName → MacroType → Result ArenaIdx
  unfolding schema_ref inner_schema Dict.get to_ascii_lowercase
  macro_ref c n kind = do
    idx ← schema_ref c n.schema
    s ← inner_schema c idx
    ok_or (Dict.get s.macros (to_ascii_lowercase n.name, kind))
        (not_found (codes "macro") (display_qualified_name n))
