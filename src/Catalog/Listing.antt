-- ===== src/Catalog/Listing.antt =====
-- The lists of what a schema holds: `list_tables`, `list_views` and `list_macros` of
-- crates/ducklake/src/transaction/mod.rs and of catalog/views/schema.rs.
use ducklake_sdk.Common.{List, map}
use ducklake_sdk.Common.Text.{Text}
use ducklake_sdk.Common.Error.{Result, ok, ◌>>=◌, collect}
use ducklake_sdk.Typedefs.Names.{QualifiedName}
use ducklake_sdk.Typedefs.Layout.{MacroType}
use ducklake_sdk.Catalog.Entities.{Catalog, ArenaIdx}
use ducklake_sdk.Catalog.Lookup.{schema_ref, inner_schema, inner_table, inner_view, inner_macro}

abbrev places : {K : Type 0} → List (K × ArenaIdx) → List ArenaIdx
places = map (λ entry. entry.1)

module _ {V : Type 0} where
  -- `Transaction::list_tables`, `list_views` and `list_macros` of a schema.
  unfoldable pub list_tables : Text → Catalog V → Result (List QualifiedName)
  unfolding schema_ref inner_schema inner_table
  list_tables schema c = do
    idx ← schema_ref c schema
    s ← inner_schema c idx
    collect (λ at. inner_table c at >>= λ t. ok t.name) (places s.tables)

  unfoldable pub list_views : Text → Catalog V → Result (List QualifiedName)
  unfolding schema_ref inner_schema inner_view
  list_views schema c = do
    idx ← schema_ref c schema
    s ← inner_schema c idx
    collect (λ at. inner_view c at >>= λ v. ok v.name) (places s.views)

  unfoldable pub list_macros : Text → Catalog V → Result (List (QualifiedName × MacroType))
  unfolding schema_ref inner_schema inner_macro
  list_macros schema c = do
    idx ← schema_ref c schema
    s ← inner_schema c idx
    collect (λ at. inner_macro c at >>= λ m. ok (m.name, m.macro_type)) (places s.macros)
