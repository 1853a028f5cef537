-- ===== src/Catalog/Operations/Named/Remove.antt =====
-- Deleting tables, views and macros (crates/ducklake/src/catalog/views) keeps the names of the catalog
-- leading to entities of those names.
use ducklake_sdk.Common.{refl, inl, inr, list_eq, nat_eq, pair_eq}
use ducklake_sdk.Common.Dict
use ducklake_sdk.Common.Dict.{insert-cases, remove-cases}
use ducklake_sdk.Common.Error.{Result-split}
use ducklake_sdk.Typedefs.Layout.{macro_type_eq}
use ducklake_sdk.Catalog.Entities.{Catalog, ArenaIdx}
use ducklake_sdk.Catalog.Lookup.{
  to_ascii_lowercase, schema_ref, inner_table, inner_view, inner_macro,
}
use ducklake_sdk.Catalog.Operations.{remove_table, remove_view, remove_macro}
use ducklake_sdk.Catalog.Operations.Named.{IsNamed}
use ducklake_sdk.Catalog.Operations.Named.Found.{schema_ref-found}
use ducklake_sdk.Catalog.Operations.Named.Entries.{
  Holds-remove_table, Holds-remove_view, Holds-remove_macro, write_schema-IsNamed,
}

module _ {V : Type 0} where
  pub remove_table-IsNamed :
      (i : ArenaIdx) (c : Catalog V) → IsNamed c → IsNamed ((remove_table i c).1)
  unfolding remove_table
  remove_table-IsNamed i c h = elim (Result-split (inner_table c i)) [
    | inl (t, e) ↦ elim (Result-split (schema_ref c t.name.schema)) [
      | inl (j, f) ↦
          rw (e, f)
            (write_schema-IsNamed j (λ s. record s { tables = Dict.remove s.tables t.name.name }) c
              (λ s g. (
                refl,
                Holds-remove_table c s t.name.name
                    (h.holds t.name.schema j s (schema_ref-found c t.name.schema j f) g),
              ))
              h)
      | inr (x, f) ↦ rw (e, f) h
    ]
    | inr (x, e) ↦ rw e h
  ]

  pub remove_view-IsNamed :
      (i : ArenaIdx) (c : Catalog V) → IsNamed c → IsNamed ((remove_view i c).1)
  unfolding remove_view
  remove_view-IsNamed i c h = elim (Result-split (inner_view c i)) [
    | inl (t, e) ↦ elim (Result-split (schema_ref c t.name.schema)) [
      | inl (j, f) ↦
          rw (e, f)
            (write_schema-IsNamed j (λ s. record s { views = Dict.remove s.views t.name.name }) c
              (λ s g. (
                refl,
                Holds-remove_view c s t.name.name
                    (h.holds t.name.schema j s (schema_ref-found c t.name.schema j f) g),
              ))
              h)
      | inr (x, f) ↦ rw (e, f) h
    ]
    | inr (x, e) ↦ rw e h
  ]

  pub remove_macro-IsNamed :
      (i : ArenaIdx) (c : Catalog V) → IsNamed c → IsNamed ((remove_macro i c).1)
  unfolding remove_macro
  remove_macro-IsNamed i c h = elim (Result-split (inner_macro c i)) [
    | inl (t, e) ↦ elim (Result-split (schema_ref c t.name.schema)) [
      | inl (j, f) ↦
          rw (e, f)
            (write_schema-IsNamed j
              (λ s. record s {
                macros = Dict.remove s.macros (to_ascii_lowercase t.name.name, t.macro_type);
              })
              c
              (λ s g. (
                refl,
                Holds-remove_macro c s (to_ascii_lowercase t.name.name, t.macro_type)
                    (h.holds t.name.schema j s (schema_ref-found c t.name.schema j f) g),
              ))
              h)
      | inr (x, f) ↦ rw (e, f) h
    ]
    | inr (x, e) ↦ rw e h
  ]
