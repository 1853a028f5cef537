-- ===== src/Transaction/ChangeSet/Stages.antt =====
-- The lists between the passes of `ChangeSet::new`.
use ducklake_sdk.Common.{
  ◌≡◌, sym, ap, ◌∙◌, ◌↔◌, Bool, List, Option, nat_eq, retain, filter_map, Elem, filter_map-retain,
}
use ducklake_sdk.Common.Unique.KeepLast.{keep_last, reverse-unique_by-reverse}
use ducklake_sdk.Catalog.Entities.{ArenaIdx}
use ducklake_sdk.Transaction.Change.{Change, hashable, hashable_change_eq}
use ducklake_sdk.Transaction.ChangeSet.{
  created_table, deleted_table, created_macro, deleted_macro, created_view, deleted_view,
  created_schema, deleted_schema, keeps_table, keeps_macro, keeps_view, retain_tables,
  retain_macros, retain_views, retain_schemas, new,
}
use ducklake_sdk.Common.{Elem-retain, Elem-of_retain}
use ducklake_sdk.Transaction.ChangeSet.Cancel.{
  keeps_pair, Cancels, keeps_pair-not_Cancels, not_Cancels-keeps_pair,
}
use ducklake_sdk.Transaction.ChangeSet.Passes.{
  created_macro-keeps_table, deleted_macro-keeps_table, created_view-keeps_table,
  deleted_view-keeps_table, created_view-keeps_macro, deleted_view-keeps_macro,
  created_schema-keeps_table, deleted_schema-keeps_table, created_schema-keeps_macro,
  deleted_schema-keeps_macro, created_schema-keeps_view, deleted_schema-keeps_view,
}

module _ {V B : Type 0} where
  -- What one pass keeps.
  pub pass_iff :
      (p : Change V B → Bool) (created deleted : List ArenaIdx)
      (made dropped : Change V B → Option ArenaIdx) (cs : List (Change V B)) (c : Change V B)
      → ((d : Change V B) → p d ≡ keeps_pair created deleted (made d) (dropped d))
      → Elem c (retain p cs) ↔ (Elem c cs × (¬ Cancels created deleted (made c) (dropped c)))
  pass_iff p created deleted made dropped cs c h = (
    (λ i.
        let (j, t) = Elem-of_retain p c cs i in
        (j, keeps_pair-not_Cancels created deleted (made c) (dropped c) (sym (h c) ∙ t))),
    (λ i.
        Elem-retain p c cs i.0
          (h c ∙ not_Cancels-keeps_pair created deleted (made c) (dropped c) i.1)),
  )

  abbrev pub last : List (Change V B) → List (Change V B)
  last cs = keep_last hashable cs

  pub new-passes :
      (cs : List (Change V B))
      → new cs ≡ retain_schemas (retain_views (retain_macros (retain_tables (last cs))))
  unfolding new
  new-passes cs =
      ap (λ l. retain_schemas (retain_views (retain_macros (retain_tables l))))
        (reverse-unique_by-reverse hashable cs)

  pub created_macro_passes :
      (cs : List (Change V B))
      → filter_map created_macro (retain_tables (last cs)) ≡ filter_map created_macro (last cs)
  created_macro_passes cs =
      filter_map-retain created_macro
        (keeps_table (filter_map created_table (last cs)) (filter_map deleted_table (last cs)))
        (last cs)
        (λ c r.
          created_macro-keeps_table (filter_map created_table (last cs))
            (filter_map deleted_table (last cs)) c r)

  pub deleted_macro_passes :
      (cs : List (Change V B))
      → filter_map deleted_macro (retain_tables (last cs)) ≡ filter_map deleted_macro (last cs)
  deleted_macro_passes cs =
      filter_map-retain deleted_macro
        (keeps_table (filter_map created_table (last cs)) (filter_map deleted_table (last cs)))
        (last cs)
        (λ c r.
          deleted_macro-keeps_table (filter_map created_table (last cs))
            (filter_map deleted_table (last cs)) c r)

  pub created_view_passes :
      (cs : List (Change V B))
      → filter_map created_view (retain_macros (retain_tables (last cs)))
        ≡ filter_map created_view (last cs)
  created_view_passes cs =
      filter_map-retain created_view
        (keeps_macro (filter_map created_macro (retain_tables (last cs)))
          (filter_map deleted_macro (retain_tables (last cs))))
        (retain_tables (last cs))
        (λ c r.
          created_view-keeps_macro (filter_map created_macro (retain_tables (last cs)))
            (filter_map deleted_macro (retain_tables (last cs))) c r)
      ∙ filter_map-retain created_view
          (keeps_table (filter_map created_table (last cs)) (filter_map deleted_table (last cs)))
          (last cs)
          (λ c r.
            created_view-keeps_table (filter_map created_table (last cs))
              (filter_map deleted_table (last cs)) c r)

  pub deleted_view_passes :
      (cs : List (Change V B))
      → filter_map deleted_view (retain_macros (retain_tables (last cs)))
        ≡ filter_map deleted_view (last cs)
  deleted_view_passes cs =
      filter_map-retain deleted_view
        (keeps_macro (filter_map created_macro (retain_tables (last cs)))
          (filter_map deleted_macro (retain_tables (last cs))))
        (retain_tables (last cs))
        (λ c r.
          deleted_view-keeps_macro (filter_map created_macro (retain_tables (last cs)))
            (filter_map deleted_macro (retain_tables (last cs))) c r)
      ∙ filter_map-retain deleted_view
          (keeps_table (filter_map created_table (last cs)) (filter_map deleted_table (last cs)))
          (last cs)
          (λ c r.
            deleted_view-keeps_table (filter_map created_table (last cs))
              (filter_map deleted_table (last cs)) c r)

  pub created_schema_passes :
      (cs : List (Change V B))
      → filter_map created_schema (retain_views (retain_macros (retain_tables (last cs))))
        ≡ filter_map created_schema (last cs)
  created_schema_passes cs =
      filter_map-retain created_schema
        (keeps_view (filter_map created_view (retain_macros (retain_tables (last cs))))
          (filter_map deleted_view (retain_macros (retain_tables (last cs)))))
        (retain_macros (retain_tables (last cs)))
        (λ c r.
          created_schema-keeps_view
            (filter_map created_view (retain_macros (retain_tables (last cs))))
            (filter_map deleted_view (retain_macros (retain_tables (last cs)))) c r)
      ∙ filter_map-retain created_schema
          (keeps_macro (filter_map created_macro (retain_tables (last cs)))
            (filter_map deleted_macro (retain_tables (last cs))))
          (retain_tables (last cs))
          (λ c r.
            created_schema-keeps_macro (filter_map created_macro (retain_tables (last cs)))
              (filter_map deleted_macro (retain_tables (last cs))) c r)
      ∙ filter_map-retain created_schema
          (keeps_table (filter_map created_table (last cs)) (filter_map deleted_table (last cs)))
          (last cs)
          (λ c r.
            created_schema-keeps_table (filter_map created_table (last cs))
              (filter_map deleted_table (last cs)) c r)

  pub deleted_schema_passes :
      (cs : List (Change V B))
      → filter_map deleted_schema (retain_views (retain_macros (retain_tables (last cs))))
        ≡ filter_map deleted_schema (last cs)
  deleted_schema_passes cs =
      filter_map-retain deleted_schema
        (keeps_view (filter_map created_view (retain_macros (retain_tables (last cs))))
          (filter_map deleted_view (retain_macros (retain_tables (last cs)))))
        (retain_macros (retain_tables (last cs)))
        (λ c r.
          deleted_schema-keeps_view
            (filter_map created_view (retain_macros (retain_tables (last cs))))
            (filter_map deleted_view (retain_macros (retain_tables (last cs)))) c r)
      ∙ filter_map-retain deleted_schema
          (keeps_macro (filter_map created_macro (retain_tables (last cs)))
            (filter_map deleted_macro (retain_tables (last cs))))
          (retain_tables (last cs))
          (λ c r.
            deleted_schema-keeps_macro (filter_map created_macro (retain_tables (last cs)))
              (filter_map deleted_macro (retain_tables (last cs))) c r)
      ∙ filter_map-retain deleted_schema
          (keeps_table (filter_map created_table (last cs)) (filter_map deleted_table (last cs)))
          (last cs)
          (λ c r.
            deleted_schema-keeps_table (filter_map created_table (last cs))
              (filter_map deleted_table (last cs)) c r)
