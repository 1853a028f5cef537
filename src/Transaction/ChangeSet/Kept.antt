-- ===== src/Transaction/ChangeSet/Kept.antt =====
-- What each pass of `ChangeSet::new` keeps, in terms of the changes it was given.
use ducklake_sdk.Common.{sym, subst, ◌↔◌, List, nat_eq, filter_map, Elem}
use ducklake_sdk.Catalog.Entities.{ArenaIdx}
use ducklake_sdk.Transaction.Change.{Change, hashable_change_eq, affected_table_ref}
use ducklake_sdk.Transaction.ChangeSet.{
  created_table, deleted_table, created_macro, deleted_macro, created_view, deleted_view,
  created_schema, deleted_schema, keeps_table, keeps_macro, keeps_view, keeps_schema, retain_tables,
  retain_macros, retain_views, retain_schemas,
}
use ducklake_sdk.Transaction.ChangeSet.Cancel.{
  Cancels, Cancels-mono, keeps_table-pair, keeps_macro-pair, keeps_view-pair, keeps_schema-pair,
}
use ducklake_sdk.Transaction.ChangeSet.Keys.{
  same_created_table, same_deleted_table, same_created_macro, same_deleted_macro, same_created_view,
  same_deleted_view, same_created_schema, same_deleted_schema,
}
use ducklake_sdk.Transaction.ChangeSet.Stages.{
  pass_iff, last, created_macro_passes, deleted_macro_passes, created_view_passes,
  deleted_view_passes, created_schema_passes, deleted_schema_passes,
}

module _ {V B : Type 0} where
  -- The references at each pass are those of all changes.
  pub table_pass :
      (cs : List (Change V B)) (c : Change V B)
      → Elem c (retain_tables (last cs)) ↔ (
          Elem c (last cs)
          × (¬ Cancels
              (filter_map created_table cs)
              (filter_map deleted_table cs)
              (affected_table_ref c)
              (deleted_table c)))
  table_pass cs c =
      let (to, from) =
        pass_iff
          (keeps_table (filter_map created_table (last cs)) (filter_map deleted_table (last cs)))
          (filter_map created_table (last cs)) (filter_map deleted_table (last cs))
          affected_table_ref deleted_table (last cs) c
          (keeps_table-pair (filter_map created_table (last cs))
            (filter_map deleted_table (last cs))) in
      (
        λ i.
            let (j, n) = to i in
            (
              j,
              λ z. n (
                  Cancels-mono _ _ _ _ (affected_table_ref c) (deleted_table c) (created_in cs)
                    (deleted_in cs) z),
            ),
        λ i. from (
          i.0,
          λ z. i.1 (
              Cancels-mono _ _ _ _ (affected_table_ref c) (deleted_table c) (created_out cs)
                (deleted_out cs) z),
        ),
      )
    where
      created_in :
          (cs : List (Change V B)) (r : ArenaIdx)
          → Elem r (filter_map created_table cs)
          → Elem r (filter_map created_table (last cs))
      created_in cs r i = (same_created_table cs r).0 i

      created_out :
          (cs : List (Change V B)) (r : ArenaIdx)
          → Elem r (filter_map created_table (last cs))
          → Elem r (filter_map created_table cs)
      created_out cs r i = (same_created_table cs r).1 i

      deleted_in :
          (cs : List (Change V B)) (r : ArenaIdx)
          → Elem r (filter_map deleted_table cs)
          → Elem r (filter_map deleted_table (last cs))
      deleted_in cs r i = (same_deleted_table cs r).0 i

      deleted_out :
          (cs : List (Change V B)) (r : ArenaIdx)
          → Elem r (filter_map deleted_table (last cs))
          → Elem r (filter_map deleted_table cs)
      deleted_out cs r i = (same_deleted_table cs r).1 i

  pub macro_pass :
      (cs : List (Change V B)) (c : Change V B)
      → Elem c (retain_macros (retain_tables (last cs))) ↔ (
          Elem c (retain_tables (last cs))
          × (¬ Cancels
              (filter_map created_macro cs)
              (filter_map deleted_macro cs)
              (created_macro c)
              (deleted_macro c)))
  macro_pass cs c =
      let (to, from) =
        pass_iff
          (keeps_macro (filter_map created_macro (retain_tables (last cs)))
            (filter_map deleted_macro (retain_tables (last cs))))
          (filter_map created_macro (retain_tables (last cs)))
          (filter_map deleted_macro (retain_tables (last cs))) created_macro deleted_macro
          (retain_tables (last cs)) c
          (keeps_macro-pair (filter_map created_macro (retain_tables (last cs)))
            (filter_map deleted_macro (retain_tables (last cs)))) in
      (
        λ i.
            let (j, n) = to i in
            (
              j,
              λ z. n (
                  Cancels-mono _ _ _ _ (created_macro c) (deleted_macro c) (created_in cs)
                    (deleted_in cs) z),
            ),
        λ i. from (
          i.0,
          λ z. i.1 (
              Cancels-mono _ _ _ _ (created_macro c) (deleted_macro c) (created_out cs)
                (deleted_out cs) z),
        ),
      )
    where
      created_in :
          (cs : List (Change V B)) (r : ArenaIdx)
          → Elem r (filter_map created_macro cs)
          → Elem r (filter_map created_macro (retain_tables (last cs)))
      created_in cs r i =
          subst (Elem r) (sym (created_macro_passes cs)) ((same_created_macro cs r).0 i)

      created_out :
          (cs : List (Change V B)) (r : ArenaIdx)
          → Elem r (filter_map created_macro (retain_tables (last cs)))
          → Elem r (filter_map created_macro cs)
      created_out cs r i = (same_created_macro cs r).1 (subst (Elem r) (created_macro_passes cs) i)

      deleted_in :
          (cs : List (Change V B)) (r : ArenaIdx)
          → Elem r (filter_map deleted_macro cs)
          → Elem r (filter_map deleted_macro (retain_tables (last cs)))
      deleted_in cs r i =
          subst (Elem r) (sym (deleted_macro_passes cs)) ((same_deleted_macro cs r).0 i)

      deleted_out :
          (cs : List (Change V B)) (r : ArenaIdx)
          → Elem r (filter_map deleted_macro (retain_tables (last cs)))
          → Elem r (filter_map deleted_macro cs)
      deleted_out cs r i = (same_deleted_macro cs r).1 (subst (Elem r) (deleted_macro_passes cs) i)

  pub view_pass :
      (cs : List (Change V B)) (c : Change V B)
      → Elem c (retain_views (retain_macros (retain_tables (last cs)))) ↔ (
          Elem c (retain_macros (retain_tables (last cs)))
          × (¬ Cancels
              (filter_map created_view cs)
              (filter_map deleted_view cs)
              (created_view c)
              (deleted_view c)))
  view_pass cs c =
      let (to, from) =
        pass_iff
          (keeps_view (filter_map created_view (retain_macros (retain_tables (last cs))))
            (filter_map deleted_view (retain_macros (retain_tables (last cs)))))
          (filter_map created_view (retain_macros (retain_tables (last cs))))
          (filter_map deleted_view (retain_macros (retain_tables (last cs)))) created_view
          deleted_view (retain_macros (retain_tables (last cs))) c
          (keeps_view-pair (filter_map created_view (retain_macros (retain_tables (last cs))))
            (filter_map deleted_view (retain_macros (retain_tables (last cs))))) in
      (
        λ i.
            let (j, n) = to i in
            (
              j,
              λ z. n (
                  Cancels-mono _ _ _ _ (created_view c) (deleted_view c) (created_in cs)
                    (deleted_in cs) z),
            ),
        λ i. from (
          i.0,
          λ z. i.1 (
              Cancels-mono _ _ _ _ (created_view c) (deleted_view c) (created_out cs)
                (deleted_out cs) z),
        ),
      )
    where
      created_in :
          (cs : List (Change V B)) (r : ArenaIdx)
          → Elem r (filter_map created_view cs)
          → Elem r (filter_map created_view (retain_macros (retain_tables (last cs))))
      created_in cs r i =
          subst (Elem r) (sym (created_view_passes cs)) ((same_created_view cs r).0 i)

      created_out :
          (cs : List (Change V B)) (r : ArenaIdx)
          → Elem r (filter_map created_view (retain_macros (retain_tables (last cs))))
          → Elem r (filter_map created_view cs)
      created_out cs r i = (same_created_view cs r).1 (subst (Elem r) (created_view_passes cs) i)

      deleted_in :
          (cs : List (Change V B)) (r : ArenaIdx)
          → Elem r (filter_map deleted_view cs)
          → Elem r (filter_map deleted_view (retain_macros (retain_tables (last cs))))
      deleted_in cs r i =
          subst (Elem r) (sym (deleted_view_passes cs)) ((same_deleted_view cs r).0 i)

      deleted_out :
          (cs : List (Change V B)) (r : ArenaIdx)
          → Elem r (filter_map deleted_view (retain_macros (retain_tables (last cs))))
          → Elem r (filter_map deleted_view cs)
      deleted_out cs r i = (same_deleted_view cs r).1 (subst (Elem r) (deleted_view_passes cs) i)

  pub schema_pass :
      (cs : List (Change V B)) (c : Change V B)
      → Elem c (retain_schemas (retain_views (retain_macros (retain_tables (last cs))))) ↔ (
          Elem c (retain_views (retain_macros (retain_tables (last cs))))
          × (¬ Cancels
              (filter_map created_schema cs)
              (filter_map deleted_schema cs)
              (created_schema c)
              (deleted_schema c)))
  schema_pass cs c =
      let (to, from) =
        pass_iff
          (keeps_schema
            (filter_map created_schema (retain_views (retain_macros (retain_tables (last cs)))))
            (filter_map deleted_schema (retain_views (retain_macros (retain_tables (last cs))))))
          (filter_map created_schema (retain_views (retain_macros (retain_tables (last cs)))))
          (filter_map deleted_schema (retain_views (retain_macros (retain_tables (last cs)))))
          created_schema deleted_schema (retain_views (retain_macros (retain_tables (last cs)))) c
          (keeps_schema-pair
            (filter_map created_schema (retain_views (retain_macros (retain_tables (last cs)))))
            (filter_map deleted_schema (retain_views (retain_macros (retain_tables (last cs)))))) in
      (
        λ i.
            let (j, n) = to i in
            (
              j,
              λ z. n (
                  Cancels-mono _ _ _ _ (created_schema c) (deleted_schema c) (created_in cs)
                    (deleted_in cs) z),
            ),
        λ i. from (
          i.0,
          λ z. i.1 (
              Cancels-mono _ _ _ _ (created_schema c) (deleted_schema c) (created_out cs)
                (deleted_out cs) z),
        ),
      )
    where
      created_in :
          (cs : List (Change V B)) (r : ArenaIdx)
          → Elem r (filter_map created_schema cs)
          → Elem r
              (filter_map created_schema (retain_views (retain_macros (retain_tables (last cs)))))
      created_in cs r i =
          subst (Elem r) (sym (created_schema_passes cs)) ((same_created_schema cs r).0 i)

      created_out :
          (cs : List (Change V B)) (r : ArenaIdx)
          → Elem r
              (filter_map created_schema (retain_views (retain_macros (retain_tables (last cs)))))
          → Elem r (filter_map created_schema cs)
      created_out cs r i =
          (same_created_schema cs r).1 (subst (Elem r) (created_schema_passes cs) i)

      deleted_in :
          (cs : List (Change V B)) (r : ArenaIdx)
          → Elem r (filter_map deleted_schema cs)
          → Elem r
              (filter_map deleted_schema (retain_views (retain_macros (retain_tables (last cs)))))
      deleted_in cs r i =
          subst (Elem r) (sym (deleted_schema_passes cs)) ((same_deleted_schema cs r).0 i)

      deleted_out :
          (cs : List (Change V B)) (r : ArenaIdx)
          → Elem r
              (filter_map deleted_schema (retain_views (retain_macros (retain_tables (last cs)))))
          → Elem r (filter_map deleted_schema cs)
      deleted_out cs r i =
          (same_deleted_schema cs r).1 (subst (Elem r) (deleted_schema_passes cs) i)
