-- ===== src/Transaction/ChangeSet/Idempotent.antt =====
-- `ChangeSet::new` has nothing to do on its own result.
use ducklake_sdk.Common.{
  ◌≡◌, ap, ◌∙◌, inl, inr, List, Option, nat_eq, filter_map, Elem, Elem-filter_map,
  Elem-of_filter_map, Elem-Subseq,
}
use ducklake_sdk.Catalog.Entities.{ArenaIdx}
use ducklake_sdk.Transaction.Change.{Change, hashable, hashable_change_eq, affected_table_ref}
use ducklake_sdk.Transaction.ChangeSet.{
  created_table, deleted_table, created_macro, deleted_macro, created_view, deleted_view,
  created_schema, deleted_schema, retain_tables, retain_macros, retain_views, retain_schemas, new,
}
use ducklake_sdk.Transaction.ChangeSet.Cancel.{
  not_Cancels-keeps_pair, Cancels-mono, keeps_table-pair, keeps_macro-pair, keeps_view-pair,
  keeps_schema-pair,
}
use ducklake_sdk.Common.{retain_all}
use ducklake_sdk.Common.Unique.KeepLast.{keep_last_id}
use ducklake_sdk.Transaction.ChangeSet.Stages.{new-passes}
use ducklake_sdk.Transaction.ChangeSet.Exact.{Elem-new}
use ducklake_sdk.Transaction.ChangeSet.Trace.{new-Subseq, new-Distinct}

module _ {V B : Type 0} where
  -- What the result collects, the input does.
  refs_before :
      (f : Change V B → Option ArenaIdx) (cs : List (Change V B)) (r : ArenaIdx)
      → Elem r (filter_map f (new cs))
      → Elem r (filter_map f cs)
  refs_before f cs r i =
      let (c, j, e) = Elem-of_filter_map f r (new cs) i in
      Elem-filter_map f c r cs (Elem-Subseq c (new cs) cs (new-Subseq cs) j) e

  tables_stay : (cs : List (Change V B)) → retain_tables (new cs) ≡ new cs
  tables_stay cs = retain_all _ (new cs) (λ c i.
      keeps_table-pair _ _ c
      ∙ not_Cancels-keeps_pair _ _ (affected_table_ref c) (deleted_table c) (λ w.
        let z =
          Cancels-mono _ _ _ _ (affected_table_ref c) (deleted_table c)
            (refs_before created_table cs) (refs_before deleted_table cs) w in
        ((Elem-new cs c).0 i).1 (inl z)))

  macros_stay : (cs : List (Change V B)) → retain_macros (new cs) ≡ new cs
  macros_stay cs = retain_all _ (new cs) (λ c i.
      keeps_macro-pair _ _ c
      ∙ not_Cancels-keeps_pair _ _ (created_macro c) (deleted_macro c) (λ w.
        let z =
          Cancels-mono _ _ _ _ (created_macro c) (deleted_macro c) (refs_before created_macro cs)
            (refs_before deleted_macro cs) w in
        ((Elem-new cs c).0 i).1 (inr (inl z))))

  views_stay : (cs : List (Change V B)) → retain_views (new cs) ≡ new cs
  views_stay cs = retain_all _ (new cs) (λ c i.
      keeps_view-pair _ _ c
      ∙ not_Cancels-keeps_pair _ _ (created_view c) (deleted_view c) (λ w.
        let z =
          Cancels-mono _ _ _ _ (created_view c) (deleted_view c) (refs_before created_view cs)
            (refs_before deleted_view cs) w in
        ((Elem-new cs c).0 i).1 (inr (inr (inl z)))))

  schemas_stay : (cs : List (Change V B)) → retain_schemas (new cs) ≡ new cs
  schemas_stay cs = retain_all _ (new cs) (λ c i.
      keeps_schema-pair _ _ c
      ∙ not_Cancels-keeps_pair _ _ (created_schema c) (deleted_schema c) (λ w.
        let z =
          Cancels-mono _ _ _ _ (created_schema c) (deleted_schema c) (refs_before created_schema cs)
            (refs_before deleted_schema cs) w in
        ((Elem-new cs c).0 i).1 (inr (inr (inr z)))))

  -- `ChangeSet::new` is idempotent.
  pub new-new : (cs : List (Change V B)) → new (new cs) ≡ new cs
  new-new cs =
      new-passes (new cs)
      ∙ ap (λ l. retain_schemas (retain_views (retain_macros (retain_tables l))))
          (keep_last_id hashable (new cs) (new-Distinct cs))
      ∙ ap (λ l. retain_schemas (retain_views (retain_macros l))) (tables_stay cs)
      ∙ ap (λ l. retain_schemas (retain_views l)) (macros_stay cs)
      ∙ ap (λ l. retain_schemas l) (views_stay cs)
      ∙ schemas_stay cs
