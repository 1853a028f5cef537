-- ===== src/Transaction/ChangeSet/Trace.antt =====
-- What `ChangeSet::new` leaves of a set of changes: its order, its keys, and the traces of what is
-- created and deleted.
use ducklake_sdk.Common.{
  ◌≡◌, sym, ◌∙◌, subst, ◌⊎◌, inl, inr, List, none, some, nat_eq, filter_map, Elem, Elem-filter_map,
  Elem-of_filter_map, map, Option-cases,
}
use ducklake_sdk.Common.Unique.KeepLast.{keep_last-Subseq}
use ducklake_sdk.Catalog.Entities.{ArenaIdx}
use ducklake_sdk.Transaction.Change.{
  Change, delete_table, hashable, hashable_change_eq, affected_table_ref,
}
use ducklake_sdk.Transaction.ChangeSet.{
  created_table, deleted_table, retain_tables, retain_macros, retain_views, retain_schemas, new,
}
use ducklake_sdk.Common.Unique.KeepLast.{Elem-keep_last}
use ducklake_sdk.Transaction.ChangeSet.Cancel.{some_inj, Cancels, Cancelled}
use ducklake_sdk.Transaction.ChangeSet.Keys.{same_deleted_table}
use ducklake_sdk.Common.{Subseq, Distinct, Subseq-trans, retain-Subseq}
use ducklake_sdk.Common.Unique.KeepLast.{keep_last-Distinct, map_Subseq-Distinct}
use ducklake_sdk.Transaction.ChangeSet.Stages.{last, new-passes}
use ducklake_sdk.Transaction.ChangeSet.Exact.{Elem-new}

module _ {V B : Type 0} where
  deletes_affected :
      (c : Change V B) (r : ArenaIdx) → deleted_table c ≡ some r → affected_table_ref c ≡ some r
  unfolding affected_table_ref
  deletes_affected (delete_table table_ref detach_files) r h = h
  deletes_affected _ r h = cc

  passes-Subseq :
      (cs : List (Change V B))
      → Subseq (retain_schemas (retain_views (retain_macros (retain_tables cs)))) cs
  passes-Subseq cs =
      let t = retain_tables cs in
      let m = retain_macros t in
      let v = retain_views m in
      Subseq-trans (retain_schemas v) v cs (retain-Subseq _ v) (
        Subseq-trans v m cs (retain-Subseq _ m)
          (Subseq-trans m t cs (retain-Subseq _ t) (retain-Subseq _ cs)))

  -- `ChangeSet::new` keeps some of the changes, in their order.
  pub new-Subseq : (cs : List (Change V B)) → Subseq (new cs) cs
  new-Subseq cs =
      subst (λ l. Subseq l cs) (sym (new-passes cs))
        (Subseq-trans _ (last cs) cs (passes-Subseq (last cs)) (keep_last-Subseq hashable cs))

  -- No two changes that `ChangeSet::new` keeps have the same key.
  pub new-Distinct : (cs : List (Change V B)) → Distinct (map hashable (new cs))
  new-Distinct cs =
      subst (λ l. Distinct (map hashable l)) (sym (new-passes cs))
        (map_Subseq-Distinct hashable _ (last cs) (passes-Subseq (last cs))
          (keep_last-Distinct hashable cs))

  -- A table that is created and deleted again leaves no trace: no change that is kept touches it.
  pub new_created_and_deleted :
      (cs : List (Change V B)) (c : Change V B) (r : ArenaIdx)
      → Elem r (filter_map created_table cs)
      → Elem r (filter_map deleted_table cs)
      → affected_table_ref c ≡ some r
      → ¬ Elem c (new cs)
  new_created_and_deleted cs c r made deleted e i =
      let (l, n) = (Elem-new cs c).0 i in n (inl (cancel (Option-cases (deleted_table c))))
    where
      cancel :
          (deleted_table c ≡ none) ⊎ ((s : ArenaIdx) × (deleted_table c ≡ some s))
          → Cancels
              (filter_map created_table cs)
              (filter_map deleted_table cs)
              (affected_table_ref c)
              (deleted_table c)
      cancel (inl f) = inr (r, f, e, deleted)
      cancel (inr (s, f)) = inl (
        s,
        f,
        subst (λ z. Elem z (filter_map created_table cs))
            (some_inj r s (sym e ∙ deletes_affected c s f)) made,
      )

  -- Of the changes that touch a deleted table, only its deletion is kept.
  pub new_deleted :
      (cs : List (Change V B)) (c : Change V B) (r : ArenaIdx)
      → Elem r (filter_map deleted_table cs)
      → affected_table_ref c ≡ some r
      → Elem c (new cs)
      → deleted_table c ≡ some r
  new_deleted cs c r deleted e i = elim (Option-cases (deleted_table c)) [
    | inl f ↦ let (l, n) = (Elem-new cs c).0 i in absurd (n (inl (inr (r, f, e, deleted))))
    | inr (s, f) ↦ f ∙ sym (deletes_affected c s f) ∙ e
  ]

  deletion-not_Cancelled :
      (cs : List (Change V B)) (c : Change V B) (r : ArenaIdx)
      → deleted_table c ≡ some r
      → ¬ Elem r (filter_map created_table cs)
      → ¬ Cancelled c cs
  deletion-not_Cancelled cs (delete_table t d) r h n (inl (inl (s, e, i))) =
      n (subst (λ z. Elem z (filter_map created_table cs)) (some_inj s r (sym e ∙ h)) i)
  deletion-not_Cancelled cs (delete_table t d) r h n (inl (inr (s, e, q, i))) = cc
  deletion-not_Cancelled cs (delete_table t d) r h n (inr (inl (inl (s, e, i)))) = cc
  deletion-not_Cancelled cs (delete_table t d) r h n (inr (inl (inr (s, e, q, i)))) = cc
  deletion-not_Cancelled cs (delete_table t d) r h n (inr (inr (inl (inl (s, e, i))))) = cc
  deletion-not_Cancelled cs (delete_table t d) r h n (inr (inr (inl (inr (s, e, q, i))))) = cc
  deletion-not_Cancelled cs (delete_table t d) r h n (inr (inr (inr (inl (s, e, i))))) = cc
  deletion-not_Cancelled cs (delete_table t d) r h n (inr (inr (inr (inr (s, e, q, i))))) = cc
  deletion-not_Cancelled cs _ r h n z = cc

  -- The deletion of a table that the transaction has not created is kept.
  pub new_deletion_kept :
      (cs : List (Change V B)) (r : ArenaIdx)
      → Elem r (filter_map deleted_table cs)
      → ¬ Elem r (filter_map created_table cs)
      → Elem r (filter_map deleted_table (new cs))
  new_deletion_kept cs r deleted n =
      let (c, i, e) =
        Elem-of_filter_map deleted_table r (last cs) ((same_deleted_table cs r).0 deleted) in
      Elem-filter_map deleted_table c r (new cs)
        ((Elem-new cs c).1 ((Elem-keep_last hashable cs c).0 i, deletion-not_Cancelled cs c r e n))
        e
