-- ===== src/Transaction/Applied/Resolution/Exact.antt =====
-- `check_conflict` agrees with the conflict matrix of Footprint in both directions.
use ducklake_sdk.Common.{◌≡◌, ◌⊎◌, inl, inr, ◌↔◌, some, nat_eq}
use ducklake_sdk.Common.Int.{ℤ}
use ducklake_sdk.Typedefs.Regex.{RegexCrate}
use ducklake_sdk.Catalog.Entities.{Catalog}
use ducklake_sdk.Transaction.Applied.{
  AppliedChange, inserted_into_table, deleted_from_table, compacted_table, inlined_insert,
  inlined_delete, dropped_table, dropped_view, altered_table, altered_view,
}
use ducklake_sdk.Transaction.Applied.Conflict.{check_conflict}
use ducklake_sdk.Transaction.Applied.Footprint.{
  Object, schema, table, view, macro, drops, alters, Conflicts, same_schema, same_relation,
  same_macro, same_drop, drop_of_used, use_of_dropped, stale_alter, stale_insert, stale_delete,
  stale_compaction,
}
use ducklake_sdk.Transaction.Applied.Resolution.Sound.{sound}
use ducklake_sdk.Transaction.Applied.Resolution.Complete.{
  Reports, reports, id_test, complete_schema, complete_relation, complete_macro, complete_drop,
  complete_drop_of_used, complete_use_of_dropped,
}
use ducklake_sdk.Transaction.Applied.Resolution.{IsConflict}
use ducklake_sdk.Transaction.Applied.Resolution.Inversion.{
  Dropper, dropper, Alterer, alterer, inserter, deleter, compactor, creator,
}

module _ {V : Type 0} (regexes : RegexCrate) (catalog : Catalog V) where
  complete_alter :
      (l r : AppliedChange) (o : Object)
      → Alterer l o
      → Alterer r o ⊎ Dropper r o
      → Reports regexes catalog l r
  unfolding check_conflict
  complete_alter l r (table id) e (inl f) =
      reports regexes catalog (altered_table id) (altered_table id) e f
        (id_test regexes catalog id _)
  complete_alter l r (table id) e (inr f) =
      reports regexes catalog (altered_table id) (dropped_table id) e f
        (id_test regexes catalog id _)
  complete_alter l r (view id) e (inl f) =
      reports regexes catalog (altered_view id) (altered_view id) e f (id_test regexes catalog id _)
  complete_alter l r (view id) e (inr f) =
      reports regexes catalog (altered_view id) (dropped_view id) e f (id_test regexes catalog id _)
  complete_alter l r (schema id) e f = absurd e
  complete_alter l r (macro id) e f = absurd e

  complete_insert :
      (l r : AppliedChange) (id : ℤ)
      → (l ≡ inserted_into_table id) ⊎ (l ≡ inlined_insert id)
      → (r ≡ altered_table id) ⊎ (r ≡ dropped_table id)
      → Reports regexes catalog l r
  unfolding check_conflict
  complete_insert l r id (inl e) (inl f) =
      reports regexes catalog (inserted_into_table id) (altered_table id) e f
        (id_test regexes catalog id _)
  complete_insert l r id (inl e) (inr f) =
      reports regexes catalog (inserted_into_table id) (dropped_table id) e f
        (id_test regexes catalog id _)
  complete_insert l r id (inr e) (inl f) =
      reports regexes catalog (inlined_insert id) (altered_table id) e f
        (id_test regexes catalog id _)
  complete_insert l r id (inr e) (inr f) =
      reports regexes catalog (inlined_insert id) (dropped_table id) e f
        (id_test regexes catalog id _)

  complete_delete :
      (l r : AppliedChange) (id : ℤ)
      → (l ≡ deleted_from_table id) ⊎ (l ≡ inlined_delete id)
      → (r ≡ altered_table id)
        ⊎ (r ≡ dropped_table id)
        ⊎ (r ≡ deleted_from_table id)
        ⊎ (r ≡ compacted_table id)
      → Reports regexes catalog l r
  unfolding check_conflict
  complete_delete l r id (inl e) (inl f) =
      reports regexes catalog (deleted_from_table id) (altered_table id) e f
        (id_test regexes catalog id _)
  complete_delete l r id (inl e) (inr (inl f)) =
      reports regexes catalog (deleted_from_table id) (dropped_table id) e f
        (id_test regexes catalog id _)
  complete_delete l r id (inl e) (inr (inr (inl f))) =
      reports regexes catalog (deleted_from_table id) (deleted_from_table id) e f
        (id_test regexes catalog id _)
  complete_delete l r id (inl e) (inr (inr (inr f))) =
      reports regexes catalog (deleted_from_table id) (compacted_table id) e f
        (id_test regexes catalog id _)
  complete_delete l r id (inr e) (inl f) =
      reports regexes catalog (inlined_delete id) (altered_table id) e f
        (id_test regexes catalog id _)
  complete_delete l r id (inr e) (inr (inl f)) =
      reports regexes catalog (inlined_delete id) (dropped_table id) e f
        (id_test regexes catalog id _)
  complete_delete l r id (inr e) (inr (inr (inl f))) =
      reports regexes catalog (inlined_delete id) (deleted_from_table id) e f
        (id_test regexes catalog id _)
  complete_delete l r id (inr e) (inr (inr (inr f))) =
      reports regexes catalog (inlined_delete id) (compacted_table id) e f
        (id_test regexes catalog id _)

  complete_compaction :
      (l r : AppliedChange) (id : ℤ)
      → l ≡ compacted_table id
      → (r ≡ dropped_table id) ⊎ (r ≡ deleted_from_table id) ⊎ (r ≡ inlined_delete id)
      → Reports regexes catalog l r
  unfolding check_conflict
  complete_compaction l r id e (inl f) =
      reports regexes catalog (compacted_table id) (dropped_table id) e f
        (id_test regexes catalog id _)
  complete_compaction l r id e (inr (inl f)) =
      reports regexes catalog (compacted_table id) (deleted_from_table id) e f
        (id_test regexes catalog id _)
  complete_compaction l r id e (inr (inr f)) =
      reports regexes catalog (compacted_table id) (inlined_delete id) e f
        (id_test regexes catalog id _)

  gone :
      (r : AppliedChange) (id : ℤ)
      → (alters r ≡ some (table id)) ⊎ (drops r ≡ some (table id))
      → (r ≡ altered_table id) ⊎ (r ≡ dropped_table id)
  gone r id (inl h) = inl (alterer r (table id) h)
  gone r id (inr h) = inr (dropper r (table id) h)

  pub complete : (l r : AppliedChange) → Conflicts regexes catalog l r → Reports regexes catalog l r
  complete l r (same_schema n h k) = complete_schema regexes catalog l r n h k
  complete l r (same_relation n h k) = complete_relation regexes catalog l r n h k
  complete l r (same_macro kind n m h k t) = complete_macro regexes catalog l r kind n m h k t
  complete l r (same_drop o h k) =
      complete_drop regexes catalog l r o (dropper l o h) (dropper r o k)
  complete l r (drop_of_used id s h k e) =
      complete_drop_of_used regexes catalog l r id s (dropper l (schema id) h)
        (creator regexes catalog r s k) e
  complete l r (use_of_dropped id s h k e) =
      complete_use_of_dropped regexes catalog l r id s (creator regexes catalog l s h)
        (dropper r (schema id) k) e
  complete l r (stale_alter o h (inl k)) =
      complete_alter l r o (alterer l o h) (inl (alterer r o k))
  complete l r (stale_alter o h (inr k)) =
      complete_alter l r o (alterer l o h) (inr (dropper r o k))
  complete l r (stale_insert id h k) = complete_insert l r id (inserter l id h) (gone r id k)
  complete l r (stale_delete id h (inl k)) =
      complete_delete l r id (deleter l id h) (inl (alterer r (table id) k))
  complete l r (stale_delete id h (inr (inl k))) =
      complete_delete l r id (deleter l id h) (inr (inl (dropper r (table id) k)))
  complete l r (stale_delete id h (inr (inr (inl k)))) =
      complete_delete l r id (deleter l id h) (inr (inr (inl k)))
  complete l r (stale_delete id h (inr (inr (inr k)))) =
      complete_delete l r id (deleter l id h) (inr (inr (inr (compactor r id k))))
  complete l r (stale_compaction id h (inl k)) =
      complete_compaction l r id (compactor l id h) (inl (dropper r (table id) k))
  complete l r (stale_compaction id h (inr k)) =
      complete_compaction l r id (compactor l id h) (inr (deleter r id k))

  -- `check_conflict` reports a conflict on exactly the pairs of changes that the conflict matrix
  -- of Footprint holds: for any two changes, any catalog and any regular expression crate.
  pub check_conflict-Conflicts :
      (l r : AppliedChange)
      → IsConflict (check_conflict regexes catalog l r) ↔ Conflicts regexes catalog l r
  check_conflict-Conflicts l r = (sound regexes catalog l r, complete l r)
