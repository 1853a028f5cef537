-- ===== src/Transaction/Applied/Resolution/Sound.antt =====
-- Every conflict that `check_conflict` reports is one of the matrix of Footprint.
use ducklake_sdk.Common.{◌≡◌, refl, sym, ap, inl, inr, true, some, list_beq, list_beq_iff, nat_eq}
use ducklake_sdk.Common.Int.{ℤ, ℤ_beq, ℤ_beq_iff}
use ducklake_sdk.Common.Text.{eq_ignore_ascii_case}
use ducklake_sdk.Typedefs.Regex.{RegexCrate}
use ducklake_sdk.Typedefs.Names.{qualified_name_beq, qualified_name_beq_iff}
use ducklake_sdk.Typedefs.Layout.{scalar, table as table_macro}
use ducklake_sdk.Catalog.Entities.{Catalog}
use ducklake_sdk.Transaction.Applied.{
  AppliedChange, created_schema, created_table, created_view, created_scalar_macro,
  created_table_macro, inserted_into_table, deleted_from_table, compacted_table, inlined_insert,
  inlined_delete, dropped_schema, dropped_table, dropped_view, dropped_scalar_macro,
  dropped_table_macro, altered_table, altered_view,
}
use ducklake_sdk.Transaction.Applied.Conflict.{check_conflict}
use ducklake_sdk.Transaction.Applied.Footprint.{
  schema, table, view, macro, Conflicts, same_schema, same_relation, same_macro, same_drop,
  drop_of_used, use_of_dropped, stale_alter, stale_insert, stale_delete, stale_compaction,
}
use ducklake_sdk.Transaction.Applied.Resolution.{
  IsConflict, conflict_if-true, dropped_under_conflict, dropped_under_macro_conflict,
}

same_id : {B : Type 0} (f : ℤ → B) (l r : ℤ) → ℤ_beq l r ≡ true → f r ≡ f l
same_id f l r h = ap f (sym ((ℤ_beq_iff l r).0 h))

module _ {V : Type 0} (regexes : RegexCrate) (catalog : Catalog V) where
  pub sound :
      (l r : AppliedChange)
      → IsConflict (check_conflict regexes catalog l r)
      → Conflicts regexes catalog l r
  unfolding check_conflict
  sound (created_schema l) (created_schema r) h =
      same_schema l refl
        (ap some (sym ((list_beq_iff l r).0 (conflict_if-true (list_beq l r) _ h))))
  sound (dropped_schema l) (dropped_schema r) h =
      same_drop (schema l) refl
        (same_id (λ i. some (schema i)) l r (conflict_if-true (ℤ_beq l r) _ h))
  sound (dropped_schema l) (created_table r) h =
      drop_of_used l r.schema refl refl (dropped_under_conflict regexes catalog l r.schema _ h)
  sound (created_table l) (dropped_schema r) h =
      use_of_dropped r l.schema refl refl (dropped_under_conflict regexes catalog r l.schema _ h)
  sound (dropped_schema l) (created_view r) h =
      drop_of_used l r.schema refl refl (dropped_under_conflict regexes catalog l r.schema _ h)
  sound (created_view l) (dropped_schema r) h =
      use_of_dropped r l.schema refl refl (dropped_under_conflict regexes catalog r l.schema _ h)
  sound (dropped_schema l) (created_scalar_macro r) h =
      let (s, e, f) = dropped_under_macro_conflict regexes catalog l r h in
      drop_of_used l s refl f e
  sound (created_scalar_macro l) (dropped_schema r) h =
      let (s, e, f) = dropped_under_macro_conflict regexes catalog r l h in
      use_of_dropped r s f refl e
  sound (dropped_schema l) (created_table_macro r) h =
      let (s, e, f) = dropped_under_macro_conflict regexes catalog l r h in
      drop_of_used l s refl f e
  sound (created_table_macro l) (dropped_schema r) h =
      let (s, e, f) = dropped_under_macro_conflict regexes catalog r l h in
      use_of_dropped r s f refl e
  sound (created_table l) (created_table r) h = same_relation l refl (
      ap some
        (sym ((qualified_name_beq_iff l r).0 (conflict_if-true (qualified_name_beq l r) _ h))))
  sound (dropped_table l) (dropped_table r) h =
      same_drop (table l) refl
        (same_id (λ i. some (table i)) l r (conflict_if-true (ℤ_beq l r) _ h))
  sound (altered_table l) (altered_table r) h =
      stale_alter (table l) refl
        (inl (same_id (λ i. some (table i)) l r (conflict_if-true (ℤ_beq l r) _ h)))
  sound (altered_table l) (dropped_table r) h =
      stale_alter (table l) refl
        (inr (same_id (λ i. some (table i)) l r (conflict_if-true (ℤ_beq l r) _ h)))
  sound (created_view l) (created_view r) h = same_relation l refl (
      ap some
        (sym ((qualified_name_beq_iff l r).0 (conflict_if-true (qualified_name_beq l r) _ h))))
  sound (dropped_view l) (dropped_view r) h =
      same_drop (view l) refl (same_id (λ i. some (view i)) l r (conflict_if-true (ℤ_beq l r) _ h))
  sound (altered_view l) (altered_view r) h =
      stale_alter (view l) refl
        (inl (same_id (λ i. some (view i)) l r (conflict_if-true (ℤ_beq l r) _ h)))
  sound (altered_view l) (dropped_view r) h =
      stale_alter (view l) refl
        (inr (same_id (λ i. some (view i)) l r (conflict_if-true (ℤ_beq l r) _ h)))
  sound (created_scalar_macro l) (created_scalar_macro r) h =
      same_macro scalar l r refl refl (conflict_if-true (eq_ignore_ascii_case l r) _ h)
  sound (created_table_macro l) (created_table_macro r) h =
      same_macro table_macro l r refl refl (conflict_if-true (eq_ignore_ascii_case l r) _ h)
  sound (dropped_scalar_macro l) (dropped_scalar_macro r) h =
      same_drop (macro l) refl
        (same_id (λ i. some (macro i)) l r (conflict_if-true (ℤ_beq l r) _ h))
  sound (dropped_scalar_macro l) (dropped_table_macro r) h =
      same_drop (macro l) refl
        (same_id (λ i. some (macro i)) l r (conflict_if-true (ℤ_beq l r) _ h))
  sound (dropped_table_macro l) (dropped_scalar_macro r) h =
      same_drop (macro l) refl
        (same_id (λ i. some (macro i)) l r (conflict_if-true (ℤ_beq l r) _ h))
  sound (dropped_table_macro l) (dropped_table_macro r) h =
      same_drop (macro l) refl
        (same_id (λ i. some (macro i)) l r (conflict_if-true (ℤ_beq l r) _ h))
  sound (created_table l) (created_view r) h = same_relation l refl (
      ap some
        (sym ((qualified_name_beq_iff l r).0 (conflict_if-true (qualified_name_beq l r) _ h))))
  sound (created_view l) (created_table r) h = same_relation l refl (
      ap some
        (sym ((qualified_name_beq_iff l r).0 (conflict_if-true (qualified_name_beq l r) _ h))))
  sound (inserted_into_table l) (dropped_table r) h =
      stale_insert l refl
        (inr (same_id (λ i. some (table i)) l r (conflict_if-true (ℤ_beq l r) _ h)))
  sound (inserted_into_table l) (altered_table r) h =
      stale_insert l refl
        (inl (same_id (λ i. some (table i)) l r (conflict_if-true (ℤ_beq l r) _ h)))
  sound (inlined_insert l) (dropped_table r) h =
      stale_insert l refl
        (inr (same_id (λ i. some (table i)) l r (conflict_if-true (ℤ_beq l r) _ h)))
  sound (inlined_insert l) (altered_table r) h =
      stale_insert l refl
        (inl (same_id (λ i. some (table i)) l r (conflict_if-true (ℤ_beq l r) _ h)))
  sound (deleted_from_table l) (dropped_table r) h =
      stale_delete l refl
        (inr (inl (same_id (λ i. some (table i)) l r (conflict_if-true (ℤ_beq l r) _ h))))
  sound (deleted_from_table l) (altered_table r) h =
      stale_delete l refl
        (inl (same_id (λ i. some (table i)) l r (conflict_if-true (ℤ_beq l r) _ h)))
  sound (deleted_from_table l) (deleted_from_table r) h =
      stale_delete l refl (
        inr
          (inr (inl (same_id (λ i. deleted_from_table i) l r (conflict_if-true (ℤ_beq l r) _ h)))))
  sound (deleted_from_table l) (compacted_table r) h =
      stale_delete l refl
        (inr (inr (inr (same_id (λ i. some i) l r (conflict_if-true (ℤ_beq l r) _ h)))))
  sound (inlined_delete l) (dropped_table r) h =
      stale_delete l refl
        (inr (inl (same_id (λ i. some (table i)) l r (conflict_if-true (ℤ_beq l r) _ h))))
  sound (inlined_delete l) (altered_table r) h =
      stale_delete l refl
        (inl (same_id (λ i. some (table i)) l r (conflict_if-true (ℤ_beq l r) _ h)))
  sound (inlined_delete l) (deleted_from_table r) h =
      stale_delete l refl (
        inr
          (inr (inl (same_id (λ i. deleted_from_table i) l r (conflict_if-true (ℤ_beq l r) _ h)))))
  sound (inlined_delete l) (compacted_table r) h =
      stale_delete l refl
        (inr (inr (inr (same_id (λ i. some i) l r (conflict_if-true (ℤ_beq l r) _ h)))))
  sound (compacted_table l) (dropped_table r) h =
      stale_compaction l refl
        (inl (same_id (λ i. some (table i)) l r (conflict_if-true (ℤ_beq l r) _ h)))
  sound (compacted_table l) (deleted_from_table r) h =
      stale_compaction l refl (inr (same_id (λ i. some i) l r (conflict_if-true (ℤ_beq l r) _ h)))
  sound (compacted_table l) (inlined_delete r) h =
      stale_compaction l refl (inr (same_id (λ i. some i) l r (conflict_if-true (ℤ_beq l r) _ h)))
  sound _ _ h = absurd h
