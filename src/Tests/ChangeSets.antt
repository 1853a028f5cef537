-- ===== src/Tests/ChangeSets.antt =====
-- Sets of changes.
use ducklake_sdk.Common.Unique.{unique_by, contains}
use ducklake_sdk.Common.{
  subst, sym, ℕ, ◌≡◌, refl, ◌↔◌, List, [], ◌∷◌, inl, inr, Elem, none, some, true, map, filter_map,
  Subseq, Distinct,
}
use ducklake_sdk.Common.Text.{codes}
use ducklake_sdk.Common.Unique.KeepLast.{IsLast}
use ducklake_sdk.Typedefs.Layout.{relative}
use ducklake_sdk.Transaction.Change.{
  Change, create_table, rename_table, delete_table, hashable, hashable_change_eq,
  affected_table_ref,
}
use ducklake_sdk.Transaction.ChangeSet.{new, deleted_table}
use ducklake_sdk.Transaction.ChangeSet.Cancel.{Cancelled}
use ducklake_sdk.Transaction.ChangeSet.Exact.{Elem-new}
use ducklake_sdk.Transaction.ChangeSet.Trace.{
  new-Subseq, new-Distinct, new_created_and_deleted, new_deleted, new_deletion_kept,
}
use ducklake_sdk.Transaction.ChangeSet.Idempotent.{new-new}

abbrev pub creation : Change ℕ ℕ
creation = create_table 0 4 (record {
  column_refs = [];
  partition_column_refs = none;
  name = record { schema = codes "main"; name = codes "t" };
  columns = [];
  retired_columns = [];
  partition_columns = none;
  sort_info = none;
  path = relative (codes "t/");
  tags = [];
})

abbrev pub rename : Change ℕ ℕ
rename = rename_table 4 (record { schema = codes "main"; name = codes "u" })

abbrev other_rename : Change ℕ ℕ
other_rename = rename_table 5 (record { schema = codes "main"; name = codes "v" })

-- Table 4 is created, renamed and deleted; table 5 is renamed and deleted.
abbrev pub short_lived : List (Change ℕ ℕ)
short_lived = creation ∷ rename ∷ delete_table 4 true ∷ []

abbrev changes : List (Change ℕ ℕ)
changes = creation ∷ rename ∷ other_rename ∷ delete_table 4 true ∷ delete_table 5 true ∷ []

Elem-new_example :
    Elem other_rename (new changes)
    ↔ (IsLast hashable other_rename changes × (¬ Cancelled other_rename changes))
Elem-new_example = Elem-new changes other_rename

new-Subseq_example : Subseq (new changes) changes
new-Subseq_example = new-Subseq changes

new-Distinct_example : Distinct (map hashable (new changes))
new-Distinct_example = new-Distinct changes

new-new_example : new (new changes) ≡ new changes
new-new_example = new-new changes

rename_affects : affected_table_ref rename ≡ some 4
unfolding affected_table_ref
rename_affects = refl

deletion_affects : affected_table_ref {V = ℕ} {B = ℕ} (delete_table 5 true) ≡ some 5
unfolding affected_table_ref
deletion_affects = refl

new_created_and_deleted_example : ¬ Elem rename (new changes)
new_created_and_deleted_example =
    new_created_and_deleted changes rename 4 (inl refl) (inl refl) rename_affects

new_deletion_kept_example : Elem 5 (filter_map deleted_table (new changes))
new_deletion_kept_example = new_deletion_kept changes 5 (inr (inl refl)) created_four
  where
    created_four : ¬ Elem {A = ℕ} 5 (4 ∷ [])
    created_four (inl e) = cc
    created_four (inr i) = absurd i

abbrev deletion : Change ℕ ℕ
deletion = delete_table 5 true

kept_alone : new (deletion ∷ []) ≡ deletion ∷ []
unfolding new unique_by hashable affected_table_ref contains
kept_alone = refl

kept : Elem deletion (new (deletion ∷ []))
kept = subst (Elem deletion) (sym kept_alone) (inl refl)

new_deleted_example : deleted_table deletion ≡ some 5
new_deleted_example = new_deleted (deletion ∷ []) deletion 5 (inl refl) deletion_affects kept
