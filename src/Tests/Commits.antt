-- ===== src/Tests/Commits.antt =====
-- Commits: one that is tried again after another writer, and one with nothing to commit.
use ducklake_sdk.Common.{
  ℕ, zero, suc, ◌≡◌, refl, ap, ◌∙◌, true, ◌≤◌, ◌↔◌, ◌⊎◌, inl, inr, List, [], ◌∷◌, none, some, Elem,
  filter_map,
}
use ducklake_sdk.Common.Int.{pos, ◌+ℤ◌, add_i64, wrap_i64}
use ducklake_sdk.Common.Text.{codes, split, splitn2}
use ducklake_sdk.Common.Text.Decimal.{parse_i64}
use ducklake_sdk.Common.Unique.{unique_by, contains}
use ducklake_sdk.Common.Error.{ok, err, database, unique_violation, DucklakeError}
use ducklake_sdk.Caches.Snapshot.{SnapshotInfo}
use ducklake_sdk.Catalog.Entities.{ArenaIdx}
use ducklake_sdk.Typedefs.Layout.{relative}
use ducklake_sdk.Typedefs.Regex.{backtracking}
use ducklake_sdk.Common.Run.{return}
use ducklake_sdk.Transaction.Change.{
  Change, create_schema, delete_table, hashable, affected_table_ref, changes_schema,
  requires_table_stats, table_ref_with_schema_change,
}
use ducklake_sdk.Transaction.ChangeSet.{
  new, is_empty, set_changes_schema, set_requires_table_stats, table_refs_with_schema_changes,
  created_table, deleted_table,
}
use ducklake_sdk.Transaction.CommitState.{CommitState, to_snapshot}
use ducklake_sdk.Transaction.CommitState
use ducklake_sdk.Transaction.Record.{
  applied_change, applied_change_set, table_ids_with_inline_data_writes, created_table_ids,
  table_ids_with_schema_changes,
}
use ducklake_sdk.Transaction.Applied.{AppliedChange, dropped_view}
use ducklake_sdk.Transaction.Applied
use ducklake_sdk.Transaction.Applied.Conflict.{check_conflict, check_against, check_sets}
use ducklake_sdk.Transaction.Applied.Footprint.{Conflicts}
use ducklake_sdk.Transaction.Applied.Parse.{parse_id, parse_change, parse, parse_set}
use ducklake_sdk.Transaction.Attempt.{World, finalize_commit, apply_changes}
use ducklake_sdk.Transaction.Commit.{
  Transaction, Committed, max_retry_count, is_retryable, get_snapshot_changes, check_snapshots,
  refresh, start, attempts, commit,
}
use ducklake_sdk.Transaction.Commit.Success.{commit-no_conflict, IsBase}
use ducklake_sdk.Transaction.Commit.Attempts.{Ends, attempts-Ends}
use ducklake_sdk.Transaction.Commit.Empty.{commit_no_trace}
use ducklake_sdk.Tests.Conflicts.{small_catalog}
use ducklake_sdk.Tests.ChangeSets.{short_lived, creation, rename}

abbrev info : ℕ → SnapshotInfo
info n = record {
  id = pos n;
  schema_version = pos 1;
  next_catalog_id = pos 7;
  next_file_id = pos 0;
}

-- Another writer has committed snapshot 5 before the first attempt.
abbrev busy : World ℕ ℕ
busy = record {
  table_stats = λ i. ok [];
  apply = λ i changes. return tt;
  persist = λ i snapshot changes versions. elim i [
    | zero ↦ err (database unique_violation)
    | suc j ↦ ok tt
  ];
  get_latest = λ i. ok (info 5);
  fetch_changes = λ i from_id to_id. ok (codes "dropped_view:3" ∷ []);
}

abbrev tx : Transaction ℕ ℕ
tx = record {
  changes = create_schema 1 (codes "s") (relative (codes "s/")) ∷ [];
  snapshot = info 4;
  catalog = small_catalog;
}

abbrev committed : Committed
committed = record {
  attempt = 1;
  base = info 5;
  written = record {
    snapshot_id = pos 6;
    schema_version = pos 2;
    next_catalog_id = pos 7;
    next_file_id = pos 0;
  };
}

retried_once : commit backtracking busy tx ≡ ok (some committed)
unfolding commit new is_empty attempts is_retryable apply_changes refresh start
    set_requires_table_stats set_changes_schema CommitState.new add_i64 wrap_i64 ◌+ℤ◌
    get_snapshot_changes check_snapshots check_sets check_against check_conflict parse_set parse
    parse_change parse_id parse_i64 split splitn2 unique_by contains hashable affected_table_ref
    changes_schema requires_table_stats table_ref_with_schema_change applied_change_set
    applied_change table_ids_with_inline_data_writes created_table_ids table_ids_with_schema_changes
    table_refs_with_schema_changes finalize_commit to_snapshot Applied.new
retried_once = refl

commit-no_conflict_example :
    (committed.attempt ≤ max_retry_count)
    × (((committed.attempt ≡ 0) × (committed.base ≡ tx.snapshot))
        ⊎ ((before : ℕ) × (previous : SnapshotInfo) × (started : CommitState ℕ)
            × (failed : CommitState ℕ) × (e : DucklakeError) × (others : List (List AppliedChange))
            × (applied : List AppliedChange) × (committed.attempt ≡ suc before)
            × IsBase backtracking busy tx (new tx.changes) before previous
            × (start backtracking busy tx (new tx.changes) before previous ≡ ok started)
            × (apply_changes busy before (new tx.changes) started ≡ (err e, failed))
            × (is_retryable before e ≡ true)
            × (busy.get_latest before ≡ ok committed.base)
            × (get_snapshot_changes backtracking busy before tx.snapshot.id committed.base.id
                ≡ ok others)
            × ((applied_change_set (new tx.changes) failed).0 ≡ ok applied)
            × ((l r : AppliedChange) (snapshot : List AppliedChange)
                → Elem snapshot others
                → Elem l applied
                → Elem r snapshot
                → ¬ Conflicts backtracking small_catalog l r)))
commit-no_conflict_example = commit-no_conflict backtracking busy tx committed retried_once

attempts-Ends_example :
    (attempts backtracking busy tx tx.changes (suc max_retry_count) 0 tx.snapshot ≡ ok committed)
    ↔ Ends backtracking busy tx tx.changes (ok committed)
attempts-Ends_example = attempts-Ends backtracking busy tx tx.changes (ok committed)

abbrev quiet : Transaction ℕ ℕ
quiet = record { changes = short_lived; snapshot = info 4; catalog = small_catalog }

creation_affects : affected_table_ref creation ≡ some 4
unfolding affected_table_ref
creation_affects = refl

rename_affects : affected_table_ref rename ≡ some 4
unfolding affected_table_ref
rename_affects = refl

deletion_affects : affected_table_ref {V = ℕ} {B = ℕ} (delete_table 4 true) ≡ some 4
unfolding affected_table_ref
deletion_affects = refl

table_four :
    (c : Change ℕ ℕ)
    → Elem c short_lived
    → (r : ArenaIdx) × (affected_table_ref c ≡ some r)
      × (Elem r (filter_map created_table short_lived))
      × (Elem r (filter_map deleted_table short_lived))
table_four c (inl e) = (4, ap affected_table_ref e ∙ creation_affects, inl refl, inl refl)
table_four c (inr (inl e)) = (4, ap affected_table_ref e ∙ rename_affects, inl refl, inl refl)
table_four c (inr (inr (inl e))) =
    (4, ap affected_table_ref e ∙ deletion_affects, inl refl, inl refl)
table_four c (inr (inr (inr i))) = absurd i

commit_no_trace_example : commit backtracking busy quiet ≡ ok none
commit_no_trace_example = commit_no_trace backtracking busy quiet table_four
