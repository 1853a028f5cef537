-- ===== src/Transaction/Attempt.antt =====
-- One attempt to commit, `apply_changes` and `finalize_commit` of
-- crates/ducklake/src/transaction/mod.rs. The database is `World`, which answers each attempt by its
-- number.
use ducklake_sdk.Common.{ℕ, not, ◌&&◌, List, any, map, if◌then◌else◌}
use ducklake_sdk.Common.Int.{ℤ, int_eq}
use ducklake_sdk.Common.IntMap.{IntMap}
use ducklake_sdk.Common.Text.{Text}
use ducklake_sdk.Common.Unique.{contains}
use ducklake_sdk.Common.Error.{Result, ok, err, panicked}
use ducklake_sdk.Spec.Entities.{DucklakeSnapshot, DucklakeSnapshotChanges}
use ducklake_sdk.Caches.Snapshot.{SnapshotInfo}
use ducklake_sdk.Caches.TableStats.{TableStats}
use ducklake_sdk.Common.Run.{Run, ◌>>=◌, ◌>>◌, raise}
use ducklake_sdk.Transaction.Change.{Change}
use ducklake_sdk.Transaction.CommitState.{CommitState, to_snapshot}
use ducklake_sdk.Transaction.Record.{
  applied_change_set, table_ids_with_inline_data_writes, created_table_ids,
  table_ids_with_schema_changes,
}
use ducklake_sdk.Transaction.Applied.{AppliedChange, display_set}

-- What a commit asks of the database and its caches, at each attempt: the statistics of the latest
-- snapshot, the rows that `ChangeSet::apply` collects, the database transaction that writes them
-- with the new snapshot, its changes and the schema versions, the latest snapshot, and the recorded
-- changes of the snapshots in a range.
pub record World (V B : Type 0) : Type 0 where
  pub table_stats : ℕ → Result (IntMap (TableStats V))
  pub apply : ℕ → List (Change V B) → Run (CommitState V) (Unit {0})
  pub persist :
      ℕ → DucklakeSnapshot → DucklakeSnapshotChanges → List (ℤ × ℤ × ℤ) → Result (Unit {0})
  pub get_latest : ℕ → Result SnapshotInfo
  pub fetch_changes : ℕ → ℤ → ℤ → Result (List Text)

abbrev written_if : Result (Unit {0}) → DucklakeSnapshot → Result DucklakeSnapshot
written_if (ok u) snapshot = ok snapshot
written_if (err e) snapshot = err e

module _ {V B : Type 0} (world : World V B) where
  -- `finalize_commit`, and the transaction around it.
  unfoldable pub finalize_commit :
      ℕ → List AppliedChange → List ℤ → Run (CommitState V) DucklakeSnapshot
  unfolding to_snapshot display_set
  finalize_commit i applied table_ids s =
      let snapshot = to_snapshot s in
      let snapshot_changes : DucklakeSnapshotChanges = record {
        snapshot_id = s.snapshot_id;
        changes_made = display_set applied;
      } in
      let schema_versions = map (λ id. (s.snapshot_id, s.schema_version, id)) table_ids in
      (written_if (world.persist i snapshot snapshot_changes schema_versions) snapshot, s)

  -- `apply_changes`. Inline data for a table whose schema changes is not implemented.
  unfoldable pub apply_changes : ℕ → List (Change V B) → Run (CommitState V) DucklakeSnapshot
  unfolding applied_change_set table_ids_with_inline_data_writes created_table_ids
      table_ids_with_schema_changes finalize_commit contains
  apply_changes i changes = world.apply i changes >> applied_change_set changes >>= λ applied.
      table_ids_with_inline_data_writes changes >>= λ inline_ids.
      created_table_ids changes >>= λ created_ids.
      table_ids_with_schema_changes changes >>= λ schema_ids.
      if any (λ id. contains schema_ids id && not (contains created_ids id)) inline_ids
      then raise panicked
      else finalize_commit i applied schema_ids
