-- ===== src/Transaction/Commit.antt =====
-- `Transaction::commit` of crates/ducklake/src/transaction/mod.rs: at most eleven attempts, with a
-- check for conflicts between them.
pub mod Success
pub mod Attempts
pub mod Empty
use ducklake_sdk.Common.{
  ℕ, zero, suc, ◌+◌, ◌≡◌, Bool, true, false, not, ◌&&◌, ◌||◌, List, [], ◌∷◌, Option, none, some, Eq,
  ltb, any, map, if◌then◌else◌,
}
use ducklake_sdk.Common.Int.{ℤ, pos, add_i64, int_eq}
use ducklake_sdk.Common.IntMap.{IntMap}
use ducklake_sdk.Common.Text.{Text}
use ducklake_sdk.Common.Unique.{contains}
use ducklake_sdk.Common.Error.{
  ◌>>=◌, ◌>>◌, Result, ok, err, DucklakeError, database, DatabaseError, unique_violation,
  table_already_exists, retries_exceeded, panicked, collect,
}
use ducklake_sdk.Spec.Entities.{DucklakeSnapshot, DucklakeSnapshotChanges}
use ducklake_sdk.Catalog.Entities.{Catalog}
use ducklake_sdk.Caches.Snapshot.{SnapshotInfo}
use ducklake_sdk.Caches.TableStats.{TableStats}
use ducklake_sdk.Typedefs.Regex.{RegexCrate}
use ducklake_sdk.Transaction.Change.{Change}
use ducklake_sdk.Transaction.ChangeSet.{new, is_empty, set_changes_schema, set_requires_table_stats}
use ducklake_sdk.Transaction.CommitState.{CommitState, to_snapshot}
use ducklake_sdk.Transaction.CommitState
use ducklake_sdk.Transaction.Record.{
  applied_change_set, table_ids_with_inline_data_writes, created_table_ids,
  table_ids_with_schema_changes,
}
use ducklake_sdk.Transaction.Applied.{AppliedChange, display_set}
use ducklake_sdk.Transaction.Applied.Conflict.{check_sets}
use ducklake_sdk.Transaction.Applied.Parse.{parse_set}
use ducklake_sdk.Transaction.Attempt.{World, apply_changes}

-- What a transaction holds.
pub record Transaction (V B : Type 0) : Type 0 where
  pub changes : List (Change V B)
  pub snapshot : SnapshotInfo
  pub catalog : Catalog V

-- A commit that went through: the number of the attempt, the snapshot that it was based on, and
-- the snapshot that it wrote.
pub record Committed : Type 0 where
  pub attempt : ℕ
  pub base : SnapshotInfo
  pub written : DucklakeSnapshot

abbrev pub max_retry_count : ℕ
max_retry_count = 10

-- The errors after which a commit is tried again.
unfoldable pub is_retryable : ℕ → DucklakeError → Bool
is_retryable i (database unique_violation) = true
is_retryable i (database table_already_exists) = ltb i max_retry_count
is_retryable i _ = false

module _ {V B : Type 0} (regexes : RegexCrate) (world : World V B) where
  -- `get_snapshot_changes`: what the snapshots after `from_id` up to `to_snapshot` recorded.
  unfoldable pub get_snapshot_changes : ℕ → ℤ → ℤ → Result (List (List AppliedChange))
  unfolding parse_set
  get_snapshot_changes i from_id to_id =
      world.fetch_changes i (add_i64 from_id (pos 1)) to_id >>= λ texts.
      collect (parse_set regexes) texts

  -- The check of the transaction's changes against those of each snapshot in turn.
  unfoldable pub check_snapshots :
      Catalog V → List AppliedChange → List (List AppliedChange) → Result (Unit {0})
  unfolding check_sets
  check_snapshots catalog applied [] = ok tt
  check_snapshots catalog applied (snapshot ∷ snapshots) =
      check_sets regexes catalog applied snapshot >> check_snapshots catalog applied snapshots

  module _ (tx : Transaction V B) (changes : List (Change V B)) where
    -- Between two attempts: the latest snapshot, if nothing that it brings is in conflict.
    unfoldable pub refresh : ℕ → CommitState V → Result SnapshotInfo
    unfolding applied_change_set get_snapshot_changes check_snapshots
    refresh i state = world.get_latest i >>= λ latest.
        get_snapshot_changes i tx.snapshot.id latest.id >>= λ changes_made.
        (applied_change_set changes state).0 >>= λ applied.
        check_snapshots tx.catalog applied changes_made >>= λ u. ok latest

    -- `CommitState::new` for an attempt, with the statistics if they are needed.
    unfoldable pub start : ℕ → SnapshotInfo → Result (CommitState V)
    unfolding set_requires_table_stats set_changes_schema CommitState.new
    start i latest =
        (if set_requires_table_stats changes
          then (world.table_stats i >>= λ table_stats. ok (some table_stats))
          else ok none)
        >>= λ table_stats.
            ok (CommitState.new latest tx.catalog (set_changes_schema changes) table_stats)

    -- What follows an attempt; `again` is the rest of the loop.
    abbrev after :
        ℕ
        → SnapshotInfo
        → Result DucklakeSnapshot × CommitState V
        → (SnapshotInfo → Result Committed)
        → Result Committed
    after i latest (ok written, state) again =
        ok (record { attempt = i; base = latest; written = written })
    after i latest (err e, state) again = elim (is_retryable i e) [
      | true ↦ (refresh i state >>= again)
      | false ↦ err e
    ]

    -- The loop, with `fuel` attempts left.
    unfoldable pub attempts : ℕ → ℕ → SnapshotInfo → Result Committed
    unfolding is_retryable apply_changes refresh start
    attempts zero i latest = err retries_exceeded
    attempts (suc fuel) i latest = start i latest >>= λ state.
        after i latest (apply_changes world i changes state) (attempts fuel (suc i))

  -- `Transaction::commit`: nothing is written for an empty set of changes.
  unfoldable pub commit : Transaction V B → Result (Option Committed)
  unfolding new is_empty attempts
  commit tx =
      let changes = new tx.changes in
      elim (is_empty changes) [
        | true ↦ ok none
        | false ↦ attempts tx changes (suc max_retry_count) 0 tx.snapshot >>= λ committed.
            ok (some committed)
      ]
