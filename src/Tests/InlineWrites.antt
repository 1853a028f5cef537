-- ===== src/Tests/InlineWrites.antt =====
-- Two batches of inline data for one table.
use ducklake_sdk.Common.{ℕ, ◌≡◌, refl, List, [], ◌∷◌, ◌++◌, map, Option, none, some}
use ducklake_sdk.Common.Int.{ℤ, pos}
use ducklake_sdk.Common.IntMap.{or_default}
use ducklake_sdk.Transaction.Typedefs.{CommitInlineData}
use ducklake_sdk.Transaction.Executors.TableWrite.{next_row_id}
use ducklake_sdk.Transaction.Executors.TableWrite.Success.{IsSome}
use ducklake_sdk.Transaction.Executors.InlineWrite.{InlineChanges, write_table_inline_data}
use ducklake_sdk.Transaction.Executors.InlineWrite.Ranges.{
  row_id_behind, numbered, write_table_inline_data-numbered,
}
use ducklake_sdk.Tests.Writes.{compare_values, s, has_id, starts_at_zero}

-- A batch is one column of numbers, which Arrow returns with the row IDs.
abbrev Batch : Type 0
Batch = List ℕ × List ℤ

abbrev add_columns : Batch → List ℤ → List ℤ → List (Option ℤ) → Option Batch
add_columns batch row_ids first last = some (batch.0, row_ids)

abbrev batches : List (CommitInlineData ℕ Batch)
batches =
    record {
      num_rows = 2;
      columns = (4 ∷ 5 ∷ [], []);
      column_stats =
          (
            record { table_ref = 0; column_idx = 0 },
            record {
              min_value = some 4;
              max_value = some 5;
              null_count = some 0;
              contains_nan = none;
            },
          )
          ∷ [];
    }
    ∷ record { num_rows = 1; columns = (6 ∷ [], []); column_stats = [] }
    ∷ []

abbrev empty : InlineChanges Batch
empty = record { inline_data = []; written_columns = [] }

inlined : IsSome (write_table_inline_data compare_values add_columns empty s 0 batches)
unfolding write_table_inline_data
inlined = (_, refl)

write_table_inline_data-numbered_example :
    (next_row_id inlined.0.1 (pos 3) ≡ some (row_id_behind (pos 0) batches))
    × (rows : List Batch) × (or_default [] inlined.0.0.inline_data (pos 3)
        ≡ or_default [] empty.inline_data (pos 3) ++ rows)
    × (map some rows ≡ numbered compare_values add_columns s.snapshot_id (pos 0) batches)
write_table_inline_data-numbered_example =
    write_table_inline_data-numbered compare_values add_columns empty inlined.0.0 s s inlined.0.1 0
      (pos 3) batches (pos 0) has_id starts_at_zero inlined.1
