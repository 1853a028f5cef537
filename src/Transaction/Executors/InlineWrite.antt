-- ===== src/Transaction/Executors/InlineWrite.antt =====
-- `write_table_inline_data` of crates/ducklake/src/transaction/executors/table_write.rs. `none`
-- stands for a panic, or an error of Arrow.
pub mod Ranges
use ducklake_sdk.Common.{
  ℕ, zero, suc, ◌+◌, ◌-◌, ◌≡◌, List, [], ◌∷◌, ◌++◌, map, Option, none, some, ltb,
}
use ducklake_sdk.Common.Options.{◌>>=◌}
use ducklake_sdk.Common.Int.{ℤ, pos, ◌+ℤ◌, pos_part, neg_part, add_i64}
use ducklake_sdk.Common.IntMap.{IntMap, or_default, insert}
use ducklake_sdk.Catalog.Entities.{ArenaIdx, ColumnRef}
use ducklake_sdk.Caches.TableStats.{
  Ordering, ColumnStats, advance_row_id, add_record_count, update_column, update_contains_null,
  update_contains_nan, update_min_value, update_max_value,
}
use ducklake_sdk.Transaction.Typedefs.{CommitInlineData, ArrayColumnStats}
use ducklake_sdk.Transaction.CommitState.{CommitState, table_id, update_table_stats}
use ducklake_sdk.Transaction.Executors.TableWrite.{as_i64, map_option, column_id, next_row_id}

-- The part of `TransactionChanges` that inline data goes to. A set of IDs is a list.
pub record InlineChanges (B : Type 0) : Type 0 where
  pub inline_data : IntMap (List B)
  pub written_columns : IntMap (List ℤ)

abbrev pub count_up : ℕ → ℤ → List ℤ
unfolding ◌+ℤ◌
count_up zero a = []
count_up (suc n) a = a ∷ count_up n (a +ℤ pos 1)

-- `a..b` on `i64`.
abbrev pub int_range : ℤ → ℤ → List ℤ
int_range a b = count_up ((pos_part b + neg_part a) - (pos_part a + neg_part b)) a

-- `repeat_n`.
abbrev pub repeat_n : {A : Type 0} → A → ℕ → List A
repeat_n a zero = []
repeat_n a (suc n) = a ∷ repeat_n a n

-- Values are compared by code of typedefs/value. `add_columns` is `RecordBatch::try_new` on the
-- columns of a batch with those for the row IDs and the first and last snapshot of each row.
module _ {V B : Type 0} (partial_cmp : V → V → Option Ordering)
    (add_columns : B → List ℤ → List ℤ → List (Option ℤ) → Option B) where
  -- What the statistics of a column in a batch change in those of the table.
  unfoldable pub merge_inline_column : ArrayColumnStats V → ColumnStats V → ColumnStats V
  unfolding update_contains_null update_contains_nan update_min_value update_max_value
  merge_inline_column stats column =
      update_max_value partial_cmp
        (update_min_value partial_cmp
          (update_contains_nan
            (update_contains_null column (map_option (λ c. ltb 0 c) stats.null_count))
            stats.contains_nan)
          stats.min_value)
        stats.max_value

  unfoldable pub merge_inline_columns :
      ℤ → List (ColumnRef × ArrayColumnStats V) → CommitState V → Option (CommitState V)
  unfolding column_id merge_inline_column update_table_stats update_column
  merge_inline_columns table [] s = some s
  merge_inline_columns table ((r, stats) ∷ columns) s = do
    column ← column_id s r
    t ←
        update_table_stats s table
          (λ all_stats. update_column all_stats column (merge_inline_column stats))
    merge_inline_columns table columns t

  -- `update_table_stats_from_inline_data`.
  unfoldable pub update_table_stats_from_inline_data :
      CommitState V → ℤ → CommitInlineData V B → Option (CommitState V)
  unfolding update_table_stats advance_row_id add_record_count as_i64 merge_inline_columns
  update_table_stats_from_inline_data s table d = do
    t ←
        update_table_stats s table
          (λ stats. add_record_count (advance_row_id stats (as_i64 d.num_rows)) (as_i64 d.num_rows))
    merge_inline_columns table d.column_stats t

  -- The IDs of the columns with statistics.
  unfoldable pub stats_column_ids :
      CommitState V → List (ColumnRef × ArrayColumnStats V) → Option (List ℤ)
  unfolding column_id
  stats_column_ids s [] = some []
  stats_column_ids s ((r, stats) ∷ columns) = do
    column ← column_id s r
    ids ← stats_column_ids s columns
    some (column ∷ ids)

  -- The body of the loop: the batch with its new columns, and the IDs of its columns.
  unfoldable pub write_batch :
      ℤ → ℤ → CommitInlineData V B → CommitState V → Option ((B × List ℤ) × CommitState V)
  unfolding next_row_id update_table_stats_from_inline_data stats_column_ids add_i64 as_i64
  write_batch table snapshot d s = do
    start ← next_row_id s table
    t ← update_table_stats_from_inline_data s table d
    batch ←
        add_columns d.columns (int_range start (add_i64 start (as_i64 d.num_rows)))
          (repeat_n snapshot d.num_rows) (repeat_n none d.num_rows)
    ids ← stats_column_ids t d.column_stats
    some ((batch, ids), t)

  unfoldable pub write_batches :
      ℤ
      → ℤ
      → List (CommitInlineData V B)
      → IntMap (List B)
      → List ℤ
      → CommitState V
      → Option ((IntMap (List B) × List ℤ) × CommitState V)
  unfolding write_batch
  write_batches table snapshot [] batches ids s = some ((batches, ids), s)
  write_batches table snapshot (d ∷ inline_data) batches ids s = do
    ((batch, columns), t) ← write_batch table snapshot d s
    write_batches table snapshot inline_data
        (insert batches table (or_default [] batches table ++ (batch ∷ []))) (ids ++ columns) t

  -- `write_table_inline_data`.
  unfoldable pub write_table_inline_data :
      InlineChanges B
      → CommitState V
      → ArenaIdx
      → List (CommitInlineData V B)
      → Option (InlineChanges B × CommitState V)
  unfolding table_id write_batches
  write_table_inline_data changes s table_ref inline_data = do
    (table, s1) ← table_id s table_ref
    ((batches, ids), s2) ← write_batches table s1.snapshot_id inline_data changes.inline_data [] s1
    some (
      record {
        inline_data = batches;
        written_columns =
            insert changes.written_columns table
              (or_default [] changes.written_columns table ++ ids);
      },
      s2,
    )
