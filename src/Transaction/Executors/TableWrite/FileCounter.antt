-- ===== src/Transaction/Executors/TableWrite/FileCounter.antt =====
-- What leaves the counter of file IDs alone in the writing of data files:
-- `CommitState::partition_id` and `update_table_stats_from_file` of
-- crates/ducklake/src/transaction/executors/table_write.rs.
use ducklake_sdk.Common.{◌≡◌, sym, ap, ◌∙◌, List, [], ◌∷◌, Option, none, some, arith}
use ducklake_sdk.Common.Int.{ℤ}
use ducklake_sdk.Common.Text.{Text}
use ducklake_sdk.Catalog.Entities.{ArenaIdx, ColumnRef}
use ducklake_sdk.Caches.TableStats.{
  Ordering, TableStats, advance_row_id, add_record_count, add_file_size_bytes, update_column,
}
use ducklake_sdk.Transaction.Typedefs.{CommitDataFile, FileColumnStats}
use ducklake_sdk.Transaction.CommitState.{CommitState, catalog_id, partition_id, update_table_stats}
use ducklake_sdk.Transaction.Executors.TableWrite.{
  as_i64, map_option, column_id, merge_column, merge_columns, update_table_stats_from_file,
  file_partition_id,
}
use ducklake_sdk.Common.Options.{>>=-some, some_inj}

module _ {V : Type 0} where
  update_table_stats-next_file_id :
      (s t : CommitState V) (id : ℤ) (f : TableStats V → TableStats V)
      → update_table_stats s id f ≡ some t
      → t.next_file_id ≡ s.next_file_id
  unfolding update_table_stats
  update_table_stats-next_file_id s t id f h =
      let (stats, a, b) = >>=-some s.table_stats _ t h in
      sym (ap (λ z. z.next_file_id) (some_inj _ t b))

  partition_id-next_file_id :
      (s t : CommitState V) (table_ref : ArenaIdx) (p : ℤ)
      → partition_id s table_ref ≡ some (p, t)
      → t.next_file_id ≡ s.next_file_id
  unfolding partition_id catalog_id
  partition_id-next_file_id s t table_ref p h = ground arith

  pub file_partition_id-next_file_id :
      (s t : CommitState V) (table_ref : ArenaIdx) (values : Option (List (Option Text)))
      (p : Option ℤ)
      → file_partition_id s table_ref values ≡ some (p, t)
      → t.next_file_id ≡ s.next_file_id
  file_partition_id-next_file_id s t table_ref none p h = ground arith
  file_partition_id-next_file_id s t table_ref (some values) p h =
      let ((q, u), a, b) = >>=-some (partition_id s table_ref) _ (p, t) h in
      let e = some_inj {A = Option ℤ × CommitState V} (some q, u) (p, t) b in
      ap (λ (z : Option ℤ × CommitState V). z.1.next_file_id) (sym e)
      ∙ partition_id-next_file_id s u table_ref q a

module _ {V : Type 0} (partial_cmp : V → V → Option Ordering) (display_value : V → Text) where
  merge_columns-next_file_id :
      (table : ℤ) (columns : List (ColumnRef × FileColumnStats V)) (s t : CommitState V)
      → merge_columns partial_cmp display_value table columns s ≡ some t
      → t.next_file_id ≡ s.next_file_id
  unfolding merge_columns
  merge_columns-next_file_id table [] s t h = sym (ap (λ z. z.next_file_id) (some_inj s t h))
  merge_columns-next_file_id table ((r, stats) ∷ columns) s t h =
      let (column, a, b) = >>=-some (column_id s r) _ t h in
      let f = λ (all_stats : TableStats V).
        update_column all_stats column (merge_column partial_cmp display_value stats) in
      let (u, c, d) =
        >>=-some (update_table_stats s table f)
          (merge_columns partial_cmp display_value table columns) t b in
      merge_columns-next_file_id table columns u t d ∙ update_table_stats-next_file_id s u table f c

  pub update_table_stats_from_file-next_file_id :
      (table : ℤ) (f : CommitDataFile V) (s t : CommitState V)
      → update_table_stats_from_file partial_cmp display_value s table f ≡ some t
      → t.next_file_id ≡ s.next_file_id
  unfolding update_table_stats_from_file
  update_table_stats_from_file-next_file_id table f s t h =
      let g = λ (stats : TableStats V).
        add_file_size_bytes
          (add_record_count (advance_row_id stats (as_i64 f.num_rows)) (as_i64 f.num_rows))
          (map_option as_i64 f.file_size_bytes) in
      let (u, a, b) =
        >>=-some (update_table_stats s table g)
          (merge_columns partial_cmp display_value table f.column_stats) t h in
      merge_columns-next_file_id table f.column_stats u t b
      ∙ update_table_stats-next_file_id s u table g a
