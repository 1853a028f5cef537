-- ===== src/Transaction/Executors/TableWrite/Ranges.antt =====
-- The row IDs of the data files that a transaction writes to a table: each file continues where the
-- one before ends.
use ducklake_sdk.Common.{
  ℕ, ◌≡◌, refl, sym, ap, ◌∙◌, subst, List, [], ◌∷◌, ◌++◌, map, append-nil, append_assoc, Option,
  none, some, arith,
}
use ducklake_sdk.Common.Options.{◌>>=◌, >>=-some, some_inj}
use ducklake_sdk.Common.Int.{ℤ, add_i64}
use ducklake_sdk.Common.IntMap.{or_default, or_default-insert}
use ducklake_sdk.Common.Text.{Text}
use ducklake_sdk.Catalog.Entities.{ArenaIdx, ColumnRef}
use ducklake_sdk.Caches.TableStats.{
  Ordering, TableStats, default_table, advance_row_id, add_record_count, add_file_size_bytes,
  update_column,
}
use ducklake_sdk.Spec.Entities.{DucklakeDataFile}
use ducklake_sdk.Transaction.Typedefs.{CommitDataFile, CommitDeleteFile, FileColumnStats}
use ducklake_sdk.Transaction.CommitState.{
  CommitState, table_id, file_id, catalog_id, partition_id, update_table_stats,
}
use ducklake_sdk.Transaction.Executors.TableWrite.{
  WriteChanges, Written, as_i64, map_option, next_row_id, column_id, delete_file_rows, merge_column,
  merge_columns, update_table_stats_from_file, file_partition_id, column_stats_rows, data_file_row,
  write_file, write_files, write_table_data,
}

-- The specification: first row ID and number of rows of each file, from the next row ID on.
abbrev pub ranges : {V : Type 0} → ℤ → List (CommitDataFile V) → List (Option ℤ × ℤ)
ranges n [] = []
ranges n (f ∷ files) = (some n, as_i64 f.num_rows) ∷ ranges (add_i64 n (as_i64 f.num_rows)) files

-- The next row ID behind the files.
abbrev pub row_id_after : {V : Type 0} → ℤ → List (CommitDataFile V) → ℤ
row_id_after n [] = n
row_id_after n (f ∷ files) = row_id_after (add_i64 n (as_i64 f.num_rows)) files

abbrev pub range_of : DucklakeDataFile → Option ℤ × ℤ
range_of row = (row.row_id_start, row.record_count)

module _ {V : Type 0} where
  -- A change of statistics, as far as the next row ID goes.
  pub update-next_row_id :
      (s t : CommitState V) (id n : ℤ) (f : TableStats V → TableStats V) (g : ℤ → ℤ)
      → ((stats : TableStats V) → (f stats).next_row_id ≡ g stats.next_row_id)
      → update_table_stats s id f ≡ some t
      → next_row_id s id ≡ some n
      → next_row_id t id ≡ some (g n)
  unfolding update_table_stats next_row_id
  update-next_row_id s t id n f g h e k =
      let (stats, a, b) = >>=-some s.table_stats _ t e in
      let (stats', a', b') = >>=-some s.table_stats _ n k in
      let current = or_default default_table stats id in
      subst (λ z. next_row_id z id ≡ some (g n)) (some_inj _ t b)
        (ap some (
          ap (λ z. z.next_row_id) (or_default-insert default_table stats id (f current))
          ∙ h current
          ∙ ap g (
              ap (λ z. (or_default default_table z id).next_row_id)
                (some_inj stats stats' (sym a ∙ a'))
              ∙ some_inj _ n b')))

  delete_file_rows-next_row_id :
      (table data_file : ℤ) (files : List CommitDeleteFile) (s : CommitState V) (id : ℤ)
      → next_row_id (delete_file_rows table data_file files s).1 id ≡ next_row_id s id
  unfolding delete_file_rows next_row_id file_id
  delete_file_rows-next_row_id table data_file [] s id = refl
  delete_file_rows-next_row_id table data_file (f ∷ files) s id =
      delete_file_rows-next_row_id table data_file files (file_id s).1 id

  partition_id-table_stats :
      (s t : CommitState V) (table_ref : ArenaIdx) (p : ℤ)
      → partition_id s table_ref ≡ some (p, t)
      → t.table_stats ≡ s.table_stats
  unfolding partition_id catalog_id
  partition_id-table_stats s t table_ref p h = ground arith

  partition-next_row_id :
      (s t : CommitState V) (table_ref : ArenaIdx) (values : Option (List (Option Text)))
      (p : Option ℤ) (id : ℤ)
      → file_partition_id s table_ref values ≡ some (p, t)
      → next_row_id t id ≡ next_row_id s id
  unfolding next_row_id
  partition-next_row_id s t table_ref none p id h = ground arith
  partition-next_row_id s t table_ref (some values) p id h =
      let ((q, u), a, b) = >>=-some (partition_id s table_ref) _ (p, t) h in
      let e = some_inj {A = Option ℤ × CommitState V} (some q, u) (p, t) b in
      ap (λ z. z >>= λ all_stats. some (or_default default_table all_stats id).next_row_id)
        (ap (λ (z : Option ℤ × CommitState V). z.1.table_stats) (sym e)
          ∙ partition_id-table_stats s u table_ref q a)

  advanced :
      (rows : ℤ) (z : TableStats V) (size : Option ℕ)
      → (add_file_size_bytes
          (add_record_count (advance_row_id z rows) rows)
          (map_option as_i64 size)).next_row_id
        ≡ add_i64 z.next_row_id rows
  unfolding add_file_size_bytes add_record_count advance_row_id
  advanced rows z none = refl
  advanced rows z (some size) = refl

module _ {V : Type 0} (partial_cmp : V → V → Option Ordering) (display_value : V → Text) where
  merge_columns-next_row_id :
      (table : ℤ) (columns : List (ColumnRef × FileColumnStats V)) (s t : CommitState V) (n : ℤ)
      → merge_columns partial_cmp display_value table columns s ≡ some t
      → next_row_id s table ≡ some n
      → next_row_id t table ≡ some n
  unfolding merge_columns update_column
  merge_columns-next_row_id table [] s t n h k =
      subst (λ z. next_row_id z table ≡ some n) (some_inj s t h) k
  merge_columns-next_row_id table ((r, stats) ∷ columns) s t n h k =
      let (column, a, b) = >>=-some (column_id s r) _ t h in
      let f = λ (all_stats : TableStats V).
        update_column all_stats column (merge_column partial_cmp display_value stats) in
      let (u, c, d) =
        >>=-some (update_table_stats s table f)
          (merge_columns partial_cmp display_value table columns) t b in
      merge_columns-next_row_id table columns u t n d
        (update-next_row_id s u table n f (λ m. m) (λ z. refl) c k)

  file_stats-next_row_id :
      (table : ℤ) (f : CommitDataFile V) (s t : CommitState V) (n : ℤ)
      → update_table_stats_from_file partial_cmp display_value s table f ≡ some t
      → next_row_id s table ≡ some n
      → next_row_id t table ≡ some (add_i64 n (as_i64 f.num_rows))
  unfolding update_table_stats_from_file
  file_stats-next_row_id table f s t n h k =
      let g = λ (stats : TableStats V).
        add_file_size_bytes
          (add_record_count (advance_row_id stats (as_i64 f.num_rows)) (as_i64 f.num_rows))
          (map_option as_i64 f.file_size_bytes) in
      let (u, a, b) =
        >>=-some (update_table_stats s table g)
          (merge_columns partial_cmp display_value table f.column_stats) t h in
      merge_columns-next_row_id table f.column_stats u t (add_i64 n (as_i64 f.num_rows)) b (
        update-next_row_id s u table n g (λ m. add_i64 m (as_i64 f.num_rows))
          (λ z. advanced (as_i64 f.num_rows) z f.file_size_bytes) a k)

  -- One file takes the row IDs from the next one on.
  write_file-range :
      (table_ref : ArenaIdx) (table : ℤ) (f : CommitDataFile V) (w w' : Written)
      (s t : CommitState V) (n : ℤ)
      → write_file partial_cmp display_value table_ref table f w s ≡ some (w', t)
      → next_row_id s table ≡ some n
      → (next_row_id t table ≡ some (add_i64 n (as_i64 f.num_rows)))
        × (row : DucklakeDataFile) × (w'.files.data_files ≡ w.files.data_files ++ (row ∷ []))
        × (range_of row ≡ (some n, as_i64 f.num_rows))
  unfolding write_file file_id next_row_id
  write_file-range table_ref table f w w' s t n h k =
      let s1 = (file_id s).1 in
      let (start, a1, h1) = >>=-some (next_row_id s1 table) _ (w', t) h in
      let (s2, a2, h2) =
        >>=-some (update_table_stats_from_file partial_cmp display_value s1 table f) _ (w', t) h1 in
      let (p, a3, h3) = >>=-some (file_partition_id s2 table_ref f.partition_values) _ (w', t) h2 in
      let s4 = (delete_file_rows table (file_id s).0 f.delete_files p.1).1 in
      let (columns, a4, h4) =
        >>=-some (column_stats_rows partial_cmp display_value s4 (file_id s).0 table f.column_stats)
          _ (w', t) h3 in
      let e = some_inj {A = Written × CommitState V} _ (w', t) h4 in
      let same = some_inj start n (sym a1 ∙ k) in
      (
        ap (λ (z : Written × CommitState V). next_row_id z.1 table) (sym e)
            ∙ delete_file_rows-next_row_id table (file_id s).0 f.delete_files p.1 table
            ∙ partition-next_row_id s2 p.1 table_ref f.partition_values p.0 table a3
            ∙ file_stats-next_row_id table f s1 s2 n a2 k,
        data_file_row (file_id s).0 table s.snapshot_id start p.0 f,
        ap (λ (z : Written × CommitState V). z.0.files.data_files) (sym e),
        ap (λ m. (some m, as_i64 f.num_rows)) same,
      )

  write_files-ranges :
      (table_ref : ArenaIdx) (table : ℤ) (files : List (CommitDataFile V)) (w w' : Written)
      (s t : CommitState V) (n : ℤ)
      → write_files partial_cmp display_value table_ref table files w s ≡ some (w', t)
      → next_row_id s table ≡ some n
      → (next_row_id t table ≡ some (row_id_after n files))
        × (rows : List DucklakeDataFile) × (w'.files.data_files ≡ w.files.data_files ++ rows)
        × (map range_of rows ≡ ranges n files)
  unfolding write_files
  write_files-ranges table_ref table [] w w' s t n h k =
      let e = some_inj {A = Written × CommitState V} (w, s) (w', t) h in
      (
        ap (λ (z : Written × CommitState V). next_row_id z.1 table) (sym e) ∙ k,
        [],
        ap (λ (z : Written × CommitState V). z.0.files.data_files) (sym e)
            ∙ sym (append-nil w.files.data_files),
        refl,
      )
  write_files-ranges table_ref table (f ∷ files) w w' s t n h k =
      let (p, a, b) =
        >>=-some (write_file partial_cmp display_value table_ref table f w s) _ (w', t) h in
      let (next, row, rows_eq, range_eq) = write_file-range table_ref table f w p.0 s p.1 n a k in
      let (last, rows, all_eq, ranges_eq) =
        write_files-ranges table_ref table files p.0 w' p.1 t (add_i64 n (as_i64 f.num_rows)) b
          next in
      (
        last,
        row ∷ rows,
        all_eq ∙ ap (λ l. l ++ rows) rows_eq ∙ append_assoc w.files.data_files (row ∷ []) rows,
        ap (λ r. r ∷ map range_of rows) range_eq ∙ ap (◌∷◌ (some n, as_i64 f.num_rows)) ranges_eq,
      )

  -- Writing data files to a table that has a next row ID `n` adds one row per file, in their order:
  -- the first starts at `n`, each further one where the one before ends, with the number of its rows
  -- as it is counted; and the next row ID of the table is behind the last file.
  pub write_table_data-ranges :
      (changes changes' : WriteChanges) (s s1 t : CommitState V) (table_ref : ArenaIdx) (table : ℤ)
      (files : List (CommitDataFile V)) (n : ℤ)
      → table_id s table_ref ≡ some (table, s1)
      → next_row_id s1 table ≡ some n
      → write_table_data partial_cmp display_value changes s table_ref files ≡ some (changes', t)
      → (next_row_id t table ≡ some (row_id_after n files))
        × (rows : List DucklakeDataFile) × (changes'.files.data_files
            ≡ changes.files.data_files ++ rows)
        × (map range_of rows ≡ ranges n files)
  unfolding write_table_data
  write_table_data-ranges changes changes' s s1 t table_ref table files n h k e =
      let (p, a, b) = >>=-some (table_id s table_ref) _ (changes', t) e in
      let q = some_inj {A = ℤ × CommitState V} (table, s1) p (sym h ∙ a) in
      let init : Written = record { files = changes.files; column_ids = [] } in
      let (u, c, d) =
        >>=-some (write_files partial_cmp display_value table_ref p.0 files init p.1) _
          (changes', t) b in
      let r = some_inj {A = WriteChanges × CommitState V} _ (changes', t) d in
      let (last, rows, rows_eq, ranges_eq) =
        write_files-ranges table_ref p.0 files init u.0 p.1 u.1 n c
          (ap (λ (z : ℤ × CommitState V). next_row_id z.1 z.0) (sym q) ∙ k) in
      (
        ap (λ (z : WriteChanges × CommitState V). next_row_id z.1 table) (sym r)
            ∙ ap (next_row_id u.1) (ap (λ (z : ℤ × CommitState V). z.0) q)
            ∙ last,
        rows,
        ap (λ (z : WriteChanges × CommitState V). z.0.files.data_files) (sym r) ∙ rows_eq,
        ranges_eq,
      )
