-- ===== src/Transaction/Executors/TableWrite/Success.antt =====
-- When `write_table_data` does not panic.
use ducklake_sdk.Common.{◌≡◌, refl, ap, ◌∙◌, List, [], ◌∷◌, Option, none, some, get_elem?}
use ducklake_sdk.Common.Options.{◌>>=◌}
use ducklake_sdk.Common.Int.{ℤ}
use ducklake_sdk.Common.IntMap.{IntMap, insert, or_default}
use ducklake_sdk.Common.Text.{Text}
use ducklake_sdk.Catalog.Arena.{get}
use ducklake_sdk.Catalog.Entities.{ArenaIdx, ColumnRef}
use ducklake_sdk.Caches.TableStats.{
  Ordering, TableStats, default_table, update_column, advance_row_id, add_record_count,
  add_file_size_bytes,
}
use ducklake_sdk.Transaction.Typedefs.{CommitDataFile, CommitDeleteFile, FileColumnStats}
use ducklake_sdk.Transaction.CommitState.{CommitState, table_id, file_id, update_table_stats}
use ducklake_sdk.Transaction.Executors.TableWrite.{
  WriteChanges, Written, next_row_id, column_id, delete_file_rows, merge_columns,
  update_table_stats_from_file, column_stats_row, column_stats_rows, merge_column,
  file_partition_id, as_i64, map_option, write_file, write_files, write_table_data,
}

abbrev pub IsSome : {A : Type 0} → Option A → Type 0
IsSome {A} o = (a : A) × (o ≡ some a)

-- A chain whose first part has a result goes on from it.
chain :
    {A B : Type 0} {P : B → Type 0} (m : Option A) (f : A → Option B) (a : A)
    → m ≡ some a
    → (b : B) × (f a ≡ some b) × P b
    → (b : B) × ((m >>= f) ≡ some b) × P b
chain m f a e (b, g, p) = (b, ap (λ z. z >>= f) e ∙ g, p)

module _ {V : Type 0} where
  column_id_ext :
      (s t : CommitState V) (r : ColumnRef) → s.catalog ≡ t.catalog → column_id s r ≡ column_id t r
  unfolding column_id
  column_id_ext s t r e =
      ap
        (λ c. get c.table_arena r.table_ref >>= λ table.
          get_elem? table.columns.arena r.column_idx >>= λ column. some column.id)
        e

  -- `t` has the catalog of `s`, and the statistics of the tables are loaded.
  pub record IsReady (s t : CommitState V) : Type 0 where
    pub same : t.catalog ≡ s.catalog
    pub loaded : (stats : IntMap (TableStats V)) × (t.table_stats ≡ some stats)

  update-IsReady :
      (s t : CommitState V) (id : ℤ) (f : TableStats V → TableStats V)
      → IsReady s t
      → (u : CommitState V) × (update_table_stats t id f ≡ some u) × IsReady s u
  unfolding update_table_stats
  update-IsReady s t id f r =
      let (stats, e) = r.loaded in
      (
        record t { table_stats = some (insert stats id (f (or_default default_table stats id))) },
        ap
            (λ z. z >>= λ all_stats. some (record t {
              table_stats = some (insert all_stats id (f (or_default default_table all_stats id)));
            }))
            e,
        record {
          same = r.same;
          loaded = (insert stats id (f (or_default default_table stats id)), refl);
        },
      )

  delete_file_rows-IsReady :
      (table data_file : ℤ) (files : List CommitDeleteFile) (s t : CommitState V)
      → IsReady s t
      → IsReady s (delete_file_rows table data_file files t).1
  unfolding delete_file_rows file_id
  delete_file_rows-IsReady table data_file [] s t r = r
  delete_file_rows-IsReady table data_file (f ∷ files) s t r =
      delete_file_rows-IsReady table data_file files s (file_id t).1
        (record { same = r.same; loaded = r.loaded })

  -- The columns that have statistics in a file are columns of the catalog.
  abbrev pub KnowsColumns : CommitState V → List (ColumnRef × FileColumnStats V) → Type 0
  KnowsColumns s [] = Unit {0}
  KnowsColumns s ((r, stats) ∷ columns) = IsSome (column_id s r) × KnowsColumns s columns

  -- The files have known columns, and no partition values.
  abbrev pub KnowsFiles : CommitState V → List (CommitDataFile V) → Type 0
  KnowsFiles s [] = Unit {0}
  KnowsFiles s (f ∷ files) =
      (KnowsColumns s f.column_stats × (f.partition_values ≡ none)) × KnowsFiles s files

module _ {V : Type 0} (partial_cmp : V → V → Option Ordering) (display_value : V → Text) where
  merge_columns-IsReady :
      (table : ℤ) (columns : List (ColumnRef × FileColumnStats V)) (s t : CommitState V)
      → IsReady s t
      → KnowsColumns s columns
      → (u : CommitState V) × (merge_columns partial_cmp display_value table columns t ≡ some u)
        × IsReady s u
  unfolding merge_columns
  merge_columns-IsReady table [] s t r k = (t, refl, r)
  merge_columns-IsReady table ((c, stats) ∷ columns) s t r ((column, e), k) =
      let f = λ (all_stats : TableStats V).
        update_column all_stats column (merge_column partial_cmp display_value stats) in
      let (u, a, ru) = update-IsReady s t table f r in
      let (v, b, rv) = merge_columns-IsReady table columns s u ru k in
      (v, rw (column_id_ext t s c r.same, e, a, b) refl, rv)

  column_stats_rows_ready :
      (data_file table : ℤ) (columns : List (ColumnRef × FileColumnStats V)) (s t : CommitState V)
      → IsReady s t
      → KnowsColumns s columns
      → IsSome (column_stats_rows partial_cmp display_value t data_file table columns)
  unfolding column_stats_rows
  column_stats_rows_ready data_file table [] s t r k = ([], refl)
  column_stats_rows_ready data_file table ((c, stats) ∷ columns) s t r ((column, e), k) =
      let (rows, h) = column_stats_rows_ready data_file table columns s t r k in
      (
        column_stats_row partial_cmp display_value data_file table column stats ∷ rows,
        rw (column_id_ext t s c r.same, e, h) refl,
      )

  file_stats-IsReady :
      (table : ℤ) (f : CommitDataFile V) (s t : CommitState V)
      → IsReady s t
      → KnowsColumns s f.column_stats
      → (u : CommitState V) × (update_table_stats_from_file partial_cmp display_value t table f
          ≡ some u)
        × IsReady s u
  unfolding update_table_stats_from_file
  file_stats-IsReady table f s t r k =
      let g = λ (stats : TableStats V).
        add_file_size_bytes
          (add_record_count (advance_row_id stats (as_i64 f.num_rows)) (as_i64 f.num_rows))
          (map_option as_i64 f.file_size_bytes) in
      let (u, a, ru) = update-IsReady s t table g r in
      let (v, b, rv) = merge_columns-IsReady table f.column_stats s u ru k in
      (v, ap (λ z. z >>= merge_columns partial_cmp display_value table f.column_stats) a ∙ b, rv)

  next_row_id_ready : (s t : CommitState V) (table : ℤ) → IsReady s t → IsSome (next_row_id t table)
  unfolding next_row_id
  next_row_id_ready s t table r =
      let (stats, e) = r.loaded in
      (
        (or_default default_table stats table).next_row_id,
        ap (λ z. z >>= λ all_stats. some (or_default default_table all_stats table).next_row_id) e,
      )

  write_file-IsReady :
      (table_ref : ArenaIdx) (table : ℤ) (f : CommitDataFile V) (w : Written) (s t : CommitState V)
      → IsReady s t
      → KnowsColumns s f.column_stats
      → f.partition_values ≡ none
      → (p : Written × CommitState V) × (write_file partial_cmp display_value table_ref table f w t
          ≡ some p)
        × IsReady s p.1
  unfolding write_file file_id
  write_file-IsReady table_ref table f w s t r k n =
      let t1 = (file_id t).1 in
      let r1 : IsReady s t1 = record { same = r.same; loaded = r.loaded } in
      let (start, e1) = next_row_id_ready s t1 table r1 in
      let (t2, e2, r2) = file_stats-IsReady table f s t1 r1 k in
      let r4 = delete_file_rows-IsReady table (file_id t).0 f.delete_files s t2 r2 in
      let t4 = (delete_file_rows table (file_id t).0 f.delete_files t2).1 in
      let (columns, e4) = column_stats_rows_ready (file_id t).0 table f.column_stats s t4 r4 k in
      chain (next_row_id t1 table) _ start e1 (
        chain (update_table_stats_from_file partial_cmp display_value t1 table f) _ t2 e2 (
          chain (file_partition_id t2 table_ref f.partition_values) _ (none, t2)
            (ap (file_partition_id t2 table_ref) n)
            (chain
              (column_stats_rows partial_cmp display_value t4 (file_id t).0 table f.column_stats) _
              columns e4 (_, refl, r4))))

  write_files_ready :
      (table_ref : ArenaIdx) (table : ℤ) (files : List (CommitDataFile V)) (w : Written)
      (s t : CommitState V)
      → IsReady s t
      → KnowsFiles s files
      → IsSome (write_files partial_cmp display_value table_ref table files w t)
  unfolding write_files
  write_files_ready table_ref table [] w s t r k = ((w, t), refl)
  write_files_ready table_ref table (f ∷ files) w s t r ((k, n), ks) =
      let (p, e, rp) = write_file-IsReady table_ref table f w s t r k n in
      let (q, d) = write_files_ready table_ref table files p.0 s p.1 rp ks in
      (
        q,
        ap
              (λ z. z >>= λ (y : Written × CommitState V).
                write_files partial_cmp display_value table_ref table files y.0 y.1)
              e
            ∙ d,
      )

  -- Writing data files does not panic where the table has an ID or gets one, the statistics of the
  -- tables are loaded, the columns with statistics are columns of the catalog, and the files have no
  -- partition values.
  pub write_table_data-IsSome :
      (changes : WriteChanges) (s s1 : CommitState V) (table_ref : ArenaIdx) (table : ℤ)
      (stats : IntMap (TableStats V)) (files : List (CommitDataFile V))
      → table_id s table_ref ≡ some (table, s1)
      → s1.table_stats ≡ some stats
      → KnowsFiles s1 files
      → IsSome (write_table_data partial_cmp display_value changes s table_ref files)
  unfolding write_table_data
  write_table_data-IsSome changes s s1 table_ref table stats files h e k =
      let (p, d) =
        write_files_ready table_ref table files (record { files = changes.files; column_ids = [] })
          s1 s1 (record { same = refl; loaded = (stats, e) }) k in
      let (q, g, u) =
        chain {P = λ q. Unit {0}} (table_id s table_ref) _ (table, s1) h
          (chain {P = λ q. Unit {0}}
            (write_files partial_cmp display_value table_ref table files
              (record { files = changes.files; column_ids = [] }) s1)
            _ p d (_, refl, tt)) in
      (q, g)
