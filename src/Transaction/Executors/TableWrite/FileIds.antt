-- ===== src/Transaction/Executors/TableWrite/FileIds.antt =====
-- The file IDs that `write_table_data` of crates/ducklake/src/transaction/executors/table_write.rs
-- gives to data files and delete files.
use ducklake_sdk.Common.{
  ◌≡◌, refl, sym, ap, ◌∙◌, subst, List, [], ◌∷◌, ◌++◌, map, Option, some, append_assoc, append-nil,
  map-append,
}
use ducklake_sdk.Common.Int.{ℤ, pos, add_i64}
use ducklake_sdk.Common.Text.{Text}
use ducklake_sdk.Catalog.Entities.{ArenaIdx}
use ducklake_sdk.Caches.TableStats.{Ordering}
use ducklake_sdk.Spec.Entities.{DucklakeDataFile, DucklakeDeleteFile}
use ducklake_sdk.Transaction.Typedefs.{CommitDataFile, CommitDeleteFile}
use ducklake_sdk.Transaction.CommitState.{CommitState, table_id, file_id}
use ducklake_sdk.Transaction.Executors.TableWrite.{
  WriteChanges, Written, next_row_id, delete_file_rows, update_table_stats_from_file,
  file_partition_id, column_stats_rows, data_file_row, write_file, write_files, write_table_data,
}
use ducklake_sdk.Transaction.Executors.TableWrite.FileCounter.{
  file_partition_id-next_file_id, update_table_stats_from_file-next_file_id,
}
use ducklake_sdk.Common.Options.{>>=-some, some_inj}

-- The specification: consecutive IDs for delete files, and the ID behind them.
abbrev pub delete_ids : ℤ → List CommitDeleteFile → List ℤ
delete_ids n [] = []
delete_ids n (f ∷ files) = n ∷ delete_ids (add_i64 n (pos 1)) files

abbrev pub id_after_deletes : ℤ → List CommitDeleteFile → ℤ
id_after_deletes n [] = n
id_after_deletes n (f ∷ files) = id_after_deletes (add_i64 n (pos 1)) files

-- The ID behind a data file and its delete files.
abbrev pub id_after_file : {V : Type 0} → ℤ → CommitDataFile V → ℤ
id_after_file n f = id_after_deletes (add_i64 n (pos 1)) f.delete_files

-- The IDs of data files: each is followed by those of its delete files.
abbrev pub data_file_ids : {V : Type 0} → ℤ → List (CommitDataFile V) → List ℤ
data_file_ids n [] = []
data_file_ids n (f ∷ files) = n ∷ data_file_ids (id_after_file n f) files

-- The delete files, each as its data file and its own ID.
abbrev pub delete_file_ids : {V : Type 0} → ℤ → List (CommitDataFile V) → List (ℤ × ℤ)
delete_file_ids n [] = []
delete_file_ids n (f ∷ files) =
    map (λ (d : ℤ). (n, d)) (delete_ids (add_i64 n (pos 1)) f.delete_files)
    ++ delete_file_ids (id_after_file n f) files

abbrev pub id_after_files : {V : Type 0} → ℤ → List (CommitDataFile V) → ℤ
id_after_files n [] = n
id_after_files n (f ∷ files) = id_after_files (id_after_file n f) files

abbrev pub id_of : DucklakeDataFile → ℤ
id_of row = row.data_file_id

abbrev pub ids_of : DucklakeDeleteFile → ℤ × ℤ
ids_of row = (row.data_file_id, row.delete_file_id)

module _ {V : Type 0} where
  delete_file_rows-ids_of :
      (table data_file : ℤ) (files : List CommitDeleteFile) (s : CommitState V)
      → (map ids_of (delete_file_rows table data_file files s).0
          ≡ map (λ (d : ℤ). (data_file, d)) (delete_ids s.next_file_id files))
        × ((delete_file_rows table data_file files s).1.next_file_id
            ≡ id_after_deletes s.next_file_id files)
  unfolding delete_file_rows file_id
  delete_file_rows-ids_of table data_file [] s = (refl, refl)
  delete_file_rows-ids_of table data_file (f ∷ files) s =
      let (e, k) = delete_file_rows-ids_of table data_file files (file_id s).1 in
      (ap (◌∷◌ (data_file, s.next_file_id)) e, k)

module _ {V : Type 0} (partial_cmp : V → V → Option Ordering) (display_value : V → Text) where
  -- The rows that files add, and the IDs that they have from `n` on.
  abbrev Numbered : Written → Written → CommitState V → ℤ → List (CommitDataFile V) → Type 0
  Numbered w w' t n files =
      (t.next_file_id ≡ id_after_files n files)
      × (rows : List DucklakeDataFile) × (deletes : List DucklakeDeleteFile) × (w'.files.data_files
          ≡ w.files.data_files ++ rows)
      × (w'.files.delete_files ≡ w.files.delete_files ++ deletes)
      × (map id_of rows ≡ data_file_ids n files)
      × (map ids_of deletes ≡ delete_file_ids n files)

  write_file-Numbered :
      (table_ref : ArenaIdx) (table : ℤ) (f : CommitDataFile V) (w w' : Written)
      (s t : CommitState V)
      → write_file partial_cmp display_value table_ref table f w s ≡ some (w', t)
      → Numbered w w' t s.next_file_id (f ∷ [])
  unfolding write_file file_id
  write_file-Numbered table_ref table f w w' s t h =
      let s1 = (file_id s).1 in
      let id = s.next_file_id in
      let (start, a1, h1) = >>=-some (next_row_id s1 table) _ (w', t) h in
      let (s2, a2, h2) =
        >>=-some (update_table_stats_from_file partial_cmp display_value s1 table f) _ (w', t) h1 in
      let (p, a3, h3) = >>=-some (file_partition_id s2 table_ref f.partition_values) _ (w', t) h2 in
      let deleted = delete_file_rows table id f.delete_files p.1 in
      let (columns, a4, h4) =
        >>=-some (column_stats_rows partial_cmp display_value deleted.1 id table f.column_stats) _
          (w', t) h3 in
      let e = some_inj {A = Written × CommitState V} _ (w', t) h4 in
      let (ids, next) = delete_file_rows-ids_of table id f.delete_files p.1 in
      let same : p.1.next_file_id ≡ add_i64 id (pos 1) =
        file_partition_id-next_file_id s2 p.1 table_ref f.partition_values p.0 a3
        ∙ update_table_stats_from_file-next_file_id partial_cmp display_value table f s1 s2 a2 in
      (
        ap (λ (z : Written × CommitState V). z.1.next_file_id) (sym e)
            ∙ next
            ∙ ap (λ n. id_after_deletes n f.delete_files) same,
        data_file_row id table s.snapshot_id start p.0 f ∷ [],
        deleted.0,
        ap (λ (z : Written × CommitState V). z.0.files.data_files) (sym e),
        ap (λ (z : Written × CommitState V). z.0.files.delete_files) (sym e),
        refl,
        ids
            ∙ ap (λ n. map (λ (d : ℤ). (id, d)) (delete_ids n f.delete_files)) same
            ∙ sym (
                append-nil
                  (map (λ (d : ℤ). (id, d)) (delete_ids (add_i64 id (pos 1)) f.delete_files))),
      )

  write_files-Numbered :
      (table_ref : ArenaIdx) (table : ℤ) (files : List (CommitDataFile V)) (w w' : Written)
      (s t : CommitState V)
      → write_files partial_cmp display_value table_ref table files w s ≡ some (w', t)
      → Numbered w w' t s.next_file_id files
  unfolding write_files
  write_files-Numbered table_ref table [] w w' s t h =
      let e = some_inj {A = Written × CommitState V} (w, s) (w', t) h in
      (
        ap (λ (z : Written × CommitState V). z.1.next_file_id) (sym e),
        [],
        [],
        ap (λ (z : Written × CommitState V). z.0.files.data_files) (sym e)
            ∙ sym (append-nil w.files.data_files),
        ap (λ (z : Written × CommitState V). z.0.files.delete_files) (sym e)
            ∙ sym (append-nil w.files.delete_files),
        refl,
        refl,
      )
  write_files-Numbered table_ref table (f ∷ files) w w' s t h =
      let (p, a, b) =
        >>=-some (write_file partial_cmp display_value table_ref table f w s) _ (w', t) h in
      let (next, row, deletes, row_eq, deletes_eq, id_eq, ids_eq) =
        write_file-Numbered table_ref table f w p.0 s p.1 a in
      let (last, rows, rest, rows_eq, rest_eq, all_ids, all_deletes) =
        write_files-Numbered table_ref table files p.0 w' p.1 t b in
      (
        last ∙ ap (λ n. id_after_files n files) next,
        row ++ rows,
        deletes ++ rest,
        rows_eq ∙ ap (λ l. l ++ rows) row_eq ∙ append_assoc w.files.data_files row rows,
        rest_eq ∙ ap (λ l. l ++ rest) deletes_eq ∙ append_assoc w.files.delete_files deletes rest,
        map-append id_of row rows
            ∙ ap (λ l. l ++ map id_of rows) id_eq
            ∙ ap (λ l. s.next_file_id ∷ l) (all_ids ∙ ap (λ n. data_file_ids n files) next),
        map-append ids_of deletes rest
            ∙ ap (λ l. l ++ map ids_of rest) (ids_eq ∙ append-nil _)
            ∙ ap
                (λ l.
                  map (λ (d : ℤ). (s.next_file_id, d))
                    (delete_ids (add_i64 s.next_file_id (pos 1)) f.delete_files)
                  ++ l)
                (all_deletes ∙ ap (λ n. delete_file_ids n files) next),
      )

  -- Writing data files adds one row per data file and one per delete file. The counter of file IDs
  -- numbers them without a gap: each data file is followed by its delete files, in their order, and
  -- a delete file names the data file that it belongs to. The counter ends behind the last file.
  pub write_table_data_file_ids :
      (changes changes' : WriteChanges) (s s1 t : CommitState V) (table_ref : ArenaIdx) (table : ℤ)
      (files : List (CommitDataFile V))
      → table_id s table_ref ≡ some (table, s1)
      → write_table_data partial_cmp display_value changes s table_ref files ≡ some (changes', t)
      → (t.next_file_id ≡ id_after_files s1.next_file_id files)
        × (rows : List DucklakeDataFile) × (deletes : List DucklakeDeleteFile)
        × (changes'.files.data_files ≡ changes.files.data_files ++ rows)
        × (changes'.files.delete_files ≡ changes.files.delete_files ++ deletes)
        × (map id_of rows ≡ data_file_ids s1.next_file_id files)
        × (map ids_of deletes ≡ delete_file_ids s1.next_file_id files)
  unfolding write_table_data
  write_table_data_file_ids changes changes' s s1 t table_ref table files h e =
      let (p, a, b) = >>=-some (table_id s table_ref) _ (changes', t) e in
      let q = some_inj {A = ℤ × CommitState V} (table, s1) p (sym h ∙ a) in
      let init : Written = record { files = changes.files; column_ids = [] } in
      let (u, c, d) =
        >>=-some (write_files partial_cmp display_value table_ref p.0 files init p.1) _
          (changes', t) b in
      let r = some_inj {A = WriteChanges × CommitState V} _ (changes', t) d in
      subst
        (λ (z : WriteChanges × CommitState V).
          Numbered init (record { files = z.0.files; column_ids = u.0.column_ids }) z.1
            s1.next_file_id files)
        r
        (subst (λ (z : ℤ × CommitState V). Numbered init u.0 u.1 z.1.next_file_id files) (sym q)
          (write_files-Numbered table_ref p.0 files init u.0 p.1 u.1 c))
