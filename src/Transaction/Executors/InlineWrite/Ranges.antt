-- ===== src/Transaction/Executors/InlineWrite/Ranges.antt =====
-- The row IDs that `write_table_inline_data` of
-- crates/ducklake/src/transaction/executors/table_write.rs gives to the rows of its batches.
use ducklake_sdk.Common.{
  ◌≡◌, refl, sym, ap, ◌∙◌, subst, List, [], ◌∷◌, ◌++◌, map, Option, none, some, append_assoc,
  append-nil,
}
use ducklake_sdk.Common.Options.{>>=-some, some_inj}
use ducklake_sdk.Common.Int.{ℤ, add_i64}
use ducklake_sdk.Common.IntMap.{IntMap, or_default, insert, or_default-insert}
use ducklake_sdk.Catalog.Entities.{ArenaIdx, ColumnRef}
use ducklake_sdk.Caches.TableStats.{
  Ordering, TableStats, advance_row_id, add_record_count, update_column,
}
use ducklake_sdk.Transaction.Typedefs.{CommitInlineData, ArrayColumnStats}
use ducklake_sdk.Transaction.CommitState.{CommitState, table_id, update_table_stats}
use ducklake_sdk.Transaction.Executors.TableWrite.{as_i64, column_id, next_row_id}
use ducklake_sdk.Transaction.Executors.TableWrite.Ranges.{update-next_row_id}
use ducklake_sdk.Transaction.Executors.InlineWrite.{
  InlineChanges, int_range, repeat_n, merge_inline_column, merge_inline_columns,
  update_table_stats_from_inline_data, stats_column_ids, write_batch, write_batches,
  write_table_inline_data,
}

-- The next row ID behind the batches.
abbrev pub row_id_behind : {V B : Type 0} → ℤ → List (CommitInlineData V B) → ℤ
row_id_behind n [] = n
row_id_behind n (d ∷ inline_data) = row_id_behind (add_i64 n (as_i64 d.num_rows)) inline_data

module _ {V B : Type 0} (partial_cmp : V → V → Option Ordering)
    (add_columns : B → List ℤ → List ℤ → List (Option ℤ) → Option B) where
  -- The specification: each batch with the row IDs that follow those of the one before.
  abbrev pub numbered : ℤ → ℤ → List (CommitInlineData V B) → List (Option B)
  numbered snapshot n [] = []
  numbered snapshot n (d ∷ inline_data) =
      add_columns d.columns (int_range n (add_i64 n (as_i64 d.num_rows)))
        (repeat_n snapshot d.num_rows) (repeat_n none d.num_rows)
      ∷ numbered snapshot (add_i64 n (as_i64 d.num_rows)) inline_data

  merge_inline_columns-next_row_id :
      (table : ℤ) (columns : List (ColumnRef × ArrayColumnStats V)) (s t : CommitState V) (n : ℤ)
      → merge_inline_columns partial_cmp add_columns table columns s ≡ some t
      → next_row_id s table ≡ some n
      → next_row_id t table ≡ some n
  unfolding merge_inline_columns update_column
  merge_inline_columns-next_row_id table [] s t n h k =
      subst (λ z. next_row_id z table ≡ some n) (some_inj s t h) k
  merge_inline_columns-next_row_id table ((r, stats) ∷ columns) s t n h k =
      let (column, a, b) = >>=-some (column_id s r) _ t h in
      let f = λ (all_stats : TableStats V).
        update_column all_stats column (merge_inline_column partial_cmp add_columns stats) in
      let (u, c, d) =
        >>=-some (update_table_stats s table f)
          (merge_inline_columns partial_cmp add_columns table columns) t b in
      merge_inline_columns-next_row_id table columns u t n d
        (update-next_row_id s u table n f (λ m. m) (λ z. refl) c k)

  inline_stats-next_row_id :
      (table : ℤ) (d : CommitInlineData V B) (s t : CommitState V) (n : ℤ)
      → update_table_stats_from_inline_data partial_cmp add_columns s table d ≡ some t
      → next_row_id s table ≡ some n
      → next_row_id t table ≡ some (add_i64 n (as_i64 d.num_rows))
  unfolding update_table_stats_from_inline_data add_record_count advance_row_id
  inline_stats-next_row_id table d s t n h k =
      let g = λ (stats : TableStats V).
        add_record_count (advance_row_id stats (as_i64 d.num_rows)) (as_i64 d.num_rows) in
      let (u, a, b) =
        >>=-some (update_table_stats s table g)
          (merge_inline_columns partial_cmp add_columns table d.column_stats) t h in
      merge_inline_columns-next_row_id table d.column_stats u t (add_i64 n (as_i64 d.num_rows)) b
        (update-next_row_id s u table n g (λ m. add_i64 m (as_i64 d.num_rows)) (λ z. refl) a k)

  write_batch-numbered :
      (table snapshot : ℤ) (d : CommitInlineData V B) (batch : B) (ids : List ℤ)
      (s t : CommitState V) (n : ℤ)
      → write_batch partial_cmp add_columns table snapshot d s ≡ some ((batch, ids), t)
      → next_row_id s table ≡ some n
      → (next_row_id t table ≡ some (add_i64 n (as_i64 d.num_rows)))
        × (some batch ∷ [] ≡ numbered snapshot n (d ∷ []))
  unfolding write_batch
  write_batch-numbered table snapshot d batch ids s t n h k =
      let (start, a1, h1) = >>=-some (next_row_id s table) _ ((batch, ids), t) h in
      let (u, a2, h2) =
        >>=-some (update_table_stats_from_inline_data partial_cmp add_columns s table d) _
          ((batch, ids), t) h1 in
      let (made, a3, h3) =
        >>=-some
          (add_columns d.columns (int_range start (add_i64 start (as_i64 d.num_rows)))
            (repeat_n snapshot d.num_rows) (repeat_n none d.num_rows))
          _ ((batch, ids), t) h2 in
      let (columns, a4, h4) =
        >>=-some (stats_column_ids partial_cmp add_columns u d.column_stats) _ ((batch, ids), t)
          h3 in
      let e =
        some_inj {A = (B × List ℤ) × CommitState V} ((made, columns), u) ((batch, ids), t) h4 in
      let same = some_inj start n (sym a1 ∙ k) in
      (
        ap (λ (z : (B × List ℤ) × CommitState V). next_row_id z.1 table) (sym e)
            ∙ inline_stats-next_row_id table d s u n a2 k,
        ap (λ (z : (B × List ℤ) × CommitState V). some z.0.0 ∷ []) (sym e)
            ∙ ap (λ o. o ∷ []) (sym a3)
            ∙ ap (λ m. numbered snapshot m (d ∷ [])) same,
      )

  write_batches-numbered :
      (table snapshot : ℤ) (inline_data : List (CommitInlineData V B))
      (batches batches' : IntMap (List B)) (ids ids' : List ℤ) (s t : CommitState V) (n : ℤ)
      → write_batches partial_cmp add_columns table snapshot inline_data batches ids s
        ≡ some ((batches', ids'), t)
      → next_row_id s table ≡ some n
      → (next_row_id t table ≡ some (row_id_behind n inline_data))
        × (rows : List B) × (or_default [] batches' table ≡ or_default [] batches table ++ rows)
        × (map some rows ≡ numbered snapshot n inline_data)
  unfolding write_batches
  write_batches-numbered table snapshot [] batches batches' ids ids' s t n h k =
      let e =
        some_inj {A = (IntMap (List B) × List ℤ) × CommitState V} ((batches, ids), s)
          ((batches', ids'), t) h in
      (
        ap (λ (z : (IntMap (List B) × List ℤ) × CommitState V). next_row_id z.1 table) (sym e) ∙ k,
        [],
        ap (λ (z : (IntMap (List B) × List ℤ) × CommitState V). or_default [] z.0.0 table) (sym e)
            ∙ sym (append-nil (or_default [] batches table)),
        refl,
      )
  write_batches-numbered table snapshot (d ∷ inline_data) batches batches' ids ids' s t n h k =
      let (((batch, columns), u), a, b) =
        >>=-some (write_batch partial_cmp add_columns table snapshot d s) _ ((batches', ids'), t)
          h in
      let (next, made) = write_batch-numbered table snapshot d batch columns s u n a k in
      let before = or_default [] batches table in
      let (last, rows, rows_eq, made_all) =
        write_batches-numbered table snapshot inline_data
          (insert batches table (before ++ (batch ∷ []))) batches' (ids ++ columns) ids' u t
          (add_i64 n (as_i64 d.num_rows)) b next in
      (
        last,
        batch ∷ rows,
        rows_eq
            ∙ ap (λ l. l ++ rows) (or_default-insert [] batches table (before ++ (batch ∷ [])))
            ∙ append_assoc before (batch ∷ []) rows,
        ap (λ l. l ++ map some rows) made ∙ ap (λ l. numbered snapshot n (d ∷ []) ++ l) made_all,
      )

  -- Writing inline data to a table that has a next row ID `n` adds one batch per batch, in their
  -- order: the rows of the first are numbered from `n` on, those of each further one from where the
  -- one before ends, all with the snapshot that is written as their first and no last one; and the
  -- next row ID of the table is behind the last batch.
  pub write_table_inline_data-numbered :
      (changes changes' : InlineChanges B) (s s1 t : CommitState V) (table_ref : ArenaIdx)
      (table : ℤ) (inline_data : List (CommitInlineData V B)) (n : ℤ)
      → table_id s table_ref ≡ some (table, s1)
      → next_row_id s1 table ≡ some n
      → write_table_inline_data partial_cmp add_columns changes s table_ref inline_data
        ≡ some (changes', t)
      → (next_row_id t table ≡ some (row_id_behind n inline_data))
        × (rows : List B) × (or_default [] changes'.inline_data table
            ≡ or_default [] changes.inline_data table ++ rows)
        × (map some rows ≡ numbered s1.snapshot_id n inline_data)
  unfolding write_table_inline_data
  write_table_inline_data-numbered changes changes' s s1 t table_ref table inline_data n h k e =
      let ((id, s2), a, b) = >>=-some (table_id s table_ref) _ (changes', t) e in
      let q = some_inj {A = ℤ × CommitState V} (table, s1) (id, s2) (sym h ∙ a) in
      let (u, c, d) =
        >>=-some
          (write_batches partial_cmp add_columns id s2.snapshot_id inline_data changes.inline_data
            [] s2)
          _ (changes', t) b in
      let r = some_inj {A = InlineChanges B × CommitState V} _ (changes', t) d in
      let c1 =
        subst
          (λ (z : ℤ × CommitState V).
            write_batches partial_cmp add_columns z.0 z.1.snapshot_id inline_data
              changes.inline_data [] z.1
            ≡ some u)
          (sym q) c in
      let (last, rows, rows_eq, made) =
        write_batches-numbered table s1.snapshot_id inline_data changes.inline_data u.0.0 [] u.0.1
          s1 u.1 n c1 k in
      (
        ap (λ (z : InlineChanges B × CommitState V). next_row_id z.1 table) (sym r) ∙ last,
        rows,
        ap (λ (z : InlineChanges B × CommitState V). or_default [] z.0.inline_data table) (sym r)
            ∙ rows_eq,
        made,
      )
