-- ===== src/Transaction/Handles/Rollback.antt =====
-- The guard of crates/ducklake/src/transaction/mod.rs, under which the types of columns are changed.
use ducklake_sdk.Common.{◌≡◌, sym, ap, ◌∙◌, inl, inr, List, [], suc}
use ducklake_sdk.Common.Run.{Run, proceed, lift, each, ◌>>=◌}
use ducklake_sdk.Common.Text.{Text}
use ducklake_sdk.Common.Error.{Result, ok, err, DucklakeError, Result-split}
use ducklake_sdk.Primitives.DiffIterator.{iter_vec_diff}
use ducklake_sdk.Typedefs.Names.{QualifiedName}
use ducklake_sdk.Typedefs.Schema.{DataType, Column}
use ducklake_sdk.Catalog.Entities.{Catalog}
use ducklake_sdk.Catalog.TableReads.{column_info, schema_of}
use ducklake_sdk.Catalog.Columns.{name_of}
use ducklake_sdk.Catalog.Columns.Flat.{size_below}
use ducklake_sdk.Catalog.Columns.ToSchema.{try_schema}
use ducklake_sdk.Transaction.Handles.{Transaction, look_catalog, guarded, undo}
use ducklake_sdk.Transaction.Handles.Columns.{
  ColumnServices, dtype_of, update_column_of, update_table_column_dtype_recursive,
  update_table_column_dtype, update_table_schema,
}

module _ {V B : Type 0} where
  -- An operation that leaves the transaction as it was where it fails.
  abbrev AllOrNothing : {A : Type 0} → Run (Transaction V B) A → Type 0
  AllOrNothing m = (tx t : Transaction V B) (e : DucklakeError) → m tx ≡ (err e, t) → t ≡ tx

  undone :
      {A : Type 0} (tx t : Transaction V B) (e : DucklakeError) (r : Result A × Transaction V B)
      → undo tx r ≡ (err e, t)
      → t ≡ tx
  undone tx t e (ok a, u) h = let k = ap (λ z. z.0) h in cc
  undone tx t e (err x, u) h = sym (ap (λ z. z.1) h)

  guarded-AllOrNothing : {A : Type 0} (m : Run (Transaction V B) A) → AllOrNothing (guarded m)
  unfolding guarded
  guarded-AllOrNothing m tx t e h = undone tx t e (m tx) h

  -- A read before.
  after_look :
      {A C : Type 0} (f : Catalog V → Result A) (k : A → Run (Transaction V B) C)
      → ((a : A) → AllOrNothing (k a))
      → AllOrNothing (look_catalog f >>= k)
  after_look f k p tx t e h = elim (Result-split (f tx.catalog)) [
    | inl (a, q) ↦ p a tx t e (sym (ap (λ r. proceed (r, tx) k) q) ∙ h)
    | inr (x, q) ↦ sym (ap (λ z. z.1) (sym (ap (λ r. proceed (r, tx) k) q) ∙ h))
  ]

module _ {V B : Type 0} (services : ColumnServices V) where
  -- A change of the whole schema of a table that fails half-way leaves the catalog and the changes of the
  -- transaction as they were.
  pub update_table_schema-AllOrNothing :
      (name : QualifiedName) (columns : List (Column V)) (tx t : Transaction V B)
      (e : DucklakeError)
      → update_table_schema services name columns tx ≡ (err e, t)
      → t ≡ tx
  unfolding update_table_schema
  update_table_schema-AllOrNothing name columns tx t e h =
      after_look (schema_of name) _
        (λ old. guarded-AllOrNothing (
          lift (try_schema [] columns) >>= λ new.
          each (update_column_of services name) (iter_vec_diff name_of old new)))
        tx t e h

  -- The same of a change of the type of a column with all below it.
  update_table_column_dtype-AllOrNothing :
      (name : QualifiedName) (path : List Text) (d : DataType V) (tx t : Transaction V B)
      (e : DucklakeError)
      → update_table_column_dtype services name path d tx ≡ (err e, t)
      → t ≡ tx
  unfolding update_table_column_dtype
  update_table_column_dtype-AllOrNothing name path d tx t e h =
      after_look (column_info name path) _
        (λ existing. guarded-AllOrNothing (
          update_table_column_dtype_recursive services (suc (size_below d)) name path
            (dtype_of existing) d))
        tx t e h
