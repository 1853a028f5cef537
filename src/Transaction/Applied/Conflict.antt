-- ===== src/Transaction/Applied/Conflict.antt =====
-- `check_conflict` of applied_change.rs: whether a change of this transaction can be committed
-- after a change that another writer has committed in the meantime.
use ducklake_sdk.Common.{Bool, true, false, List, [], ◌∷◌, list_beq, nat_eq}
use ducklake_sdk.Common.Int.{ℤ, ℤ_beq}
use ducklake_sdk.Common.Text.{Text, text, format, eq_ignore_ascii_case}
use ducklake_sdk.Common.Text.Decimal.{display_i64}
use ducklake_sdk.Common.Error.{Result, ok, err, ◌>>=◌, ◌>>◌, transaction_conflict}
use ducklake_sdk.Typedefs.Regex.{RegexCrate}
use ducklake_sdk.Typedefs.Names.{
  qualified_name_beq, display_qualified_name, display_schema_name, parse_qualified_name,
}
use ducklake_sdk.Catalog.Entities.{Catalog}
use ducklake_sdk.Catalog.Views.{schema_name_by_id}
use ducklake_sdk.Transaction.Applied.{
  AppliedChange, created_schema, created_table, created_view, created_scalar_macro,
  created_table_macro, inserted_into_table, deleted_from_table, compacted_table, inlined_insert,
  inlined_delete, dropped_schema, dropped_table, dropped_view, dropped_scalar_macro,
  dropped_table_macro, altered_table, altered_view, action,
}

-- A guarded arm of the match: the conflict with its message, or the arms below, which accept.
unfoldable pub conflict_if : Bool → List Text → Result (Unit {0})
conflict_if true parts = err (transaction_conflict (format parts))
conflict_if false parts = ok tt

module _ {V : Type 0} (regexes : RegexCrate) (catalog : Catalog V) where
  -- The arms that compare a dropped schema with the schema of a new object.
  unfoldable pub dropped_under : ℤ → Text → List Text → Result (Unit {0})
  unfolding conflict_if
  dropped_under schema_id schema parts = do
    name ← schema_name_by_id catalog schema_id
    conflict_if (list_beq name schema) parts

  unfoldable pub dropped_under_macro : ℤ → Text → Result (Unit {0})
  unfolding conflict_if
  dropped_under_macro schema_id name = do
    schema ← schema_name_by_id catalog schema_id
    macro_name ← parse_qualified_name regexes name
    conflict_if (list_beq schema macro_name.schema) (
        text "attempting to drop schema with ID "
        ∷ display_i64 schema_id
        ∷ text " but macro "
        ∷ display_qualified_name macro_name
        ∷ text " was created in it"
        ∷ [])

  -- `AppliedChange::check_conflict`, `self` first.
  unfoldable pub check_conflict : AppliedChange → AppliedChange → Result (Unit {0})
  unfolding conflict_if dropped_under dropped_under_macro
  check_conflict (created_schema l) (created_schema r) = conflict_if (list_beq l r) (
      text "attempting to create schema "
      ∷ display_schema_name l
      ∷ text " but it was already "
      ∷ action (created_schema r)
      ∷ [])
  check_conflict (dropped_schema l) (dropped_schema r) = conflict_if (ℤ_beq l r) (
      text "attempting to drop schema with ID "
      ∷ display_i64 l
      ∷ text " but it was already "
      ∷ action (dropped_schema r)
      ∷ [])
  check_conflict (dropped_schema id) (created_table name) = dropped_under id name.schema (
      text "attempting to drop schema with ID "
      ∷ display_i64 id
      ∷ text " but table "
      ∷ display_qualified_name name
      ∷ text " was created in it"
      ∷ [])
  check_conflict (created_table name) (dropped_schema id) = dropped_under id name.schema (
      text "attempting to drop schema with ID "
      ∷ display_i64 id
      ∷ text " but table "
      ∷ display_qualified_name name
      ∷ text " was created in it"
      ∷ [])
  check_conflict (dropped_schema id) (created_view name) = dropped_under id name.schema (
      text "attempting to drop schema with ID "
      ∷ display_i64 id
      ∷ text " but view "
      ∷ display_qualified_name name
      ∷ text " was created in it"
      ∷ [])
  check_conflict (created_view name) (dropped_schema id) = dropped_under id name.schema (
      text "attempting to drop schema with ID "
      ∷ display_i64 id
      ∷ text " but view "
      ∷ display_qualified_name name
      ∷ text " was created in it"
      ∷ [])
  check_conflict (dropped_schema id) (created_scalar_macro name) = dropped_under_macro id name
  check_conflict (created_scalar_macro name) (dropped_schema id) = dropped_under_macro id name
  check_conflict (dropped_schema id) (created_table_macro name) = dropped_under_macro id name
  check_conflict (created_table_macro name) (dropped_schema id) = dropped_under_macro id name
  check_conflict (created_table l) (created_table r) = conflict_if (qualified_name_beq l r) (
      text "attempting to create table "
      ∷ display_qualified_name l
      ∷ text " but it was already "
      ∷ action (created_table r)
      ∷ [])
  check_conflict (dropped_table l) (dropped_table r) = conflict_if (ℤ_beq l r) (
      text "attempting to drop table with ID "
      ∷ display_i64 l
      ∷ text " but it was already "
      ∷ action (dropped_table r)
      ∷ [])
  check_conflict (altered_table l) (altered_table r) = conflict_if (ℤ_beq l r) (
      text "attempting to alter table with ID "
      ∷ display_i64 l
      ∷ text " but it was "
      ∷ action (altered_table r)
      ∷ [])
  check_conflict (altered_table l) (dropped_table r) = conflict_if (ℤ_beq l r) (
      text "attempting to alter table with ID "
      ∷ display_i64 l
      ∷ text " but it was "
      ∷ action (dropped_table r)
      ∷ [])
  check_conflict (created_view l) (created_view r) = conflict_if (qualified_name_beq l r) (
      text "attempting to create view "
      ∷ display_qualified_name l
      ∷ text " but it was already "
      ∷ action (created_view r)
      ∷ [])
  check_conflict (dropped_view l) (dropped_view r) = conflict_if (ℤ_beq l r) (
      text "attempting to drop view with ID "
      ∷ display_i64 l
      ∷ text " but it was already "
      ∷ action (dropped_view r)
      ∷ [])
  check_conflict (altered_view l) (altered_view r) = conflict_if (ℤ_beq l r) (
      text "attempting to alter view with ID "
      ∷ display_i64 l
      ∷ text " but it was "
      ∷ action (altered_view r)
      ∷ [])
  check_conflict (altered_view l) (dropped_view r) = conflict_if (ℤ_beq l r) (
      text "attempting to alter view with ID "
      ∷ display_i64 l
      ∷ text " but it was "
      ∷ action (dropped_view r)
      ∷ [])
  check_conflict (created_scalar_macro l) (created_scalar_macro r) =
      conflict_if (eq_ignore_ascii_case l r) (
        text "attempting to create macro "
        ∷ l
        ∷ text " but it was already "
        ∷ action (created_scalar_macro r)
        ∷ [])
  check_conflict (created_table_macro l) (created_table_macro r) =
      conflict_if (eq_ignore_ascii_case l r) (
        text "attempting to create macro "
        ∷ l
        ∷ text " but it was already "
        ∷ action (created_table_macro r)
        ∷ [])
  check_conflict (dropped_scalar_macro l) (dropped_scalar_macro r) = conflict_if (ℤ_beq l r) (
      text "attempting to drop macro with ID "
      ∷ display_i64 l
      ∷ text " but it was already "
      ∷ action (dropped_scalar_macro r)
      ∷ [])
  check_conflict (dropped_scalar_macro l) (dropped_table_macro r) = conflict_if (ℤ_beq l r) (
      text "attempting to drop macro with ID "
      ∷ display_i64 l
      ∷ text " but it was already "
      ∷ action (dropped_table_macro r)
      ∷ [])
  check_conflict (dropped_table_macro l) (dropped_scalar_macro r) = conflict_if (ℤ_beq l r) (
      text "attempting to drop macro with ID "
      ∷ display_i64 l
      ∷ text " but it was already "
      ∷ action (dropped_scalar_macro r)
      ∷ [])
  check_conflict (dropped_table_macro l) (dropped_table_macro r) = conflict_if (ℤ_beq l r) (
      text "attempting to drop macro with ID "
      ∷ display_i64 l
      ∷ text " but it was already "
      ∷ action (dropped_table_macro r)
      ∷ [])
  check_conflict (created_table l) (created_view r) = conflict_if (qualified_name_beq l r) (
      text "attempting to create relation "
      ∷ display_qualified_name l
      ∷ text " but it was already "
      ∷ action (created_view r)
      ∷ [])
  check_conflict (created_view l) (created_table r) = conflict_if (qualified_name_beq l r) (
      text "attempting to create relation "
      ∷ display_qualified_name l
      ∷ text " but it was already "
      ∷ action (created_table r)
      ∷ [])
  check_conflict (inserted_into_table l) (dropped_table r) = conflict_if (ℤ_beq l r) (
      text "attempting to insert into table with ID "
      ∷ display_i64 l
      ∷ text " but the table was "
      ∷ action (dropped_table r)
      ∷ [])
  check_conflict (inserted_into_table l) (altered_table r) = conflict_if (ℤ_beq l r) (
      text "attempting to insert into table with ID "
      ∷ display_i64 l
      ∷ text " but the table was "
      ∷ action (altered_table r)
      ∷ [])
  check_conflict (inlined_insert l) (dropped_table r) = conflict_if (ℤ_beq l r) (
      text "attempting to insert into table with ID "
      ∷ display_i64 l
      ∷ text " but the table was "
      ∷ action (dropped_table r)
      ∷ [])
  check_conflict (inlined_insert l) (altered_table r) = conflict_if (ℤ_beq l r) (
      text "attempting to insert into table with ID "
      ∷ display_i64 l
      ∷ text " but the table was "
      ∷ action (altered_table r)
      ∷ [])
  check_conflict (deleted_from_table l) (dropped_table r) = conflict_if (ℤ_beq l r) (
      text "attempting to delete from table with ID "
      ∷ display_i64 l
      ∷ text " but the table was "
      ∷ action (dropped_table r)
      ∷ [])
  check_conflict (deleted_from_table l) (altered_table r) = conflict_if (ℤ_beq l r) (
      text "attempting to delete from table with ID "
      ∷ display_i64 l
      ∷ text " but the table was "
      ∷ action (altered_table r)
      ∷ [])
  check_conflict (deleted_from_table l) (deleted_from_table r) = conflict_if (ℤ_beq l r) (
      text "attempting to delete from table with ID "
      ∷ display_i64 l
      ∷ text " but the table was "
      ∷ action (deleted_from_table r)
      ∷ [])
  check_conflict (deleted_from_table l) (compacted_table r) = conflict_if (ℤ_beq l r) (
      text "attempting to delete from table with ID "
      ∷ display_i64 l
      ∷ text " but the table was "
      ∷ action (compacted_table r)
      ∷ [])
  check_conflict (inlined_delete l) (dropped_table r) = conflict_if (ℤ_beq l r) (
      text "attempting to delete from table with ID "
      ∷ display_i64 l
      ∷ text " but the table was "
      ∷ action (dropped_table r)
      ∷ [])
  check_conflict (inlined_delete l) (altered_table r) = conflict_if (ℤ_beq l r) (
      text "attempting to delete from table with ID "
      ∷ display_i64 l
      ∷ text " but the table was "
      ∷ action (altered_table r)
      ∷ [])
  check_conflict (inlined_delete l) (deleted_from_table r) = conflict_if (ℤ_beq l r) (
      text "attempting to delete from table with ID "
      ∷ display_i64 l
      ∷ text " but the table was "
      ∷ action (deleted_from_table r)
      ∷ [])
  check_conflict (inlined_delete l) (compacted_table r) = conflict_if (ℤ_beq l r) (
      text "attempting to delete from table with ID "
      ∷ display_i64 l
      ∷ text " but the table was "
      ∷ action (compacted_table r)
      ∷ [])
  check_conflict (compacted_table l) (dropped_table r) = conflict_if (ℤ_beq l r) (
      text "attempting to compact table with ID "
      ∷ display_i64 l
      ∷ text " but it was "
      ∷ action (dropped_table r)
      ∷ [])
  check_conflict (compacted_table l) (deleted_from_table r) = conflict_if (ℤ_beq l r) (
      text "attempting to compact table with ID "
      ∷ display_i64 l
      ∷ text " but it was "
      ∷ action (deleted_from_table r)
      ∷ [])
  check_conflict (compacted_table l) (inlined_delete r) = conflict_if (ℤ_beq l r) (
      text "attempting to compact table with ID "
      ∷ display_i64 l
      ∷ text " but it was "
      ∷ action (inlined_delete r)
      ∷ [])
  check_conflict _ _ = ok tt

  -- `AppliedChangeSet::check_conflict`: every pair in turn, the first error wins.
  unfoldable pub check_against : AppliedChange → List AppliedChange → Result (Unit {0})
  check_against lhs [] = ok tt
  check_against lhs (rhs ∷ others) = check_conflict lhs rhs >> check_against lhs others

  unfoldable pub check_sets : List AppliedChange → List AppliedChange → Result (Unit {0})
  check_sets [] others = ok tt
  check_sets (lhs ∷ changes) others = check_against lhs others >> check_sets changes others
