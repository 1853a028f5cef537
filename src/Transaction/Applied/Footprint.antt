-- ===== src/Transaction/Applied/Footprint.antt =====
-- What a committed change touches, and when two changes conflict: a description of the conflict
-- matrix by the objects that are created, dropped, altered and written, to set beside
-- `AppliedChange::check_conflict`.
use ducklake_sdk.Common.{◌≡◌, ◌⊎◌, true, Option, none, some}
use ducklake_sdk.Common.Int.{ℤ}
use ducklake_sdk.Common.Text.{Text, eq_ignore_ascii_case}
use ducklake_sdk.Common.Error.{Result, ok, err}
use ducklake_sdk.Typedefs.Regex.{RegexCrate}
use ducklake_sdk.Typedefs.Names.{QualifiedName, parse_qualified_name}
use ducklake_sdk.Typedefs.Layout.{MacroType, scalar, table as table_macro}
use ducklake_sdk.Catalog.Entities.{Catalog}
use ducklake_sdk.Catalog.Views.{schema_name_by_id}
use ducklake_sdk.Transaction.Applied.{
  AppliedChange, created_schema, created_table, created_view, created_scalar_macro,
  created_table_macro, inserted_into_table, deleted_from_table, compacted_table, inlined_insert,
  inlined_delete, dropped_schema, dropped_table, dropped_view, dropped_scalar_macro,
  dropped_table_macro, altered_table, altered_view,
}

pub data Object : Type 0 where
  schema table view macro : ℤ → Object

abbrev pub creates_schema : AppliedChange → Option Text
creates_schema (created_schema name) = some name
creates_schema _ = none

-- Tables and views share their names.
abbrev pub creates_relation : AppliedChange → Option QualifiedName
creates_relation (created_table name) = some name
creates_relation (created_view name) = some name
creates_relation _ = none

abbrev pub creates_macro : AppliedChange → Option (MacroType × Text)
creates_macro (created_scalar_macro name) = some (scalar, name)
creates_macro (created_table_macro name) = some (table_macro, name)
creates_macro _ = none

abbrev pub drops : AppliedChange → Option Object
drops (dropped_schema id) = some (schema id)
drops (dropped_table id) = some (table id)
drops (dropped_view id) = some (view id)
drops (dropped_scalar_macro id) = some (macro id)
drops (dropped_table_macro id) = some (macro id)
drops _ = none

abbrev pub alters : AppliedChange → Option Object
alters (altered_table id) = some (table id)
alters (altered_view id) = some (view id)
alters _ = none

abbrev pub inserts_into : AppliedChange → Option ℤ
inserts_into (inserted_into_table id) = some id
inserts_into (inlined_insert id) = some id
inserts_into _ = none

abbrev pub deletes_from : AppliedChange → Option ℤ
deletes_from (deleted_from_table id) = some id
deletes_from (inlined_delete id) = some id
deletes_from _ = none

abbrev pub compacts : AppliedChange → Option ℤ
compacts (compacted_table id) = some id
compacts _ = none

abbrev pub schema_of : Result QualifiedName → Option Text
schema_of (ok name) = some name.schema
schema_of (err e) = none

module _ {V : Type 0} (regexes : RegexCrate) (catalog : Catalog V) where
  -- The schema in which a change creates a table, a view or a macro.
  abbrev pub home : AppliedChange → Option Text
  home (created_table name) = some name.schema
  home (created_view name) = some name.schema
  home (created_scalar_macro name) = schema_of (parse_qualified_name regexes name)
  home (created_table_macro name) = schema_of (parse_qualified_name regexes name)
  home _ = none

  -- `lhs`, not yet committed, conflicts with `rhs`, which has been.
  pub data Conflicts (lhs rhs : AppliedChange) : Type 0 where
    same_schema :
        (name : Text)
        → creates_schema lhs ≡ some name
        → creates_schema rhs ≡ some name
        → Conflicts lhs rhs
    same_relation :
        (name : QualifiedName)
        → creates_relation lhs ≡ some name
        → creates_relation rhs ≡ some name
        → Conflicts lhs rhs
    same_macro :
        (kind : MacroType) (name other : Text)
        → creates_macro lhs ≡ some (kind, name)
        → creates_macro rhs ≡ some (kind, other)
        → eq_ignore_ascii_case name other ≡ true
        → Conflicts lhs rhs
    same_drop :
        (object : Object) → drops lhs ≡ some object → drops rhs ≡ some object → Conflicts lhs rhs
    drop_of_used :
        (id : ℤ) (name : Text)
        → drops lhs ≡ some (schema id)
        → home rhs ≡ some name
        → schema_name_by_id catalog id ≡ ok name
        → Conflicts lhs rhs
    use_of_dropped :
        (id : ℤ) (name : Text)
        → home lhs ≡ some name
        → drops rhs ≡ some (schema id)
        → schema_name_by_id catalog id ≡ ok name
        → Conflicts lhs rhs
    stale_alter :
        (object : Object)
        → alters lhs ≡ some object
        → (alters rhs ≡ some object) ⊎ (drops rhs ≡ some object)
        → Conflicts lhs rhs
    stale_insert :
        (id : ℤ)
        → inserts_into lhs ≡ some id
        → (alters rhs ≡ some (table id)) ⊎ (drops rhs ≡ some (table id))
        → Conflicts lhs rhs
    stale_delete :
        (id : ℤ)
        → deletes_from lhs ≡ some id
        → (alters rhs ≡ some (table id))
          ⊎ (drops rhs ≡ some (table id))
          ⊎ (rhs ≡ deleted_from_table id)
          ⊎ (compacts rhs ≡ some id)
        → Conflicts lhs rhs
    stale_compaction :
        (id : ℤ)
        → compacts lhs ≡ some id
        → (drops rhs ≡ some (table id)) ⊎ (deletes_from rhs ≡ some id)
        → Conflicts lhs rhs
