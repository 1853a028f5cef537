-- ===== src/Transaction/Applied.antt =====
-- crates/ducklake/src/transaction/changes/applied_change.rs: the changes that a commit records for
-- other writers, their text form, and the sets of them.
pub mod Conflict
pub mod Footprint
pub mod Resolution
pub mod Parse
pub mod Comma
pub mod RoundTrip
use native.Mathlib.Decide.{ℕ_discrete}
use ducklake_sdk.Common.{
  ℕ, ◌≡◌, refl, Bool, true, false, List, [], ◌∷◌, ◌++◌, map, Option, none, some, Eq, discrete_eq,
  discrete_beq, discrete_beq_iff, list_beq, nat_eq, if◌then◌else◌,
}
use ducklake_sdk.Common.Int.{ℤ}
use ducklake_sdk.Common.Text.{Text, codes, text, join}
use ducklake_sdk.Common.Text.Decimal.{display_i64}
use ducklake_sdk.Common.Unique.{unique_by}
use ducklake_sdk.Typedefs.Names.{QualifiedName, display_qualified_name, display_schema_name}

-- `AppliedChange`. A `SchemaName` is its text.
pub data AppliedChange : Type 0 where
  created_schema : Text → AppliedChange
  created_table created_view : QualifiedName → AppliedChange
  created_scalar_macro created_table_macro : Text → AppliedChange
  inserted_into_table deleted_from_table compacted_table : ℤ → AppliedChange
  inlined_insert inlined_delete inline_flush : ℤ → AppliedChange
  merge_adjacent rewrite_delete : ℤ → AppliedChange
  dropped_schema dropped_table dropped_view : ℤ → AppliedChange
  dropped_scalar_macro dropped_table_macro : ℤ → AppliedChange
  altered_table altered_view : ℤ → AppliedChange

-- The derived equality.
unfoldable pub AppliedChange-discrete : Discrete AppliedChange
AppliedChange-discrete = hlevel ℕ_discrete

instance abbrev pub applied_change_eq : Eq AppliedChange
applied_change_eq = record {
  beq = discrete_beq AppliedChange-discrete;
  beq_iff = discrete_beq_iff AppliedChange-discrete;
}

-- `AppliedChangeSet::new`: the changes without repetitions.
unfoldable pub new : List AppliedChange → List AppliedChange
unfolding unique_by
new changes = unique_by (λ change. change) changes

-- `AppliedChange::action`.
unfoldable pub action : AppliedChange → Text
action (created_schema _) = text "created"
action (created_table _) = text "created"
action (created_view _) = text "created"
action (created_scalar_macro _) = text "created"
action (created_table_macro _) = text "created"
action (dropped_schema _) = text "dropped"
action (dropped_table _) = text "dropped"
action (dropped_view _) = text "dropped"
action (dropped_scalar_macro _) = text "dropped"
action (dropped_table_macro _) = text "dropped"
action (altered_table _) = text "altered"
action (altered_view _) = text "altered"
action (compacted_table _) = text "compacted"
action (inserted_into_table _) = text "inserted into"
action (inlined_insert _) = text "inserted into"
action (deleted_from_table _) = text "deleted from"
action (inlined_delete _) = text "deleted from"
action (inline_flush _) = text "flushed inlined changes for"
action (merge_adjacent _) = text "merged adjacent changes for"
action (rewrite_delete _) = text "rewrote delete file for"

-- `Display for AppliedChange`.
unfoldable pub display : AppliedChange → Text
display (created_schema name) = codes "created_schema" ++ (b':' ∷ display_schema_name name)
display (created_table name) = codes "created_table" ++ (b':' ∷ display_qualified_name name)
display (created_view name) = codes "created_view" ++ (b':' ∷ display_qualified_name name)
display (created_scalar_macro name) = codes "created_scalar_macro" ++ (b':' ∷ name)
display (created_table_macro name) = codes "created_table_macro" ++ (b':' ∷ name)
display (inserted_into_table id) = codes "inserted_into_table" ++ (b':' ∷ display_i64 id)
display (deleted_from_table id) = codes "deleted_from_table" ++ (b':' ∷ display_i64 id)
display (inlined_insert id) = codes "inlined_insert" ++ (b':' ∷ display_i64 id)
display (inlined_delete id) = codes "inlined_delete" ++ (b':' ∷ display_i64 id)
display (inline_flush id) = codes "inline_flush" ++ (b':' ∷ display_i64 id)
display (merge_adjacent id) = codes "merge_adjacent" ++ (b':' ∷ display_i64 id)
display (rewrite_delete id) = codes "rewrite_delete" ++ (b':' ∷ display_i64 id)
display (compacted_table id) = codes "compacted_table" ++ (b':' ∷ display_i64 id)
display (dropped_schema id) = codes "dropped_schema" ++ (b':' ∷ display_i64 id)
display (dropped_table id) = codes "dropped_table" ++ (b':' ∷ display_i64 id)
display (dropped_view id) = codes "dropped_view" ++ (b':' ∷ display_i64 id)
display (dropped_scalar_macro id) = codes "dropped_scalar_macro" ++ (b':' ∷ display_i64 id)
display (dropped_table_macro id) = codes "dropped_table_macro" ++ (b':' ∷ display_i64 id)
display (altered_table id) = codes "altered_table" ++ (b':' ∷ display_i64 id)
display (altered_view id) = codes "altered_view" ++ (b':' ∷ display_i64 id)

-- `Display for AppliedChangeSet`: the first change, and a comma before each further one.
abbrev pub commas : List AppliedChange → Text
commas [] = []
commas (change ∷ changes) = b',' ∷ (display change ++ commas changes)

unfoldable pub display_set : List AppliedChange → Text
display_set [] = []
display_set (first ∷ changes) = display first ++ commas changes
