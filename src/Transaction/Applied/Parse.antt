-- ===== src/Transaction/Applied/Parse.antt =====
-- `FromStr` for `AppliedChange` and `AppliedChangeSet` of applied_change.rs.
use ducklake_sdk.Common.{Bool, ◌||◌, List, [], ◌∷◌, list_beq, nat_eq, if◌then◌else◌}
use ducklake_sdk.Common.Int.{ℤ}
use ducklake_sdk.Common.Text.{Text, codes, text, format, split, splitn2}
use ducklake_sdk.Common.Text.Decimal.{IntResult, int, int_error, parse_i64, display_parse_int_error}
use ducklake_sdk.Common.Error.{Result, ok, err, ◌>>=◌, ok_or, collect, parsing}
use ducklake_sdk.Typedefs.Regex.{RegexCrate}
use ducklake_sdk.Typedefs.Names.{parse_schema_name, parse_qualified_name}
use ducklake_sdk.Transaction.Applied.{
  AppliedChange, created_schema, created_table, created_view, created_scalar_macro,
  created_table_macro, inserted_into_table, deleted_from_table, compacted_table, inlined_insert,
  inlined_delete, inline_flush, merge_adjacent, rewrite_delete, dropped_schema, dropped_table,
  dropped_view, dropped_scalar_macro, dropped_table_macro, altered_table, altered_view, new,
}

abbrev id_or_error : Text → IntResult → Result ℤ
id_or_error s (int id) = ok id
id_or_error s (int_error e) = err (
    parsing (format (text "invalid entity ID '" ∷ s ∷ text "': " ∷ display_parse_int_error e ∷ [])))

-- `parse_id`.
unfoldable pub parse_id : Text → Result ℤ
parse_id s = id_or_error s (parse_i64 s)

-- `str == literal`.
abbrev is : Text → Text → Bool
is s t = list_beq s t

module _ (regexes : RegexCrate) where
  -- The match on the word before the colon.
  unfoldable pub parse_change : Text → Text → Result AppliedChange
  parse_change word param =
      if is word (codes "created_schema")
      then (parse_schema_name regexes param >>= λ name. ok (created_schema name))
      else if is word (codes "created_table")
      then (parse_qualified_name regexes param >>= λ name. ok (created_table name))
      else if is word (codes "created_view")
      then (parse_qualified_name regexes param >>= λ name. ok (created_view name))
      else if is word (codes "created_scalar_macro")
      then ok (created_scalar_macro param)
      else if is word (codes "created_table_macro")
      then ok (created_table_macro param)
      else if is word (codes "inserted_into_table")
      then (parse_id param >>= λ id. ok (inserted_into_table id))
      else if is word (codes "deleted_from_table")
      then (parse_id param >>= λ id. ok (deleted_from_table id))
      else if is word (codes "inlined_insert")
      then (parse_id param >>= λ id. ok (inlined_insert id))
      else if is word (codes "inlined_delete")
      then (parse_id param >>= λ id. ok (inlined_delete id))
      else if (is word (codes "inline_flush") || is word (codes "flushed_inlined"))
      then (parse_id param >>= λ id. ok (inline_flush id))
      else if is word (codes "merge_adjacent")
      then (parse_id param >>= λ id. ok (merge_adjacent id))
      else if is word (codes "rewrite_delete")
      then (parse_id param >>= λ id. ok (rewrite_delete id))
      else if is word (codes "compacted_table")
      then (parse_id param >>= λ id. ok (compacted_table id))
      else if is word (codes "dropped_schema")
      then (parse_id param >>= λ id. ok (dropped_schema id))
      else if is word (codes "dropped_table")
      then (parse_id param >>= λ id. ok (dropped_table id))
      else if is word (codes "dropped_view")
      then (parse_id param >>= λ id. ok (dropped_view id))
      else if is word (codes "dropped_scalar_macro")
      then (parse_id param >>= λ id. ok (dropped_scalar_macro id))
      else if is word (codes "dropped_table_macro")
      then (parse_id param >>= λ id. ok (dropped_table_macro id))
      else if is word (codes "altered_table")
      then (parse_id param >>= λ id. ok (altered_table id))
      else if is word (codes "altered_view")
      then (parse_id param >>= λ id. ok (altered_view id))
      else err (parsing (format (text "unknown change type '" ∷ word ∷ text "'" ∷ [])))

  -- `FromStr for AppliedChange`.
  unfoldable pub parse : Text → Result AppliedChange
  parse s = do
    let (word, rest) = splitn2 b':' s
    param ← ok_or rest (parsing (text "invalid change type format (missing ':')"))
    parse_change word param

  -- `FromStr for AppliedChangeSet`.
  unfoldable pub parse_set : Text → Result (List AppliedChange)
  parse_set s = do changes ← collect parse (split b',' s); ok (new changes)
