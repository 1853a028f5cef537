-- ===== src/View/Sql.antt =====
-- `parse_select_query` of crates/ducklake/src/view/sql.rs. The sqlparser crate is a parameter.
use ducklake_sdk.Common.{Bool, List, [], ◌∷◌, ◌++◌, length, if◌then◌else◌}
use ducklake_sdk.Common.Text.{Text, codes}
use ducklake_sdk.Common.Text.Decimal.{display_nat}
use ducklake_sdk.Common.Error.{Result, ok, err, invalid_view}

-- What the code looks at in a `Statement`: whether it is a query, and what its body is.
pub data StatementKind : Type 0 where
  select_query other_query other_statement : StatementKind

-- What `Parser::parse_sql` gives: an error with its text, or the statements.
pub data ParsedSql (S : Type 0) : Type 0 where
  failed : Text → ParsedSql S
  parsed : List S → ParsedSql S

pub record SqlParser (S : Type 0) : Type 0 where
  pub dialect_from_str : Text → Bool
  pub parse_sql : Text → Text → ParsedSql S
  pub kind : S → StatementKind
  pub print : S → Text

module _ {S : Type 0} (p : SqlParser S) where
  abbrev checked : S → Result S
  checked statement = elim (p.kind statement) [
    | select_query ↦ ok statement
    | other_query ↦ err (invalid_view (codes "view definition must be a SELECT query"))
    | other_statement ↦ err (invalid_view (codes "view definition must be a SELECT query"))
  ]

  abbrev single : ParsedSql S → Result S
  unfolding display_nat
  single (failed e) = err (invalid_view (codes "failed to parse SQL: " ++ e))
  single (parsed (statement ∷ [])) = checked statement
  single (parsed statements) = err (
      invalid_view
        (codes "expected exactly one SQL statement but found " ++ display_nat (length statements)))

  -- `parse_select_query`.
  unfoldable pub parse_select_query : Text → Text → Result S
  unfolding single
  parse_select_query sql dialect =
      if p.dialect_from_str dialect
      then single (p.parse_sql dialect sql)
      else err (invalid_view (codes "invalid SQL dialect '" ++ dialect ++ codes "'"))
