-- ===== src/Tests/Texts.antt =====
-- The text of recorded changes.
use ducklake_sdk.Common.{◌≡◌, refl, [], ◌∷◌, ◌++◌, inl, inr, arith, Elem, true, some, none}
use ducklake_sdk.Common.Int.{pos, negsuc}
use ducklake_sdk.Common.Text.{codes, join, split, lacks, lacks-Lacks}
use ducklake_sdk.Common.Text.Decimal.{display_i64, display_nat, parse_i64, parse-display_i64, int}
use ducklake_sdk.Common.Error.{ok, err, invalid_schema_name}
use ducklake_sdk.Typedefs.Names.{
  quote_mark, quote, display_qualified_name, format_identifier, format_component,
}
use ducklake_sdk.Typedefs.Regex.{backtracking, is_found, ways, rounds, all_captures}
use ducklake_sdk.Typedefs.Identifier.{parse_identifier, component, capture, unquote}
use ducklake_sdk.Typedefs.Identifier.RoundTrip.{parse_identifier-format_identifier}
use ducklake_sdk.Transaction.Applied.{
  AppliedChange, created_table, created_schema, dropped_table, display, display_set,
}
use ducklake_sdk.Transaction.Applied.Parse.{parse, parse_set}
use ducklake_sdk.Transaction.Applied.RoundTrip.{parse-display, parse_set-display_set}
use ducklake_sdk.Transaction.Applied.Comma.{parse_set_comma}

parse-display_i64_example : parse_i64 (display_i64 (negsuc 41)) ≡ int (negsuc 41)
parse-display_i64_example = parse-display_i64 (negsuc 41) (omega arith)

abbrev orders : AppliedChange
orders = created_table (record { schema = codes "main"; name = codes "or\"ders" })

parse-display_example : parse backtracking (display orders) ≡ ok orders
parse-display_example = parse-display backtracking orders (cc, cc)

abbrev drop : AppliedChange
drop = dropped_table (pos 12)

drop-lacks : lacks b',' (display drop) ≡ true
unfolding display display_i64 display_nat
drop-lacks = refl

orders-lacks : lacks b',' (display orders) ≡ true
unfolding display display_qualified_name format_identifier format_component quote join
orders-lacks = refl

apart : ¬ Elem orders (drop ∷ [])
apart (inl e) = cc
apart (inr i) = absurd i

parse_set-display_set_example :
    parse_set backtracking (display_set (orders ∷ drop ∷ [])) ≡ ok (orders ∷ drop ∷ [])
parse_set-display_set_example =
    parse_set-display_set backtracking orders (drop ∷ []) ((cc, cc), (omega arith, tt))
      (
        lacks-Lacks b',' (display orders) orders-lacks,
        (lacks-Lacks b',' (display drop) drop-lacks, tt),
      )
      (apart, ((λ h. h), tt))

parse_set_comma_example :
    parse_set backtracking
      (display_set (created_schema (codes "a" ++ (b',' ∷ codes "b")) ∷ drop ∷ []))
    ≡ err (invalid_schema_name (quote_mark ∷ quote (codes "a")))
parse_set_comma_example =
    parse_set_comma backtracking (codes "a") (codes "b") (drop ∷ [])
      (lacks-Lacks b',' (codes "a") refl)

-- The `+` behind a closing mark: a name with an unbalanced mark is read as if the mark were not there.
two_closing_marks :
    parse_identifier backtracking (codes "\"a\".\"b\"\"") ≡ ok (some (codes "a" ∷ codes "b" ∷ []))
unfolding parse_identifier is_found ways rounds all_captures component capture unquote
two_closing_marks = refl

unquoted_names :
    parse_identifier backtracking (codes "main.t_1") ≡ ok (some (codes "main" ∷ codes "t_1" ∷ []))
unfolding parse_identifier is_found ways rounds split
unquoted_names = refl

-- A quoted component behind an unquoted one.
mixed_names : parse_identifier backtracking (codes "a.\"b\"") ≡ ok none
unfolding parse_identifier is_found ways rounds
mixed_names = refl

-- A name with a quotation mark and a dot.
parse_identifier-format_identifier_example :
    parse_identifier backtracking (format_identifier (codes "main" ∷ codes "a\".b" ∷ []))
    ≡ ok (some (codes "main" ∷ codes "a\".b" ∷ []))
parse_identifier-format_identifier_example =
    parse_identifier-format_identifier backtracking (codes "main") (codes "a\".b" ∷ [])
      (cc, (cc, tt))
