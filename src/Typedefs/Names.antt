-- ===== src/Typedefs/Names.antt =====
-- crates/ducklake/src/typedefs/name.rs: qualified names and their text.
unfoldable pub use ducklake_sdk.Typedefs.Identifier.{
  quote_mark, quote, format_component, format_identifier,
}
use ducklake_sdk.Common.{
  ◌≡◌, ◌≢◌, ◌↔◌, Bool, true, ◌&&◌, List, [], ◌∷◌, Option, some, arith, Eq, list_eq, nat_eq,
  list_beq, list_beq_iff,
}
use ducklake_sdk.Common.Error.{Result, ok, err, ◌>>=◌, invalid_qualified_name, invalid_schema_name}
use ducklake_sdk.Common.Text.{Text, codes}
use ducklake_sdk.Typedefs.Regex.{RegexCrate}
use ducklake_sdk.Typedefs.Identifier.{parse_identifier}
use ducklake_sdk.Typedefs.Identifier.RoundTrip.{parse_identifier-format_identifier}

-- `QualifiedName`.
pub record QualifiedName : Type 0 where
  pub schema : Text
  pub name : Text

abbrev pub qualified_name_beq : QualifiedName → QualifiedName → Bool
qualified_name_beq a b = list_beq a.schema b.schema && list_beq a.name b.name

pub qualified_name_beq_iff : (a b : QualifiedName) → (qualified_name_beq a b ≡ true) ↔ (a ≡ b)
qualified_name_beq_iff a b =
    ground (arith, list_beq_iff a.schema b.schema, list_beq_iff a.name b.name)

instance abbrev pub qualified_name_eq : Eq QualifiedName
qualified_name_eq = record { beq = qualified_name_beq; beq_iff = qualified_name_beq_iff }

-- `Display for QualifiedName`.
unfoldable pub display_qualified_name : QualifiedName → Text
unfolding format_identifier
display_qualified_name n = format_identifier (n.schema ∷ n.name ∷ [])

-- `Display for SchemaName`.
unfoldable pub display_schema_name : Text → Text
unfolding format_identifier
display_schema_name s = format_identifier (s ∷ [])

abbrev pub schema_name_of : Text → Option (List Text) → Result Text
schema_name_of s (some (c ∷ [])) = ok c
schema_name_of s _ = err (invalid_schema_name s)

abbrev pub qualified_name_of : Text → Option (List Text) → Result QualifiedName
qualified_name_of s (some (c ∷ [])) = ok (record { schema = codes "main"; name = c })
qualified_name_of s (some (c ∷ d ∷ [])) = ok (record { schema = c; name = d })
qualified_name_of s _ = err (invalid_qualified_name s)

module _ (regexes : RegexCrate) where
  -- `FromStr for SchemaName`.
  unfoldable pub parse_schema_name : Text → Result Text
  unfolding parse_identifier
  parse_schema_name s = parse_identifier regexes s >>= λ components. schema_name_of s components

  -- `FromStr for QualifiedName`.
  unfoldable pub parse_qualified_name : Text → Result QualifiedName
  unfolding parse_identifier
  parse_qualified_name s =
      parse_identifier regexes s >>= λ components. qualified_name_of s components

  pub parse-display_schema_name :
      (s : Text) → s ≢ [] → parse_schema_name (display_schema_name s) ≡ ok s
  unfolding parse_schema_name display_schema_name
  parse-display_schema_name s h =
      rw (parse_identifier-format_identifier regexes s [] (h, tt), parse_schema_name)

  pub parse-display_qualified_name :
      (n : QualifiedName)
      → n.schema ≢ []
      → n.name ≢ []
      → parse_qualified_name (display_qualified_name n) ≡ ok n
  unfolding parse_qualified_name display_qualified_name
  parse-display_qualified_name n h k = rw (
    parse_identifier-format_identifier regexes n.schema (n.name ∷ []) (h, (k, tt)),
    parse_qualified_name,
  )
