-- ===== src/Typedefs/Identifier.antt =====
-- crates/ducklake/src/utils/identifier.rs: identifiers with dots, their reading through regular expressions
-- and their writing.
pub mod Quoted
pub mod RoundTrip
pub mod Opening
use ducklake_sdk.Common.{
  ℕ, Bool, ◌&&◌, ◌||◌, not, List, [], ◌∷◌, ◌++◌, map, Option, none, some, leb, nat_beq,
  if◌then◌else◌,
}
use ducklake_sdk.Common.Error.{Result, ok, ◌>>=◌, ok_or, collect, panicked}
use ducklake_sdk.Common.Text.{Text, split, join}
use ducklake_sdk.Typedefs.Regex.{
  Regex, begin, finish, one_of, seq, alt, star, group, plus, Captures, RegexCrate,
}

abbrev pub quote_mark : ℕ
quote_mark = b'"'

-- `quote`: every quotation mark is doubled.
unfoldable pub quote : Text → Text
quote [] = []
quote (c ∷ s) =
    let rest = quote s in if nat_beq c quote_mark then quote_mark ∷ quote_mark ∷ rest else c ∷ rest

-- `unquote`: of two quotation marks one is left.
unfoldable pub unquote : Text → Text
unquote [] = []
unquote (c ∷ []) = c ∷ []
unquote (c ∷ d ∷ s) =
    let behind = unquote s in
    let rest = unquote (d ∷ s) in
    if nat_beq c quote_mark && nat_beq d quote_mark then quote_mark ∷ behind else c ∷ rest

-- One component of `format_identifier`.
unfoldable pub format_component : Text → Text
unfolding quote
format_component s = quote_mark ∷ (quote s ++ (quote_mark ∷ []))

unfoldable pub format_identifier : List Text → Text
unfolding format_component join
format_identifier components = join (b'.' ∷ []) (map format_component components)

-- `[a-zA-Z_]` and `[a-zA-Z0-9_]`.
abbrev starts_name : ℕ → Bool
starts_name c = (leb b'a' c && leb c b'z') || (leb b'A' c && leb c b'Z') || nat_beq c b'_'

abbrev continues_name : ℕ → Bool
continues_name c = starts_name c || (leb b'0' c && leb c b'9')

-- `UNQUOTED_IDENTIFIER`, its group having the number `n`.
abbrev pub unquoted_identifier : ℕ → Regex
unquoted_identifier n = group n (seq (one_of starts_name) (star (one_of continues_name)))

abbrev pub quotation : Regex
quotation = one_of (λ c. nat_beq c quote_mark)

-- `[^"]|""`, and one or more of it.
abbrev pub quoted_character : Regex
quoted_character = alt (one_of (λ c. not (nat_beq c quote_mark))) (seq quotation quotation)

-- `QUOTED_IDENTIFIER`.
abbrev pub quoted_identifier : ℕ → Regex
quoted_identifier n = seq quotation (seq (group n (plus quoted_character)) quotation)

abbrev pub dot : Regex
dot = one_of (λ c. nat_beq c b'.')

-- `DOT_SEPARATED_UNQUOTED_IDENTIFIERS`.
abbrev pub dot_separated_unquoted_identifiers : Regex
dot_separated_unquoted_identifiers = seq begin (
    seq (unquoted_identifier 1)
      (seq (star (group 2 (seq dot (plus (unquoted_identifier 3))))) finish))

-- What may follow a component: the `+` of the pattern stands behind the closing mark.
abbrev pub dot_and_quoted : Regex
dot_and_quoted =
    group 2 (seq dot (seq quotation (seq (group 3 (plus quoted_character)) (plus quotation))))

-- `DOT_SEPARATED_QUOTED_IDENTIFIERS`.
abbrev pub dot_separated_quoted_identifiers : Regex
dot_separated_quoted_identifiers =
    seq begin (seq (quoted_identifier 1) (seq (star dot_and_quoted) finish))

-- `caps[n]`: what the group took last. A group that took no part panics.
unfoldable pub capture : ℕ → Captures → Option Text
capture n [] = none
capture n ((k, t) ∷ captures) = elim (capture n captures) [
  | none ↦ if nat_beq k n then some t else none
  | some u ↦ some u
]

module _ (regexes : RegexCrate) where
  open regexes use {is_match, captures_iter}

  -- `&caps[1]` without its quotation marks.
  unfoldable pub component : Captures → Result Text
  unfolding capture unquote
  component captures = do t ← ok_or (capture 1 captures) panicked; ok (unquote t)

  -- `parse_identifier`.
  unfoldable pub parse_identifier : Text → Result (Option (List Text))
  unfolding split component
  parse_identifier s =
      if is_match dot_separated_unquoted_identifiers s
      then ok (some (split b'.' s))
      else if is_match dot_separated_quoted_identifiers s
      then (collect component (captures_iter (quoted_identifier 1) s) >>= λ components.
          ok (some components))
      else ok none
