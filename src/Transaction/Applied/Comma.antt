-- ===== src/Transaction/Applied/Comma.antt =====
-- Names that hold a comma: the text of a set of changes is split at every comma, also at those
-- inside a quoted name.
use ducklake_sdk.Common.{◌≡◌, refl, ap, ◌∙◌, List, [], ◌∷◌, ◌++◌, append_assoc, arith, nat_beq_iff}
use ducklake_sdk.Common.Text.{Text, codes, Lacks, split, split-append, join}
use ducklake_sdk.Common.Error.{ok, err, ◌>>=◌, collect, invalid_schema_name}
use ducklake_sdk.Typedefs.Regex.{RegexCrate}
use ducklake_sdk.Typedefs.Identifier.Opening.{parse_identifier_opening}
use ducklake_sdk.Typedefs.Names.{
  parse_schema_name, quote_mark, quote, format_component, format_identifier, display_schema_name,
}
use ducklake_sdk.Transaction.Applied.{
  AppliedChange, created_schema, new, display, display_set, commas,
}
use ducklake_sdk.Transaction.Applied.Parse.{parse_change, parse, parse_set}
use ducklake_sdk.Transaction.Applied.RoundTrip.{parse_word}

quote-append : (a b : Text) → quote (a ++ b) ≡ quote a ++ quote b
unfolding quote
quote-append [] b = refl
quote-append (c ∷ a) b = ground (arith, quote-append a b)

quote-Lacks : (a : Text) → Lacks b',' a → Lacks b',' (quote a)
unfolding quote
quote-Lacks [] h = tt
quote-Lacks (c ∷ a) h = ground (arith, quote-Lacks a h.1, nat_beq_iff c quote_mark)

module _ (regexes : RegexCrate) where
  parse_opening :
      (a : Text)
      → parse_schema_name regexes (quote_mark ∷ quote a)
        ≡ err (invalid_schema_name (quote_mark ∷ quote a))
  unfolding parse_schema_name
  parse_opening a = rw (parse_identifier_opening regexes a) refl

  abbrev first_part : Text → Text
  first_part a = codes "created_schema" ++ (b':' ∷ quote_mark ∷ quote a)

  first_part-Lacks : (a : Text) → Lacks b',' a → Lacks b',' (first_part a)
  first_part-Lacks a h = ground (arith, quote-Lacks a h)

  -- The text is cut inside the quoted name.
  text_cut :
      (a b : Text) (cs : List AppliedChange)
      → display_set (created_schema (a ++ (b',' ∷ b)) ∷ cs)
        ≡ first_part a ++ (b',' ∷ ((quote b ++ (quote_mark ∷ [])) ++ commas cs))
  unfolding display_set display display_schema_name format_identifier format_component join quote
  text_cut a b cs =
      ap
        (λ q.
          (codes "created_schema" ++ (b':' ∷ quote_mark ∷ (q ++ (quote_mark ∷ [])))) ++ commas cs)
        (quote-append a (b',' ∷ b))
      ∙ ap (λ q. codes "created_schema" ++ (b':' ∷ quote_mark ∷ (q ++ commas cs)))
          (append_assoc (quote a) (b',' ∷ quote b) (quote_mark ∷ []))
      ∙ ap (λ q. codes "created_schema" ++ (b':' ∷ quote_mark ∷ q))
          (append_assoc (quote a) (b',' ∷ (quote b ++ (quote_mark ∷ []))) (commas cs))

  first_part_unreadable :
      (a : Text) → parse regexes (first_part a) ≡ err (invalid_schema_name (quote_mark ∷ quote a))
  unfolding parse_change
  first_part_unreadable a =
      parse_word regexes (codes "created_schema") (quote_mark ∷ quote a) refl
      ∙ rw (parse_opening a) refl

  collect_first :
      (p : Text) (ps : List Text) (q : Text)
      → parse regexes p ≡ err (invalid_schema_name q)
      → collect (parse regexes) (p ∷ ps) ≡ err (invalid_schema_name q)
  collect_first p ps q h = rw (h) refl

  -- A set whose first change creates a schema with a comma in its name is written, but its text is
  -- refused when it is read: the name is cut at its first comma.
  pub parse_set_comma :
      (a b : Text) (cs : List AppliedChange)
      → Lacks b',' a
      → parse_set regexes (display_set (created_schema (a ++ (b',' ∷ b)) ∷ cs))
        ≡ err (invalid_schema_name (quote_mark ∷ quote a))
  unfolding parse_set
  parse_set_comma a b cs h =
      ap (λ parts. collect (parse regexes) parts >>= λ changes. ok (new changes))
        (ap (split b',') (text_cut a b cs)
          ∙ split-append b',' (first_part a) ((quote b ++ (quote_mark ∷ [])) ++ commas cs)
              (first_part-Lacks a h))
      ∙ ap (λ r. r >>= λ changes. ok (new changes))
          (collect_first (first_part a) (split b',' ((quote b ++ (quote_mark ∷ [])) ++ commas cs))
            (quote_mark ∷ quote a) (first_part_unreadable a))
