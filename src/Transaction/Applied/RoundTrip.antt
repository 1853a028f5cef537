-- ===== src/Transaction/Applied/RoundTrip.antt =====
-- What `Display` writes for changes and sets of changes, `FromStr` reads back.
use ducklake_sdk.Common.{
  ◌≡◌, ◌≢◌, refl, sym, ap, ◌∙◌, subst, true, List, [], ◌∷◌, ◌++◌, map, append-nil, All, Distinct,
  nat_eq,
}
use ducklake_sdk.Common.Int.{ℤ, IsI64}
use ducklake_sdk.Common.Text.{
  Text, codes, Lacks, lacks, lacks-Lacks, join, splitn2-append, split-join,
}
use ducklake_sdk.Common.Text.Decimal.{display_i64, parse-display_i64}
use ducklake_sdk.Common.Error.{ok, ◌>>=◌, collect}
use ducklake_sdk.Common.Unique.{unique_by_id}
use ducklake_sdk.Typedefs.Regex.{RegexCrate}
use ducklake_sdk.Typedefs.Names.{
  display_schema_name, display_qualified_name, parse-display_schema_name,
  parse-display_qualified_name,
}
use ducklake_sdk.Transaction.Applied.{
  AppliedChange, created_schema, created_table, created_view, created_scalar_macro,
  created_table_macro, inserted_into_table, deleted_from_table, compacted_table, inlined_insert,
  inlined_delete, inline_flush, merge_adjacent, rewrite_delete, dropped_schema, dropped_table,
  dropped_view, dropped_scalar_macro, dropped_table_macro, altered_table, altered_view, new,
  display, display_set, commas,
}
use ducklake_sdk.Transaction.Applied.Parse.{parse_id, parse_change, parse, parse_set}

-- The names of a change are not empty, and its ID is in the range of `i64`.
abbrev pub IsWritable : AppliedChange → Type 0
IsWritable (created_schema name) = name ≢ []
IsWritable (created_table name) = (name.schema ≢ []) × (name.name ≢ [])
IsWritable (created_view name) = (name.schema ≢ []) × (name.name ≢ [])
IsWritable (created_scalar_macro name) = Unit {0}
IsWritable (created_table_macro name) = Unit {0}
IsWritable (inserted_into_table id) = IsI64 id
IsWritable (deleted_from_table id) = IsI64 id
IsWritable (compacted_table id) = IsI64 id
IsWritable (inlined_insert id) = IsI64 id
IsWritable (inlined_delete id) = IsI64 id
IsWritable (inline_flush id) = IsI64 id
IsWritable (merge_adjacent id) = IsI64 id
IsWritable (rewrite_delete id) = IsI64 id
IsWritable (dropped_schema id) = IsI64 id
IsWritable (dropped_table id) = IsI64 id
IsWritable (dropped_view id) = IsI64 id
IsWritable (dropped_scalar_macro id) = IsI64 id
IsWritable (dropped_table_macro id) = IsI64 id
IsWritable (altered_table id) = IsI64 id
IsWritable (altered_view id) = IsI64 id

parse_id-display : (id : ℤ) → IsI64 id → parse_id (display_i64 id) ≡ ok id
unfolding parse_id
parse_id-display id h = rw (parse-display_i64 id h) refl

module _ (regexes : RegexCrate) where
  pub parse_word :
      (word param : Text)
      → lacks b':' word ≡ true
      → parse regexes (word ++ (b':' ∷ param)) ≡ parse_change regexes word param
  unfolding parse
  parse_word word param h = rw (splitn2-append b':' word param (lacks-Lacks b':' word h)) refl

  as_id :
      (P : ℤ → AppliedChange) (id : ℤ)
      → IsI64 id
      → (parse_id (display_i64 id) >>= λ i. ok (P i)) ≡ ok (P id)
  as_id P id h = rw (parse_id-display id h) refl

  -- A change whose names are not empty and whose ID is in the range of `i64` is read back from
  -- the text that is written for it.
  pub parse-display : (c : AppliedChange) → IsWritable c → parse regexes (display c) ≡ ok c
  unfolding display parse_change
  parse-display (created_schema name) h =
      parse_word (codes "created_schema") (display_schema_name name) refl
      ∙ rw (parse-display_schema_name regexes name h) refl
  parse-display (created_table name) h =
      parse_word (codes "created_table") (display_qualified_name name) refl
      ∙ rw (parse-display_qualified_name regexes name h.0 h.1) refl
  parse-display (created_view name) h =
      parse_word (codes "created_view") (display_qualified_name name) refl
      ∙ rw (parse-display_qualified_name regexes name h.0 h.1) refl
  parse-display (created_scalar_macro name) h = parse_word (codes "created_scalar_macro") name refl
  parse-display (created_table_macro name) h = parse_word (codes "created_table_macro") name refl
  parse-display (inserted_into_table id) h =
      parse_word (codes "inserted_into_table") (display_i64 id) refl
      ∙ as_id inserted_into_table id h
  parse-display (deleted_from_table id) h =
      parse_word (codes "deleted_from_table") (display_i64 id) refl ∙ as_id deleted_from_table id h
  parse-display (inlined_insert id) h =
      parse_word (codes "inlined_insert") (display_i64 id) refl ∙ as_id inlined_insert id h
  parse-display (inlined_delete id) h =
      parse_word (codes "inlined_delete") (display_i64 id) refl ∙ as_id inlined_delete id h
  parse-display (inline_flush id) h =
      parse_word (codes "inline_flush") (display_i64 id) refl ∙ as_id inline_flush id h
  parse-display (merge_adjacent id) h =
      parse_word (codes "merge_adjacent") (display_i64 id) refl ∙ as_id merge_adjacent id h
  parse-display (rewrite_delete id) h =
      parse_word (codes "rewrite_delete") (display_i64 id) refl ∙ as_id rewrite_delete id h
  parse-display (compacted_table id) h =
      parse_word (codes "compacted_table") (display_i64 id) refl ∙ as_id compacted_table id h
  parse-display (dropped_schema id) h =
      parse_word (codes "dropped_schema") (display_i64 id) refl ∙ as_id dropped_schema id h
  parse-display (dropped_table id) h =
      parse_word (codes "dropped_table") (display_i64 id) refl ∙ as_id dropped_table id h
  parse-display (dropped_view id) h =
      parse_word (codes "dropped_view") (display_i64 id) refl ∙ as_id dropped_view id h
  parse-display (dropped_scalar_macro id) h =
      parse_word (codes "dropped_scalar_macro") (display_i64 id) refl
      ∙ as_id dropped_scalar_macro id h
  parse-display (dropped_table_macro id) h =
      parse_word (codes "dropped_table_macro") (display_i64 id) refl
      ∙ as_id dropped_table_macro id h
  parse-display (altered_table id) h =
      parse_word (codes "altered_table") (display_i64 id) refl ∙ as_id altered_table id h
  parse-display (altered_view id) h =
      parse_word (codes "altered_view") (display_i64 id) refl ∙ as_id altered_view id h

commas-join :
    (c : AppliedChange) (cs : List AppliedChange)
    → display c ++ commas cs ≡ join (b',' ∷ []) (display c ∷ map display cs)
unfolding join
commas-join c [] = append-nil (display c)
commas-join c (d ∷ cs) = ap (λ t. display c ++ (b',' ∷ t)) (commas-join d cs)

map_id : (cs : List AppliedChange) → map (λ c. c) cs ≡ cs
map_id [] = refl
map_id (c ∷ cs) = ap (◌∷◌ c) (map_id cs)

module _ (regexes : RegexCrate) where
  collect-display :
      (cs : List AppliedChange)
      → All IsWritable cs
      → collect (parse regexes) (map display cs) ≡ ok cs
  collect-display [] h = refl
  collect-display (c ∷ cs) h = rw (parse-display regexes c h.0, collect-display cs h.1) refl

  -- A set with at least one change and without repetitions is read back from its text, if every
  -- change is written without a comma, its names are not empty and its ID is in the range of `i64`.
  pub parse_set-display_set :
      (c : AppliedChange) (cs : List AppliedChange)
      → All IsWritable (c ∷ cs)
      → All (λ d. Lacks b',' (display d)) (c ∷ cs)
      → Distinct (c ∷ cs)
      → parse_set regexes (display_set (c ∷ cs)) ≡ ok (c ∷ cs)
  unfolding parse_set display_set new
  parse_set-display_set c cs w l d =
      rw
        (
          commas-join c cs,
          split-join b',' (display c) (map display cs) (parts (c ∷ cs) l),
          collect-display (c ∷ cs) w,
          unique_by_id (λ z. z) (c ∷ cs) (keys (c ∷ cs) d),
        )
        refl
    where
      parts :
          (ds : List AppliedChange)
          → All (λ d. Lacks b',' (display d)) ds
          → All (Lacks b',') (map display ds)
      parts [] h = tt
      parts (d ∷ ds) h = (h.0, parts ds h.1)

      keys : (ds : List AppliedChange) → Distinct ds → Distinct (map (λ z. z) ds)
      keys ds h = subst Distinct (sym (map_id ds)) h
