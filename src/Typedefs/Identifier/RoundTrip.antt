-- ===== src/Typedefs/Identifier/RoundTrip.antt =====
-- What `format_identifier` of crates/ducklake/src/utils/identifier.rs writes, `parse_identifier` reads back.
use ducklake_sdk.Common.{
  ℕ, zero, suc, ◌+◌, ◌*◌, ◌≤◌, ◌≡◌, ◌≢◌, refl, sym, ap, ◌∙◌, subst, inl, inr, Bool, true, false,
  Bool-cases, ◌&&◌, ◌||◌, not, List, [], ◌∷◌, ◌++◌, map, append_assoc, some, length, length-append,
  arith, nat_beq, nat_beq_iff, All,
}
use ducklake_sdk.Common.Error.{ok, collect}
use ducklake_sdk.Common.Text
use ducklake_sdk.Common.Text.{Text}
use ducklake_sdk.Typedefs.Regex.{
  Regex, begin, finish, seq, star, group, plus, Match, Captures, is_nil, here, join, rounds, ways,
  is_found, all_captures, RegexCrate,
}
use ducklake_sdk.Typedefs.Regex.First.{IsFirst, IsFirst-seq, IsFirst-rounds, rounds_over}
use ducklake_sdk.Typedefs.Identifier.{
  quote_mark, quote, unquote, format_component, format_identifier, unquoted_identifier,
  quoted_identifier, dot, dot_and_quoted, dot_separated_quoted_identifiers,
  dot_separated_unquoted_identifiers, capture, component, parse_identifier,
}
use ducklake_sdk.Typedefs.Identifier.Quoted.{
  quote-mark, quote-other, written, written-IsFirst, further, further-IsFirst, behind_first,
  behind_first-IsUnquoted,
}

abbrev AllNamed : List Text → Type 0
AllNamed = All (λ s. s ≢ [])

-- The rounds of the pattern take all further components.
behind_first-taken :
    (cs : List Text) (fuel : ℕ) (at : Bool)
    → AllNamed cs
    → length (behind_first cs) ≤ fuel
    → (v : Match) × (v.rest ≡ [])
      × IsFirst (rounds (ways dot_and_quoted) fuel at (behind_first cs)) v
behind_first-taken [] fuel at h l =
    (here [], refl, ([], rounds_over (ways dot_and_quoted) fuel at [] (unfold ways in refl)))
behind_first-taken ([] ∷ cs) fuel at h l = absurd (h.0 refl)
behind_first-taken ((c ∷ s) ∷ cs) zero at h l = absurd (omega arith)
behind_first-taken ((c ∷ s) ∷ cs) (suc fuel) at h l =
    let t = behind_first cs in
    let (v, e, f) =
      behind_first-taken cs fuel false h.1
        (omega (arith, length-append {0} (quote (c ∷ s)) (quote_mark ∷ t))) in
    (
      join (further (c ∷ s) t) v,
      e,
      IsFirst-rounds (ways dot_and_quoted) fuel at (behind_first ((c ∷ s) ∷ cs)) b'.' _
          (further (c ∷ s) t) v refl (further-IsFirst c s t at (behind_first-IsUnquoted cs)) f,
    )

begin_taken : (s : Text) → IsFirst (ways begin true s) (here s)
unfolding ways
begin_taken s = ([], refl)

finish_taken : (at : Bool) → IsFirst (ways finish at []) (here [])
unfolding ways
finish_taken at = ([], refl)

star_taken :
    (t : Text) (v : Match)
    → IsFirst (rounds (ways dot_and_quoted) (length t) false t) v
    → IsFirst (ways (star dot_and_quoted) false t) v
unfolding ways
star_taken t v f = f

found_first :
    (r : Regex) (at : Bool) (c : ℕ) (s : Text) (w : Match)
    → IsFirst (ways r at (c ∷ s)) w
    → is_found r at (c ∷ s) ≡ true
unfolding is_found
found_first r at c s w (behind, e) = ap (λ l. not (is_nil l) || is_found r false s) e

-- The text of quoted components is one.
quoted_found :
    (c : ℕ) (s : Text) (cs : List Text)
    → AllNamed cs
    → is_found dot_separated_quoted_identifiers true (written (c ∷ s) (behind_first cs)) ≡ true
quoted_found c s cs h =
    let t = behind_first cs in
    let text = written (c ∷ s) t in
    let (v, e, f) = behind_first-taken cs (length t) false h (omega arith) in
    let w : Match = record {
      consumed = quote_mark ∷ (quote (c ∷ s) ++ (quote_mark ∷ []));
      rest = t;
      captures = (1, quote (c ∷ s)) ∷ [];
    } in
    found_first dot_separated_quoted_identifiers true quote_mark (quote (c ∷ s) ++ (quote_mark ∷ t))
      (join (here text) (join w (join v (here []))))
      (IsFirst-seq begin (seq (quoted_identifier 1) (seq (star dot_and_quoted) finish)) true text
        (here text) (join w (join v (here []))) (begin_taken text)
        (IsFirst-seq (quoted_identifier 1) (seq (star dot_and_quoted) finish) true text w
          (join v (here [])) (written-IsFirst 1 c s t true (behind_first-IsUnquoted cs))
          (IsFirst-seq (star dot_and_quoted) finish false t v (here []) (star_taken t v f) (
            subst (λ rest. IsFirst (ways finish (false && is_nil v.consumed) rest) (here []))
              (sym e) (finish_taken _)))))

-- An anchored pattern matches only at the start.
pub begin_behind : (r : Regex) (s : Text) → is_found (seq begin r) false s ≡ false
unfolding is_found ways
begin_behind r [] = refl
begin_behind r (c ∷ s) = begin_behind r s

-- A text that starts with a quotation mark is no unquoted identifier.
pub unquoted_not_found :
    (s : Text) → is_found dot_separated_unquoted_identifiers true (quote_mark ∷ s) ≡ false
unfolding is_found ways
unquoted_not_found s =
    begin_behind
      (seq (unquoted_identifier 1)
        (seq (star (group 2 (seq dot (plus (unquoted_identifier 3))))) finish))
      s

unquote-other : (c : ℕ) (s : Text) → nat_beq c quote_mark ≡ false → unquote (c ∷ s) ≡ c ∷ unquote s
unfolding unquote
unquote-other c [] h = refl
unquote-other c (d ∷ s) h = rw h refl

unquote-mark : (s : Text) → unquote (quote_mark ∷ quote_mark ∷ s) ≡ quote_mark ∷ unquote s
unfolding unquote
unquote-mark s = refl

pub unquote-quote : (s : Text) → unquote (quote s) ≡ s
unquote-quote [] = unfold unquote quote in refl
unquote-quote (c ∷ s) = elim (Bool-cases (nat_beq c quote_mark)) [
  | inl h ↦
      ap unquote (quote-mark c s h)
      ∙ unquote-mark (quote s)
      ∙ ap (◌∷◌ quote_mark) (unquote-quote s)
      ∙ ap (λ d. d ∷ s) (sym ((nat_beq_iff c quote_mark).0 h))
  | inr h ↦
      ap unquote (quote-other c s h) ∙ unquote-other c (quote s) h ∙ ap (◌∷◌ c) (unquote-quote s)
]

-- The first group of a component.
abbrev own : Text → Captures
own s = (1, quote s) ∷ []

captures_over : (fuel : ℕ) (at : Bool) → all_captures (suc fuel) (quoted_identifier 1) at [] ≡ []
unfolding all_captures ways
captures_over fuel at = refl

dot_skipped :
    (fuel : ℕ) (at : Bool) (s : Text)
    → all_captures (suc fuel) (quoted_identifier 1) at (b'.' ∷ s)
      ≡ all_captures fuel (quoted_identifier 1) false s
unfolding all_captures ways
dot_skipped fuel at s = refl

mutual
  unfolding all_captures

  first_captures :
      (fuel c : ℕ) (s : Text) (cs : List Text) (at : Bool)
      → AllNamed cs
      → 2 + 2 * length cs ≤ fuel
      → all_captures fuel (quoted_identifier 1) at (written (c ∷ s) (behind_first cs))
        ≡ map own ((c ∷ s) ∷ cs)
  first_captures zero c s cs at h l = absurd (omega arith)
  first_captures (suc fuel) c s cs at h l =
      let (behind, e) = written-IsFirst 1 c s (behind_first cs) at (behind_first-IsUnquoted cs) in
      ap
        (λ (ws : List Match). elim ws [
          | w ∷ ws ↦ w.captures ∷ all_captures fuel (quoted_identifier 1) false w.rest
          | [] ↦
              all_captures fuel (quoted_identifier 1) false
                (quote (c ∷ s) ++ (quote_mark ∷ behind_first cs))
        ])
        e
      ∙ ap (◌∷◌ (own (c ∷ s))) (further_captures fuel cs false h (omega arith))

  further_captures :
      (fuel : ℕ) (cs : List Text) (at : Bool)
      → AllNamed cs
      → 1 + 2 * length cs ≤ fuel
      → all_captures fuel (quoted_identifier 1) at (behind_first cs) ≡ map own cs
  further_captures zero cs at h l = absurd (omega arith)
  further_captures (suc fuel) [] at h l = captures_over fuel at
  further_captures (suc fuel) ([] ∷ cs) at h l = absurd (h.0 refl)
  further_captures (suc fuel) ((c ∷ s) ∷ cs) at h l =
      dot_skipped fuel at (written (c ∷ s) (behind_first cs))
      ∙ first_captures fuel c s cs false h.1 (omega arith)

enough : (cs : List Text) → 2 * length cs ≤ length (behind_first cs)
enough [] = omega arith
enough (s ∷ cs) =
    omega (arith, enough cs, length-append {0} (quote s) (quote_mark ∷ behind_first cs))

format_identifier-written :
    (c : Text) (cs : List Text) → format_identifier (c ∷ cs) ≡ written c (behind_first cs)
unfolding format_identifier format_component Text.join
format_identifier-written c [] = refl
format_identifier-written c (d ∷ cs) = ap (◌∷◌ quote_mark) (
    append_assoc (quote c) (quote_mark ∷ []) _
    ∙ ap (λ t. quote c ++ (quote_mark ∷ b'.' ∷ t)) (format_identifier-written d cs))

module _ (regexes : RegexCrate) where
  open regexes use {is_match, captures_iter, is_match-is_found, captures_iter-all_captures}

  collected : (cs : List Text) → collect (component regexes) (map own cs) ≡ ok cs
  unfolding component capture
  collected [] = refl
  collected (c ∷ cs) = rw (unquote-quote c, collected cs) refl

  -- The components that `format_identifier` writes, none of which is empty, are read back.
  pub parse_identifier-format_identifier :
      (c : Text) (cs : List Text)
      → AllNamed (c ∷ cs)
      → parse_identifier regexes (format_identifier (c ∷ cs)) ≡ ok (some (c ∷ cs))
  unfolding parse_identifier
  parse_identifier-format_identifier [] cs h = absurd (h.0 refl)
  parse_identifier-format_identifier (c ∷ s) cs h =
      let t = written (c ∷ s) (behind_first cs) in
      let no : is_match dot_separated_unquoted_identifiers t ≡ false =
        is_match-is_found dot_separated_unquoted_identifiers t
        ∙ unquoted_not_found (quote (c ∷ s) ++ (quote_mark ∷ behind_first cs)) in
      let yes : is_match dot_separated_quoted_identifiers t ≡ true =
        is_match-is_found dot_separated_quoted_identifiers t ∙ quoted_found c s cs h.1 in
      let found : captures_iter (quoted_identifier 1) t ≡ map own ((c ∷ s) ∷ cs) =
        captures_iter-all_captures (quoted_identifier 1) t refl
        ∙ first_captures (suc (length t)) c s cs true h.1 (
            omega (
              arith,
              enough cs,
              length-append {0} (quote (c ∷ s)) (quote_mark ∷ behind_first cs),
            )) in
      ap (parse_identifier regexes) (format_identifier-written (c ∷ s) cs)
      ∙ rw (no, yes, found, collected ((c ∷ s) ∷ cs)) refl
