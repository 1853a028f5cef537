-- ===== src/Typedefs/Identifier/Opening.antt =====
-- Text of crates/ducklake/src/utils/identifier.rs that opens a component and does not close it.
use ducklake_sdk.Common.{
  ℕ, zero, suc, ◌≡◌, refl, sym, ap, ◌∙◌, subst, inl, inr, Bool, true, false, Bool-cases, ◌&&◌, ◌||◌,
  not, List, [], ◌∷◌, ◌++◌, map, none, length, nat_beq, All,
}
use ducklake_sdk.Common.Error.{ok}
use ducklake_sdk.Common.Text.{Text}
use ducklake_sdk.Typedefs.Regex.{
  finish, seq, star, group, plus, Match, is_nil, flat_map, here, took, join, captured, rounds, ways,
  is_found, RegexCrate,
}
use ducklake_sdk.Typedefs.Regex.First.{rounds_over}
use ducklake_sdk.Typedefs.Identifier.{
  quote_mark, quote, quotation, quoted_character, quoted_identifier, dot_and_quoted,
  dot_separated_quoted_identifiers, dot_separated_unquoted_identifiers, parse_identifier,
}
use ducklake_sdk.Typedefs.Identifier.Quoted.{quote-mark, quote-other, text_match}
use ducklake_sdk.Typedefs.Identifier.RoundTrip.{begin_behind, unquoted_not_found}

All-append : {A : Type 0} (P : A → Type 0) (xs ys : List A) → All P xs → All P ys → All P (xs ++ ys)
All-append P [] ys h k = k
All-append P (x ∷ xs) ys h k = (h.0, All-append P xs ys h.1 k)

All-map :
    {A B : Type 0} (P : A → Type 0) (Q : B → Type 0) (f : A → B) (xs : List A)
    → ((x : A) → P x → Q (f x))
    → All P xs
    → All Q (map f xs)
All-map P Q f [] g h = tt
All-map P Q f (x ∷ xs) g h = (g x h.0, All-map P Q f xs g h.1)

All-flat_map :
    {A B : Type 0} (P : A → Type 0) (Q : B → Type 0) (f : A → List B) (xs : List A)
    → ((x : A) → P x → All Q (f x))
    → All P xs
    → All Q (flat_map f xs)
All-flat_map P Q f [] g h = tt
All-flat_map P Q f (x ∷ xs) g h =
    All-append Q (f x) (flat_map f xs) (g x h.0) (All-flat_map P Q f xs g h.1)

flat_map-none :
    {A B : Type 0} (P : A → Type 0) (f : A → List B) (xs : List A)
    → ((x : A) → P x → f x ≡ [])
    → All P xs
    → flat_map f xs ≡ []
flat_map-none P f [] g h = refl
flat_map-none P f (x ∷ xs) g h = ap (λ l. l ++ flat_map f xs) (g x h.0) ∙ flat_map-none P f xs g h.1

-- What is left of doubled marks are doubled marks.
abbrev LeavesQuoted : Match → Type 0
LeavesQuoted w = (b : Text) × (w.rest ≡ quote b)

-- A mark is left.
abbrev LeavesMark : Match → Type 0
LeavesMark w = (t : Text) × (w.rest ≡ quote_mark ∷ t)

mark_only :
    (at : Bool) (x : Text)
    → ways quoted_character at (quote_mark ∷ quote_mark ∷ x)
      ≡ text_match (quote_mark ∷ quote_mark ∷ []) x ∷ []
unfolding ways
mark_only at x = refl

other_only :
    (c : ℕ) (at : Bool) (x : Text)
    → nat_beq c quote_mark ≡ false
    → ways quoted_character at (c ∷ x) ≡ text_match (c ∷ []) x ∷ []
unfolding ways
other_only c at x h = rw h refl

rounds_one :
    (fuel : ℕ) (at : Bool) (s : Text) (c : ℕ) (t x : Text)
    → ways quoted_character at s ≡ text_match (c ∷ t) x ∷ []
    → All LeavesQuoted (rounds (ways quoted_character) fuel false x)
    → LeavesQuoted (here s)
    → All LeavesQuoted (rounds (ways quoted_character) (suc fuel) at s)
unfolding rounds
rounds_one fuel at s c t x e h k = rw e (
    All-append LeavesQuoted
      (map (join (text_match (c ∷ t) x)) (rounds (ways quoted_character) fuel false x) ++ [])
      (here s ∷ [])
      (All-append LeavesQuoted
        (map (join (text_match (c ∷ t) x)) (rounds (ways quoted_character) fuel false x)) []
        (All-map LeavesQuoted LeavesQuoted (join (text_match (c ∷ t) x))
          (rounds (ways quoted_character) fuel false x) (λ v p. p) h)
        tt)
      (k, tt))

rounds-LeavesQuoted :
    (fuel : ℕ) (at : Bool) (a : Text)
    → All LeavesQuoted (rounds (ways quoted_character) fuel at (quote a))
rounds-LeavesQuoted zero at a = unfold rounds in ((a, refl), tt)
rounds-LeavesQuoted (suc fuel) at [] =
    subst (All LeavesQuoted)
      (sym
        (rounds_over (ways quoted_character) (suc fuel) at (quote []) (unfold ways quote in refl)))
      (([], refl), tt)
rounds-LeavesQuoted (suc fuel) at (c ∷ a) = elim (Bool-cases (nat_beq c quote_mark)) [
  | inl h ↦
      subst (λ s. All LeavesQuoted (rounds (ways quoted_character) (suc fuel) at s))
        (sym (quote-mark c a h))
        (rounds_one fuel at (quote_mark ∷ quote_mark ∷ quote a) quote_mark (quote_mark ∷ [])
          (quote a) (mark_only at (quote a)) (rounds-LeavesQuoted fuel false a)
          (c ∷ a, sym (quote-mark c a h)))
  | inr h ↦
      subst (λ s. All LeavesQuoted (rounds (ways quoted_character) (suc fuel) at s))
        (sym (quote-other c a h))
        (rounds_one fuel at (c ∷ quote a) c [] (quote a) (other_only c at (quote a) h)
          (rounds-LeavesQuoted fuel false a) (c ∷ a, sym (quote-other c a h)))
]

star-LeavesQuoted :
    (at : Bool) (a : Text) → All LeavesQuoted (ways (star quoted_character) at (quote a))
unfolding ways
star-LeavesQuoted at a = rounds-LeavesQuoted (length (quote a)) at a

character-LeavesQuoted :
    (at : Bool) (a : Text) → All LeavesQuoted (ways quoted_character at (quote a))
character-LeavesQuoted at [] = unfold ways quote in tt
character-LeavesQuoted at (c ∷ a) = elim (Bool-cases (nat_beq c quote_mark)) [
  | inl h ↦
      subst (All LeavesQuoted)
        (sym (ap (ways quoted_character at) (quote-mark c a h) ∙ mark_only at (quote a)))
        ((a, refl), tt)
  | inr h ↦
      subst (All LeavesQuoted)
        (sym (ap (ways quoted_character at) (quote-other c a h) ∙ other_only c at (quote a) h))
        ((a, refl), tt)
]

text-LeavesQuoted :
    (at : Bool) (a : Text) → All LeavesQuoted (ways (group 1 (plus quoted_character)) at (quote a))
unfolding ways
text-LeavesQuoted at a =
    All-map LeavesQuoted LeavesQuoted (captured 1) (ways (plus quoted_character) at (quote a))
      (λ v p. p)
      (All-flat_map LeavesQuoted LeavesQuoted
        (λ w. map (join w) (ways (star quoted_character) (at && is_nil w.consumed) w.rest))
        (ways quoted_character at (quote a))
        (λ w (b, e).
          All-map LeavesQuoted LeavesQuoted (join w)
            (ways (star quoted_character) (at && is_nil w.consumed) w.rest) (λ v p. p)
            (subst
              (λ s. All LeavesQuoted (ways (star quoted_character) (at && is_nil w.consumed) s))
              (sym e) (star-LeavesQuoted (at && is_nil w.consumed) b)))
        (character-LeavesQuoted at a))

no_closing :
    (at : Bool) (c : ℕ) (t : Text)
    → nat_beq c quote_mark ≡ false
    → All LeavesMark (ways quotation at (c ∷ t))
unfolding ways
no_closing at c t h = rw h tt

closing-LeavesMark : (at : Bool) (b : Text) → All LeavesMark (ways quotation at (quote b))
closing-LeavesMark at [] = unfold ways quote in tt
closing-LeavesMark at (c ∷ b) = elim (Bool-cases (nat_beq c quote_mark)) [
  | inl h ↦
      subst (λ s. All LeavesMark (ways quotation at s)) (sym (quote-mark c b h))
        (unfold ways in ((quote b, refl), tt))
  | inr h ↦
      subst (λ s. All LeavesMark (ways quotation at s)) (sym (quote-other c b h))
        (no_closing at c (quote b) h)
]

-- However the component is closed, a mark is left behind it.
opening-LeavesMark :
    (a : Text) → All LeavesMark (ways (quoted_identifier 1) true (quote_mark ∷ quote a))
unfolding ways
opening-LeavesMark a =
    All-append LeavesMark _ []
      (All-map LeavesMark LeavesMark (join (took quote_mark (quote a)))
        (ways (seq (group 1 (plus quoted_character)) quotation) false (quote a)) (λ v p. p)
        (All-flat_map LeavesQuoted LeavesMark
          (λ w. map (join w) (ways quotation (false && is_nil w.consumed) w.rest))
          (ways (group 1 (plus quoted_character)) false (quote a))
          (λ w (b, e).
            All-map LeavesMark LeavesMark (join w) (ways quotation false w.rest) (λ v p. p)
              (subst (λ s. All LeavesMark (ways quotation false s)) (sym e)
                (closing-LeavesMark false b)))
          (text-LeavesQuoted false a)))
      tt

no_more : (at : Bool) (t : Text) → ways (seq (star dot_and_quoted) finish) at (quote_mark ∷ t) ≡ []
unfolding ways rounds
no_more at t = refl

opening_not_found :
    (a : Text) → is_found dot_separated_quoted_identifiers true (quote_mark ∷ quote a) ≡ false
unfolding is_found ways
opening_not_found a =
    ap
      (λ (l : List Match).
        not (is_nil (map (join (here (quote_mark ∷ quote a))) l ++ []))
        || is_found dot_separated_quoted_identifiers false (quote a))
      (flat_map-none LeavesMark
        (λ w.
          map (join w) (ways (seq (star dot_and_quoted) finish) (true && is_nil w.consumed) w.rest))
        (ways (quoted_identifier 1) true (quote_mark ∷ quote a))
        (λ w (t, e).
          ap
            (λ s.
              map (join w) (ways (seq (star dot_and_quoted) finish) (true && is_nil w.consumed) s))
            e
          ∙ ap (map (join w)) (no_more (true && is_nil w.consumed) t))
        (opening-LeavesMark a))
    ∙ begin_behind (seq (quoted_identifier 1) (seq (star dot_and_quoted) finish)) (quote a)

module _ (regexes : RegexCrate) where
  open regexes use {is_match, is_match-is_found}

  -- An opening mark with doubled marks behind it is no identifier.
  pub parse_identifier_opening :
      (a : Text) → parse_identifier regexes (quote_mark ∷ quote a) ≡ ok none
  unfolding parse_identifier
  parse_identifier_opening a =
      let unquoted : is_match dot_separated_unquoted_identifiers (quote_mark ∷ quote a) ≡ false =
        is_match-is_found dot_separated_unquoted_identifiers (quote_mark ∷ quote a)
        ∙ unquoted_not_found (quote a) in
      let quoted : is_match dot_separated_quoted_identifiers (quote_mark ∷ quote a) ≡ false =
        is_match-is_found dot_separated_quoted_identifiers (quote_mark ∷ quote a)
        ∙ opening_not_found a in
      rw (unquoted, quoted) refl
