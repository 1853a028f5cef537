-- ===== src/Typedefs/Identifier/Quoted.antt =====
-- How the pattern of quoted identifiers of crates/ducklake/src/utils/identifier.rs takes what
-- `format_identifier` writes.
use ducklake_sdk.Common.{
  ℕ, zero, suc, ◌≤◌, ◌≡◌, refl, sym, subst, inl, inr, Bool, true, false, Bool-cases, ◌&&◌, List, [],
  ◌∷◌, ◌++◌, length, length-append, arith, nat_beq,
}
use ducklake_sdk.Common.Text.{Text}
use ducklake_sdk.Typedefs.Regex.{
  seq, star, group, plus, Match, here, took, join, captured, rounds, ways,
}
use ducklake_sdk.Typedefs.Regex.First.{
  IsFirst, IsFirst-seq, IsFirst-group, IsFirst-rounds, rounds_over,
}
use ducklake_sdk.Typedefs.Identifier.{
  quote_mark, quote, quotation, quoted_character, quoted_identifier, dot, dot_and_quoted,
}

-- No quotation mark stands at the start.
abbrev pub IsUnquoted : Text → Type 0
IsUnquoted [] = Unit {0}
IsUnquoted (c ∷ t) = nat_beq c quote_mark ≡ false

abbrev pub text_match : Text → Text → Match
text_match s t = record { consumed = s; rest = t; captures = [] }

pub quote-mark :
    (c : ℕ) (s : Text)
    → nat_beq c quote_mark ≡ true
    → quote (c ∷ s) ≡ quote_mark ∷ quote_mark ∷ quote s
unfolding quote
quote-mark c s h = rw h refl

pub quote-other : (c : ℕ) (s : Text) → nat_beq c quote_mark ≡ false → quote (c ∷ s) ≡ c ∷ quote s
unfolding quote
quote-other c s h = rw h refl

other-IsFirst :
    (c : ℕ) (at : Bool) (x : Text)
    → nat_beq c quote_mark ≡ false
    → IsFirst (ways quoted_character at (c ∷ x)) (text_match (c ∷ []) x)
unfolding ways
other-IsFirst c at x h = ([], rw h refl)

mark-IsFirst :
    (at : Bool) (x : Text)
    → IsFirst
        (ways quoted_character at (quote_mark ∷ quote_mark ∷ x))
        (text_match (quote_mark ∷ quote_mark ∷ []) x)
unfolding ways
mark-IsFirst at x = ([], refl)

no_character :
    (at : Bool) (t : Text) → IsUnquoted t → ways quoted_character at (quote_mark ∷ t) ≡ []
unfolding ways
no_character at [] h = refl
no_character at (c ∷ t) h = rw h refl

-- The characters of `x` are taken up to a closing mark.
abbrev Taken : ℕ → Bool → Text → Text → Type 0
Taken fuel at t x =
    length x ≤ fuel
    → IsFirst (rounds (ways quoted_character) fuel at (x ++ (quote_mark ∷ t)))
        (text_match x (quote_mark ∷ t))

Taken-mark :
    (fuel : ℕ) (at : Bool) (t x : Text)
    → ((n : ℕ) → Taken n false t x)
    → Taken fuel at t (quote_mark ∷ quote_mark ∷ x)
Taken-mark zero at t x h l = absurd (omega arith)
Taken-mark (suc fuel) at t x h l =
    IsFirst-rounds (ways quoted_character) fuel at _ quote_mark (quote_mark ∷ [])
      (text_match (quote_mark ∷ quote_mark ∷ []) (x ++ (quote_mark ∷ t)))
      (text_match x (quote_mark ∷ t)) refl (mark-IsFirst at (x ++ (quote_mark ∷ t)))
      (h fuel (omega arith))

Taken-other :
    (c fuel : ℕ) (at : Bool) (t x : Text)
    → nat_beq c quote_mark ≡ false
    → ((n : ℕ) → Taken n false t x)
    → Taken fuel at t (c ∷ x)
Taken-other c zero at t x e h l = absurd (omega arith)
Taken-other c (suc fuel) at t x e h l =
    IsFirst-rounds (ways quoted_character) fuel at _ c []
      (text_match (c ∷ []) (x ++ (quote_mark ∷ t))) (text_match x (quote_mark ∷ t)) refl
      (other-IsFirst c at (x ++ (quote_mark ∷ t)) e) (h fuel (omega arith))

quote-Taken : (s t : Text) (fuel : ℕ) (at : Bool) → IsUnquoted t → Taken fuel at t (quote s)
unfolding quote
quote-Taken [] t fuel at u =
    λ l. ([], rounds_over (ways quoted_character) fuel at (quote_mark ∷ t) (no_character at t u))
quote-Taken (c ∷ s) t fuel at u = elim (Bool-cases (nat_beq c quote_mark)) [
  | inl h ↦
      subst (Taken fuel at t) (sym (quote-mark c s h))
        (Taken-mark fuel at t (quote s) (λ n. quote-Taken s t n false u))
  | inr h ↦
      subst (Taken fuel at t) (sym (quote-other c s h))
        (Taken-other c fuel at t (quote s) h (λ n. quote-Taken s t n false u))
]

-- All of a component that is not empty is taken.
abbrev Whole : Bool → Text → Text → Type 0
Whole at t x =
    IsFirst (ways (plus quoted_character) at (x ++ (quote_mark ∷ t)))
      (text_match x (quote_mark ∷ t))

star_behind :
    (s t : Text) (at : Bool)
    → IsUnquoted t
    → IsFirst
        (ways (star quoted_character) at (quote s ++ (quote_mark ∷ t)))
        (text_match (quote s) (quote_mark ∷ t))
unfolding ways
star_behind s t at u =
    quote-Taken s t (length (quote s ++ (quote_mark ∷ t))) at u
      (omega (arith, length-append {0} (quote s) (quote_mark ∷ t)))

quote-Whole : (c : ℕ) (s t : Text) (at : Bool) → IsUnquoted t → Whole at t (quote (c ∷ s))
quote-Whole c s t at u = elim (Bool-cases (nat_beq c quote_mark)) [
  | inl h ↦ subst (Whole at t) (sym (quote-mark c s h)) (
      IsFirst-seq quoted_character (star quoted_character) at _
        (text_match (quote_mark ∷ quote_mark ∷ []) (quote s ++ (quote_mark ∷ t)))
        (text_match (quote s) (quote_mark ∷ t)) (mark-IsFirst at _)
        (star_behind s t (at && false) u))
  | inr h ↦ subst (Whole at t) (sym (quote-other c s h)) (
      IsFirst-seq quoted_character (star quoted_character) at _
        (text_match (c ∷ []) (quote s ++ (quote_mark ∷ t))) (text_match (quote s) (quote_mark ∷ t))
        (other-IsFirst c at _ h) (star_behind s t (at && false) u))
]

-- A component as it is written, with `t` behind it.
abbrev pub written : Text → Text → Text
written s t = quote_mark ∷ (quote s ++ (quote_mark ∷ t))

mark_taken :
    (at : Bool) (t : Text) → IsFirst (ways quotation at (quote_mark ∷ t)) (took quote_mark t)
unfolding ways
mark_taken at t = ([], refl)

no_mark : (at : Bool) (t : Text) → IsUnquoted t → ways quotation at t ≡ []
unfolding ways
no_mark at [] h = refl
no_mark at (c ∷ t) h = rw h refl

pub written-IsFirst :
    (n c : ℕ) (s t : Text) (at : Bool)
    → IsUnquoted t
    → IsFirst (ways (quoted_identifier n) at (written (c ∷ s) t)) (record {
      consumed = quote_mark ∷ (quote (c ∷ s) ++ (quote_mark ∷ []));
      rest = t;
      captures = (n, quote (c ∷ s)) ∷ [];
    })
written-IsFirst n c s t at u =
    let body = captured n (text_match (quote (c ∷ s)) (quote_mark ∷ t)) in
    IsFirst-seq quotation (seq (group n (plus quoted_character)) quotation) at (written (c ∷ s) t)
      (took quote_mark (quote (c ∷ s) ++ (quote_mark ∷ t))) (join body (took quote_mark t))
      (mark_taken at _)
      (IsFirst-seq (group n (plus quoted_character)) quotation (at && false) _ body
        (took quote_mark t)
        (IsFirst-group n (plus quoted_character) (at && false) _ _
          (quote-Whole c s t (at && false) u))
        (mark_taken _ t))

-- A further component, behind its dot.
abbrev pub further : Text → Text → Match
further s t = captured 2 (
    join (took b'.' (written s t)) (
      join (took quote_mark (quote s ++ (quote_mark ∷ t))) (
        join (captured 3 (text_match (quote s) (quote_mark ∷ t)))
          (join (took quote_mark t) (here t)))))

dot_taken : (at : Bool) (t : Text) → IsFirst (ways dot at (b'.' ∷ t)) (took b'.' t)
unfolding ways
dot_taken at t = ([], refl)

closing_marks :
    (at : Bool) (t : Text)
    → IsUnquoted t
    → IsFirst (ways (plus quotation) at (quote_mark ∷ t)) (join (took quote_mark t) (here t))
unfolding ways
closing_marks at t u =
    IsFirst-seq quotation (star quotation) at (quote_mark ∷ t) (took quote_mark t) (here t)
      (mark_taken at t)
      ([], rounds_over (ways quotation) (length t) (at && false) t (no_mark (at && false) t u))

pub further-IsFirst :
    (c : ℕ) (s t : Text) (at : Bool)
    → IsUnquoted t
    → IsFirst (ways dot_and_quoted at (b'.' ∷ written (c ∷ s) t)) (further (c ∷ s) t)
further-IsFirst c s t at u =
    let body = group 3 (plus quoted_character) in
    let name = captured 3 (text_match (quote (c ∷ s)) (quote_mark ∷ t)) in
    let marks = join (took quote_mark t) (here t) in
    let opening = took quote_mark (quote (c ∷ s) ++ (quote_mark ∷ t)) in
    IsFirst-group 2 (seq dot (seq quotation (seq body (plus quotation)))) at _ _ (
      IsFirst-seq dot (seq quotation (seq body (plus quotation))) at _
        (took b'.' (written (c ∷ s) t)) (join opening (join name marks))
        (dot_taken at (written (c ∷ s) t))
        (IsFirst-seq quotation (seq body (plus quotation)) (at && false) _ opening (join name marks)
          (mark_taken _ _)
          (IsFirst-seq body (plus quotation) _ _ name marks
            (IsFirst-group 3 (plus quoted_character) _ _ _ (quote-Whole c s t _ u))
            (closing_marks _ t u))))

-- The components behind the first one.
abbrev pub behind_first : List Text → Text
behind_first [] = []
behind_first (s ∷ cs) = b'.' ∷ written s (behind_first cs)

pub behind_first-IsUnquoted : (cs : List Text) → IsUnquoted (behind_first cs)
behind_first-IsUnquoted [] = tt
behind_first-IsUnquoted (s ∷ cs) = refl
