-- ===== src/Typedefs/Regex.antt =====
-- Regular expressions, and what the code of crates/ducklake/src/utils/identifier.rs relies on of the regex
-- crate: a match is sought from left to right, and of the ways to match at one place the first is taken,
-- in the order in which a backtracking search tries them.
pub mod First
use ducklake_sdk.Common.{
  ℕ, zero, suc, ◌≡◌, refl, Bool, true, false, ◌&&◌, ◌||◌, not, List, [], ◌∷◌, ◌++◌, map, length,
  if◌then◌else◌,
}
use ducklake_sdk.Common.Text.{Text}

-- `begin` and `finish` are the anchors `^` and `$`, `group` is a numbered group.
pub data Regex : Type 0 where
  begin finish : Regex
  one_of : (ℕ → Bool) → Regex
  seq alt : Regex → Regex → Regex
  star : Regex → Regex
  group : ℕ → Regex → Regex

-- `r+`.
abbrev pub plus : Regex → Regex
plus r = seq r (star r)

-- The text of each group that took part, by its number.
abbrev pub Captures : Type 0
Captures = List (ℕ × Text)

-- One way to match: the text matched, the text behind it, and the groups.
pub record Match : Type 0 where
  pub consumed : Text
  pub rest : Text
  pub captures : Captures

abbrev pub is_nil : {A : Type 0} → List A → Bool
is_nil [] = true
is_nil (x ∷ xs) = false

abbrev pub flat_map : {A B : Type 0} → (A → List B) → List A → List B
flat_map f [] = []
flat_map f (x ∷ xs) = f x ++ flat_map f xs

abbrev pub here : Text → Match
here s = record { consumed = []; rest = s; captures = [] }

abbrev pub took : ℕ → Text → Match
took c s = record { consumed = c ∷ []; rest = s; captures = [] }

-- A match, and another one behind it.
abbrev pub join : Match → Match → Match
join a b = record {
  consumed = a.consumed ++ b.consumed;
  rest = b.rest;
  captures = a.captures ++ b.captures;
}

abbrev pub captured : ℕ → Match → Match
captured n w = record w { captures = (n, w.consumed) ∷ w.captures }

-- As many rounds of `f` as there are, each of which takes a character; `at` is whether nothing stands
-- before the text.
unfoldable pub rounds : (Bool → Text → List Match) → ℕ → Bool → Text → List Match
rounds f zero at s = here s ∷ []
rounds f (suc fuel) at s =
    flat_map
      (λ w. elim w.consumed [ [] ↦ [] | (c ∷ t) ↦ map (join w) (rounds f fuel false w.rest) ])
      (f at s)
    ++ (here s ∷ [])

-- The ways to match at the start of a text, in the order of preference.
unfoldable pub ways : Regex → Bool → Text → List Match
unfolding rounds
ways begin at s = if at then here s ∷ [] else []
ways finish at [] = here [] ∷ []
ways finish at (c ∷ s) = []
ways (one_of p) at [] = []
ways (one_of p) at (c ∷ s) = if p c then took c s ∷ [] else []
ways (seq a b) at s =
    flat_map (λ w. map (join w) (ways b (at && is_nil w.consumed) w.rest)) (ways a at s)
ways (alt a b) at s = ways a at s ++ ways b at s
ways (star r) at s = rounds (ways r) (length s) at s
ways (group n r) at s = map (captured n) (ways r at s)

-- Whether there is a match somewhere.
unfoldable pub is_found : Regex → Bool → Text → Bool
unfolding ways
is_found r at [] = not (is_nil (ways r at []))
is_found r at (c ∷ s) =
    let behind = is_found r false s in not (is_nil (ways r at (c ∷ s))) || behind

-- The groups of the matches, each behind the one before.
unfoldable pub all_captures : ℕ → Regex → Bool → Text → List Captures
unfolding ways
all_captures zero r at s = []
all_captures (suc fuel) r at s = elim (ways r at s) [
  | w ∷ ws ↦ w.captures ∷ all_captures fuel r false w.rest
  | [] ↦ elim s [ [] ↦ [] | c ∷ t ↦ all_captures fuel r false t ]
]

-- Whether a match takes a character.
abbrev pub takes_one : Regex → Bool
takes_one begin = false
takes_one finish = false
takes_one (one_of p) = true
takes_one (seq a b) = takes_one a || takes_one b
takes_one (alt a b) = takes_one a && takes_one b
takes_one (star r) = false
takes_one (group n r) = takes_one r

-- The regex crate: `is_match` and `captures_iter`, the latter where no match is empty.
pub record RegexCrate : Type 0 where
  pub is_match : Regex → Text → Bool
  pub captures_iter : Regex → Text → List Captures
  pub is_match-is_found : (r : Regex) (s : Text) → is_match r s ≡ is_found r true s
  pub captures_iter-all_captures :
      (r : Regex) (s : Text)
      → takes_one r ≡ true
      → captures_iter r s ≡ all_captures (suc (length s)) r true s

-- The search itself is such a crate.
abbrev pub backtracking : RegexCrate
backtracking = record {
  is_match = λ r s. is_found r true s;
  captures_iter = λ r s. all_captures (suc (length s)) r true s;
  is_match-is_found = λ r s. refl;
  captures_iter-all_captures = λ r s h. refl;
}
