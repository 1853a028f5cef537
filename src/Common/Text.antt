-- ===== src/Common/Text.antt =====
-- Text as the list of its Unicode scalar values, and the string operations that the sources call.
pub mod Decimal
use Prim.Native.Nat.{ℕ, ◌+◌}
use Prim.Native.Char.{code}
use Prim.Native.String.{String}
use mathlib.Core.Path.{◌≡◌, refl, ap, ◌∙◌}
use mathlib.Core.Logic.{◌≢◌}
use mathlib.Core.Bool.{Bool, true, false, ◌&&◌}
use mathlib.Core.List.{List, [], ◌∷◌, ◌++◌, map}
use mathlib.Core.Option.{Option, none, some}
use native.Mathlib.Omega.{arith}
use ducklake_sdk.Common.Tests.{leb, nat_beq, nat_beq_iff, if◌then◌else◌}
use ducklake_sdk.Common.Lists.{All}

abbrev pub Text : Type 0
Text = List ℕ

-- The scalar values of a literal.
abbrev pub codes : String → Text
codes String.[] = []
codes (String.◌∷◌ c s) = code c ∷ codes s

-- No character of the text is `c`.
abbrev pub Lacks : ℕ → Text → Type 0
Lacks c = All (λ d. d ≢ c)

abbrev pub lacks : ℕ → Text → Bool
lacks c [] = true
lacks c (d ∷ s) = elim (nat_beq d c) [ true ↦ false | false ↦ lacks c s ]

pub lacks-Lacks : (c : ℕ) (s : Text) → lacks c s ≡ true → Lacks c s
lacks-Lacks c [] h = tt
lacks-Lacks c (d ∷ s) h = ground (arith, nat_beq_iff d c, lacks-Lacks c s)

-- Puts a character in front of the first part.
abbrev onto_first : ℕ → List Text → List Text
onto_first c [] = (c ∷ []) ∷ []
onto_first c (p ∷ ps) = (c ∷ p) ∷ ps

-- `str::split(sep)`: at least one part, none of which holds the separator.
unfoldable pub split : ℕ → Text → List Text
split sep [] = [] ∷ []
split sep (c ∷ s) = let rest = split sep s in if nat_beq c sep then [] ∷ rest else onto_first c rest

-- `str::splitn(2, sep)`: the text before the first separator, and the rest if there is one.
unfoldable pub splitn2 : ℕ → Text → Text × Option Text
splitn2 sep [] = ([], none)
splitn2 sep (c ∷ s) =
    let (p, rest) = splitn2 sep s in if nat_beq c sep then ([], some s) else (c ∷ p, rest)

-- `[T]::join` on a list of texts.
unfoldable pub join : Text → List Text → Text
join sep [] = []
join sep (p ∷ []) = p
join sep (p ∷ q ∷ ps) = p ++ (sep ++ join sep (q ∷ ps))

-- `char::to_ascii_lowercase`.
unfoldable pub to_ascii_lowercase : ℕ → ℕ
to_ascii_lowercase c = if leb b'A' c && leb c b'Z' then c + 32 else c

-- `str::eq_ignore_ascii_case`.
unfoldable pub eq_ignore_ascii_case : Text → Text → Bool
eq_ignore_ascii_case [] [] = true
eq_ignore_ascii_case (a ∷ s) (b ∷ t) =
    nat_beq (to_ascii_lowercase a) (to_ascii_lowercase b) && eq_ignore_ascii_case s t
eq_ignore_ascii_case _ _ = false

pub eq_ignore_ascii_case_iff :
    (s t : Text)
    → (eq_ignore_ascii_case s t ≡ true → map to_ascii_lowercase s ≡ map to_ascii_lowercase t)
      × (map to_ascii_lowercase s ≡ map to_ascii_lowercase t → eq_ignore_ascii_case s t ≡ true)
unfolding eq_ignore_ascii_case
eq_ignore_ascii_case_iff [] [] = (λ h. refl, λ h. refl)
eq_ignore_ascii_case_iff [] (b ∷ t) = (λ h. cc, λ h. cc)
eq_ignore_ascii_case_iff (a ∷ s) [] = (λ h. cc, λ h. cc)
eq_ignore_ascii_case_iff (a ∷ s) (b ∷ t) = ground (arith, eq_ignore_ascii_case_iff s t)

-- A part without the separator, followed by it, is the first part.
pub split-append :
    (sep : ℕ) (p s : Text) → Lacks sep p → split sep (p ++ (sep ∷ s)) ≡ p ∷ split sep s
unfolding split
split-append sep [] s h = ground arith
split-append sep (c ∷ p) s h = ground (arith, split-append sep p s h.1)

pub split_whole : (sep : ℕ) (p : Text) → Lacks sep p → split sep p ≡ p ∷ []
unfolding split
split_whole sep [] h = refl
split_whole sep (c ∷ p) h = ground (arith, split_whole sep p h.1)

pub splitn2-append :
    (sep : ℕ) (p s : Text) → Lacks sep p → splitn2 sep (p ++ (sep ∷ s)) ≡ (p, some s)
unfolding splitn2
splitn2-append sep [] s h = ground arith
splitn2-append sep (c ∷ p) s h = ground (arith, splitn2-append sep p s h.1)

-- Joining parts that lack the separator and splitting again gives the parts back.
pub split-join :
    (sep : ℕ) (p : Text) (ps : List Text)
    → All (Lacks sep) (p ∷ ps)
    → split sep (join (sep ∷ []) (p ∷ ps)) ≡ p ∷ ps
unfolding join
split-join sep p [] h = split_whole sep p h.0
split-join sep p (q ∷ ps) h =
    split-append sep p (join (sep ∷ []) (q ∷ ps)) h.0 ∙ ap (◌∷◌ p) (split-join sep q ps h.1)

-- A literal in a message, kept folded.
unfoldable pub text : String → Text
text s = codes s

-- `format!`: the parts of a message in order.
unfoldable pub format : List Text → Text
format [] = []
format (p ∷ ps) = p ++ format ps
