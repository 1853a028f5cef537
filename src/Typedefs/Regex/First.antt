-- ===== src/Typedefs/Regex/First.antt =====
-- The first way to match: what a backtracking search finds.
use ducklake_sdk.Common.{
  ℕ, zero, suc, ◌≡◌, refl, sym, ap, ◌∙◌, subst, Bool, false, ◌&&◌, List, [], ◌∷◌, ◌++◌, map,
}
use ducklake_sdk.Common.Text.{Text}
use ducklake_sdk.Typedefs.Regex.{
  Regex, seq, group, Match, is_nil, flat_map, here, join, captured, rounds, ways,
}

-- `w` is the first of the ways.
abbrev pub IsFirst {ℓ} : {A : Type ℓ} → List A → A → Type ℓ
IsFirst {A = A} ws w = (behind : List A) × (ws ≡ w ∷ behind)

pub IsFirst-append : {A : Type 0} (ws vs : List A) (w : A) → IsFirst ws w → IsFirst (ws ++ vs) w
IsFirst-append ws vs w (behind, e) = (behind ++ vs, ap (λ l. l ++ vs) e)

pub IsFirst-map :
    {A B : Type 0} (f : A → B) (ws : List A) (w : A) → IsFirst ws w → IsFirst (map f ws) (f w)
IsFirst-map f ws w (behind, e) = (map f behind, ap (map f) e)

pub IsFirst-flat_map :
    {A B : Type 0} (f : A → List B) (ws : List A) (w : A) (v : B)
    → IsFirst ws w
    → IsFirst (f w) v
    → IsFirst (flat_map f ws) v
IsFirst-flat_map f ws w v (behind, e) (more, k) =
    (more ++ flat_map f behind, ap (flat_map f) e ∙ ap (λ l. l ++ flat_map f behind) k)

pub IsFirst-seq :
    (a b : Regex) (at : Bool) (s : Text) (w v : Match)
    → IsFirst (ways a at s) w
    → IsFirst (ways b (at && is_nil w.consumed) w.rest) v
    → IsFirst (ways (seq a b) at s) (join w v)
unfolding ways
IsFirst-seq a b at s w v f g =
    IsFirst-flat_map (λ w. map (join w) (ways b (at && is_nil w.consumed) w.rest)) (ways a at s) w
      (join w v) f (IsFirst-map (join w) (ways b (at && is_nil w.consumed) w.rest) v g)

pub IsFirst-group :
    (n : ℕ) (r : Regex) (at : Bool) (s : Text) (w : Match)
    → IsFirst (ways r at s) w
    → IsFirst (ways (group n r) at s) (captured n w)
unfolding ways
IsFirst-group n r at s w f = IsFirst-map (captured n) (ways r at s) w f

-- A round that takes something, and the rounds behind it.
pub IsFirst-rounds :
    (f : Bool → Text → List Match) (fuel : ℕ) (at : Bool) (s : Text) (c : ℕ) (t : Text)
    (w v : Match)
    → w.consumed ≡ c ∷ t
    → IsFirst (f at s) w
    → IsFirst (rounds f fuel false w.rest) v
    → IsFirst (rounds f (suc fuel) at s) (join w v)
unfolding rounds
IsFirst-rounds f fuel at s c t w v e a b = IsFirst-append _ (here s ∷ []) (join w v) (
    IsFirst-flat_map _ (f at s) w (join w v) a (
      subst
        (λ consumed.
          IsFirst (elim consumed [ [] ↦ [] | (d ∷ u) ↦ map (join w) (rounds f fuel false w.rest) ])
            (join w v))
        (sym e) (IsFirst-map (join w) (rounds f fuel false w.rest) v b)))

-- No round.
pub rounds_over :
    (f : Bool → Text → List Match) (fuel : ℕ) (at : Bool) (s : Text)
    → f at s ≡ []
    → rounds f fuel at s ≡ here s ∷ []
unfolding rounds
rounds_over f zero at s h = refl
rounds_over f (suc fuel) at s h = rw h refl
