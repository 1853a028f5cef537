-- ===== src/Transaction/Applied/Resolution/Sets.antt =====
-- `AppliedChangeSet::check_conflict` on whole sets of changes.
use ducklake_sdk.Common.{◌≡◌, refl, ap, ◌∙◌, subst, ◌⊎◌, inl, inr, ◌↔◌, List, [], ◌∷◌, ◌++◌, Elem}
use ducklake_sdk.Common.Error.{Result, ok, err, ◌>>◌, DucklakeError}
use ducklake_sdk.Typedefs.Regex.{RegexCrate}
use ducklake_sdk.Catalog.Entities.{Catalog}
use ducklake_sdk.Transaction.Applied.{AppliedChange}
use ducklake_sdk.Transaction.Applied.Conflict.{check_conflict, check_against, check_sets}
use ducklake_sdk.Transaction.Applied.Footprint.{Conflicts}
use ducklake_sdk.Transaction.Applied.Resolution.{IsConflict}
use ducklake_sdk.Transaction.Applied.Resolution.Exact.{check_conflict-Conflicts}

>>-ok : (a b : Result (Unit {0})) → (a >> b) ≡ ok tt → (a ≡ ok tt) × (b ≡ ok tt)
>>-ok (ok u) b h = (refl, h)
>>-ok (err e) b h = cc

ok->> : (a b : Result (Unit {0})) → a ≡ ok tt → b ≡ ok tt → (a >> b) ≡ ok tt
ok->> a b h k = rw (h) k

err->> :
    (a b : Result (Unit {0})) (e : DucklakeError)
    → (a >> b) ≡ err e
    → (a ≡ err e) ⊎ ((a ≡ ok tt) × (b ≡ err e))
err->> (ok u) b e h = inr (refl, h)
err->> (err d) b e h = inl h

not_ok-IsConflict : (a : Result (Unit {0})) → a ≡ ok tt → ¬ IsConflict a
not_ok-IsConflict a h c = subst IsConflict h c

module _ {V : Type 0} (regexes : RegexCrate) (catalog : Catalog V) where
  -- `l` passes against every change of the list.
  abbrev pub PassesAll : AppliedChange → List AppliedChange → Type 0
  PassesAll l others =
      (r : AppliedChange) → Elem r others → check_conflict regexes catalog l r ≡ ok tt

  against_passes :
      (l : AppliedChange) (others : List AppliedChange)
      → check_against regexes catalog l others ≡ ok tt
      → PassesAll l others
  unfolding check_against
  against_passes l [] h r i = absurd i
  against_passes l (o ∷ others) h r (inl e) =
      ap (check_conflict regexes catalog l) e
      ∙ (>>-ok (check_conflict regexes catalog l o) (check_against regexes catalog l others) h).0
  against_passes l (o ∷ others) h r (inr i) =
      against_passes l others
        (>>-ok (check_conflict regexes catalog l o) (check_against regexes catalog l others) h).1 r
        i

  passes_against :
      (l : AppliedChange) (others : List AppliedChange)
      → PassesAll l others
      → check_against regexes catalog l others ≡ ok tt
  unfolding check_against
  passes_against l [] h = refl
  passes_against l (o ∷ others) h =
      ok->> (check_conflict regexes catalog l o) (check_against regexes catalog l others)
        (h o (inl refl)) (passes_against l others (λ r i. h r (inr i)))

  -- The first change of the list that `l` fails against.
  abbrev pub FirstAgainst : AppliedChange → List AppliedChange → DucklakeError → Type 0
  FirstAgainst l others e =
      (passed : List AppliedChange) × (r : AppliedChange) × (rest : List AppliedChange) × (others
        ≡ passed ++ (r ∷ rest))
      × PassesAll l passed
      × (check_conflict regexes catalog l r ≡ err e)

  against_error :
      (l : AppliedChange) (others : List AppliedChange) (e : DucklakeError)
      → check_against regexes catalog l others ≡ err e
      → FirstAgainst l others e
  unfolding check_against
  against_error l [] e h = cc
  against_error l (o ∷ others) e h =
      elim (err->> (check_conflict regexes catalog l o) (check_against regexes catalog l others) e
        h) [
          | inl f ↦ ([], o, others, refl, (λ r i. absurd i), f)
          | inr (q, f) ↦
              let (passed, r, rest, split, before, g) = against_error l others e f in
              (
                o ∷ passed,
                r,
                rest,
                ap (◌∷◌ o) split,
                (λ x i. elim i [
                  | inl k ↦ ap (check_conflict regexes catalog l) k ∙ q
                  | inr j ↦ before x j
                ]),
                g,
              )
        ]

  sets_pass :
      (changes others : List AppliedChange)
      → check_sets regexes catalog changes others ≡ ok tt
      → (l : AppliedChange) → Elem l changes
      → PassesAll l others
  unfolding check_sets
  sets_pass [] others h l i = absurd i
  sets_pass (c ∷ changes) others h l (inl e) = λ r j.
      ap (λ z. check_conflict regexes catalog z r) e
      ∙ against_passes c others
          (>>-ok (check_against regexes catalog c others)
            (check_sets regexes catalog changes others) h).0
          r j
  sets_pass (c ∷ changes) others h l (inr i) =
      sets_pass changes others
        (>>-ok (check_against regexes catalog c others) (check_sets regexes catalog changes others)
          h).1
        l i

  pass_sets :
      (changes others : List AppliedChange)
      → ((l : AppliedChange) → Elem l changes → PassesAll l others)
      → check_sets regexes catalog changes others ≡ ok tt
  unfolding check_sets
  pass_sets [] others h = refl
  pass_sets (c ∷ changes) others h =
      ok->> (check_against regexes catalog c others) (check_sets regexes catalog changes others)
        (passes_against c others (h c (inl refl))) (pass_sets changes others (λ l i. h l (inr i)))

  -- Two sets of changes pass `check_conflict` exactly when every pair of a change of the first and
  -- a change of the second does.
  pub check_sets-pairs :
      (changes others : List AppliedChange)
      → (check_sets regexes catalog changes others ≡ ok tt) ↔ (
          (l : AppliedChange)
          → Elem l changes
          → (r : AppliedChange) → Elem r others
          → check_conflict regexes catalog l r ≡ ok tt)
  check_sets-pairs changes others = (sets_pass changes others, pass_sets changes others)

  -- Where two sets of changes raise an error, it is that of the first pair, in the order of the first set
  -- and then of the second, that does not pass: every earlier change of the first set passes against
  -- the whole second set, and the change itself against every earlier change of the second.
  pub check_sets_error :
      (changes others : List AppliedChange) (e : DucklakeError)
      → check_sets regexes catalog changes others ≡ err e
      → (passed : List AppliedChange) × (l : AppliedChange) × (rest : List AppliedChange) × (changes
          ≡ passed ++ (l ∷ rest))
        × ((p : AppliedChange) → Elem p passed → PassesAll p others)
        × FirstAgainst l others e
  unfolding check_sets
  check_sets_error [] others e h = cc
  check_sets_error (c ∷ changes) others e h =
      elim (err->> (check_against regexes catalog c others)
        (check_sets regexes catalog changes others) e h) [
          | inl f ↦ ([], c, changes, refl, (λ p i. absurd i), against_error c others e f)
          | inr (q, f) ↦
              let (passed, l, rest, split, before, first) = check_sets_error changes others e f in
              (
                c ∷ passed,
                l,
                rest,
                ap (◌∷◌ c) split,
                (λ p i. elim i [
                  | inl k ↦ λ r j.
                      ap (λ z. check_conflict regexes catalog z r) k ∙ against_passes c others q r j
                  | inr j ↦ before p j
                ]),
                first,
              )
        ]

  -- If two sets of changes pass, no change of the first conflicts with a change of the second in
  -- the sense of the conflict matrix of Footprint.
  pub check_sets-no_conflict :
      (changes others : List AppliedChange) (l r : AppliedChange)
      → check_sets regexes catalog changes others ≡ ok tt
      → Elem l changes
      → Elem r others
      → ¬ Conflicts regexes catalog l r
  check_sets-no_conflict changes others l r h i j c =
      not_ok-IsConflict (check_conflict regexes catalog l r) (sets_pass changes others h l i r j)
        ((check_conflict-Conflicts regexes catalog l r).1 c)
