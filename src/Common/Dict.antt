-- ===== src/Common/Dict.antt =====
-- `HashMap` and `IndexMap` of the indexmap crate, keyed by texts and other keys that can be compared:
-- association lists with distinct keys, in the order of insertion.
use mathlib.Core.Path.{◌≡◌, refl, sym, ap, ◌∙◌}
use mathlib.Core.Logic.{◌≢◌, ◌⊎◌, inl, inr}
use mathlib.Core.Bool.{Bool, true, false}
use mathlib.Core.List.{List, [], ◌∷◌, ◌++◌, map}
use mathlib.Core.Option.{Option, none, some}
use native.Mathlib.Omega.{arith}
use ducklake_sdk.Common.Tests.{Bool-cases, if◌then◌else◌}
use ducklake_sdk.Common.Equality.{Eq}

abbrev pub Dict : Type 0 → Type 0 → Type 0
Dict K A = List (K × A)

abbrev pub is_some : {A : Type 0} → Option A → Bool
is_some none = false
is_some (some a) = true

module _ {K A : Type 0} ⦃e : Eq K⦄ where
  unfoldable pub get : Dict K A → K → Option A
  get [] k = none
  get ((i, a) ∷ m) k = if e.beq i k then some a else get m k

  -- A key that is there keeps its place.
  unfoldable pub insert : Dict K A → K → A → Dict K A
  insert [] k a = (k, a) ∷ []
  insert ((i, b) ∷ m) k a = if e.beq i k then (k, a) ∷ m else (i, b) ∷ insert m k a

  unfoldable pub remove : Dict K A → K → Dict K A
  remove [] k = []
  remove ((i, b) ∷ m) k = let rest = remove m k in if e.beq i k then rest else (i, b) ∷ rest

  abbrev pub contains_key : Dict K A → K → Bool
  contains_key m k = is_some (get m k)

  -- `shift_remove_full(old)` and `shift_insert` of a new key at the same place, where the old key is
  -- there. Keys are distinct, so nothing is left of the old one behind it.
  unfoldable pub replace_key : Dict K A → K → K → A → Dict K A
  unfolding remove
  replace_key [] old new a = []
  replace_key ((i, b) ∷ m) old new a =
      let rest = replace_key m old new a in
      if e.beq i old then (new, a) ∷ remove m old else (i, b) ∷ rest

  pub get-insert :
      (m : Dict K A) (k : K) (a : A) (j : K)
      → get (insert m k a) j ≡ (if e.beq k j then some a else get m j)
  unfolding get insert
  get-insert [] k a j = refl
  get-insert ((i, b) ∷ m) k a j =
      ground (arith, e.beq_iff i k, e.beq_iff k j, e.beq_iff i j, get-insert m k a j)

  pub get-remove :
      (m : Dict K A) (k j : K) → get (remove m k) j ≡ (if e.beq k j then none else get m j)
  unfolding get remove
  get-remove [] k j = ground arith
  get-remove ((i, b) ∷ m) k j =
      ground (arith, e.beq_iff i k, e.beq_iff k j, e.beq_iff i j, get-remove m k j)

  pub get-replace_key :
      (m : Dict K A) (old new : K) (a b : A) (j : K)
      → get m old ≡ some b
      → get m new ≡ none
      → get (replace_key m old new a) j
        ≡ (if e.beq new j then some a else if e.beq old j then none else get m j)
  unfolding get replace_key
  get-replace_key [] old new a b j h k = cc
  get-replace_key ((i, c) ∷ m) old new a b j h k = ground (
    arith,
    e.beq_iff i old,
    e.beq_iff i new,
    e.beq_iff i j,
    e.beq_iff new j,
    e.beq_iff old j,
    get-remove m old j,
    get-replace_key m old new a b j,
  )

abbrev pub keys : {K A : Type 0} → Dict K A → List K
keys = map (λ entry. entry.0)

module _ {K A : Type 0} ⦃e : Eq K⦄ where
  -- A new key goes to the end.
  pub insert_fresh :
      (m : Dict K A) (k : K) (a : A) → get m k ≡ none → insert m k a ≡ m ++ ((k, a) ∷ [])
  unfolding get insert
  insert_fresh [] k a h = refl
  insert_fresh ((i, b) ∷ m) k a h = elim (Bool-cases (e.beq i k)) [
    | inl t ↦ absurd (present i k b m t h)
    | inr f ↦
        rw f (
          ap (◌∷◌ (i, b))
            (insert_fresh m k a (ap (λ t. if t then some b else get m k) (sym f) ∙ h)))
  ]
    where
      present : (i k : K) (b : A) (m : Dict K A) → e.beq i k ≡ true → get ((i, b) ∷ m) k ≡ none → ⊥
      present i k b m t h = ground arith

module _ {K A : Type 0} ⦃e : Eq K⦄ where
  -- What is found after an insertion is what was inserted, or what was there under another key.
  pub insert-cases :
      (m : Dict K A) (k : K) (a : A) (j : K) (b : A)
      → get (insert m k a) j ≡ some b
      → ((k ≡ j) × (a ≡ b)) ⊎ ((k ≢ j) × (get m j ≡ some b))
  insert-cases m k a j b h =
      let s = sym (get-insert m k a j) ∙ h in
      elim (Bool-cases (e.beq k j)) [
        | inl t ↦
            inl ((e.beq_iff k j).0 t, same (ap (λ z. if z then some a else get m j) (sym t) ∙ s))
        | inr f ↦ inr ((λ q. ne q f), ap (λ z. if z then some a else get m j) (sym f) ∙ s)
      ]
    where
      same : {a b : A} → some a ≡ some b → a ≡ b
      same h = cc

      ne : {k j : K} → k ≡ j → e.beq k j ≡ false → ⊥
      ne {k} {j} q f = let t = (e.beq_iff k j).1 q in cc

  -- What is found after a removal was there under another key.
  pub remove-cases :
      (m : Dict K A) (k j : K) (b : A) → get (remove m k) j ≡ some b → (k ≢ j) × (get m j ≡ some b)
  remove-cases m k j b h =
      let s = sym (get-remove m k j) ∙ h in
      elim (Bool-cases (e.beq k j)) [
        | inl t ↦ absurd (none-some (ap (λ z. if z then none else get m j) (sym t) ∙ s))
        | inr f ↦ ((λ q. ne q f), ap (λ z. if z then none else get m j) (sym f) ∙ s)
      ]
    where
      none-some : {b : A} → none ≡ some b → ⊥
      none-some h = cc

      ne : {k j : K} → k ≡ j → e.beq k j ≡ false → ⊥
      ne {k} {j} q f = let t = (e.beq_iff k j).1 q in cc
