-- ===== src/Common/Lists.antt =====
-- Lists measured by native numbers, and predicates on lists by recursion.
use Prim.Native.Nat.{ℕ, zero, suc, ◌+◌}
use mathlib.Core.Path.{◌≡◌, refl, ap, sym, ◌∙◌, subst}
use mathlib.Core.Logic.{◌⊎◌, inl, inr, ◌≢◌}
use mathlib.Core.Bool.{Bool, true, false}
use mathlib.Core.List.{List, [], ◌∷◌, ◌++◌}
use mathlib.Core.Option.{Option, none, some}
use native.Mathlib.Omega.{arith}
use ducklake_sdk.Common.Tests.{Bool-cases, Option-cases}

module _ {ℓ} {A : Type ℓ} where
  abbrev pub length : List A → ℕ
  length [] = 0
  length (x ∷ xs) = suc (length xs)

  abbrev pub get_elem? : List A → ℕ → Option A
  get_elem? [] i = none
  get_elem? (x ∷ xs) zero = some x
  get_elem? (x ∷ xs) (suc i) = get_elem? xs i

  -- A write out of bounds changes nothing.
  abbrev pub set : List A → ℕ → A → List A
  set [] i v = []
  set (x ∷ xs) zero v = v ∷ xs
  set (x ∷ xs) (suc i) v = x ∷ set xs i v

  pub length-append : (xs ys : List A) → length (xs ++ ys) ≡ length xs + length ys
  length-append [] ys = omega arith
  length-append (x ∷ xs) ys = omega (arith, length-append xs ys)

  pub length-set : (xs : List A) (i : ℕ) (v : A) → length (set xs i v) ≡ length xs
  length-set [] i v = refl
  length-set (x ∷ xs) zero v = refl
  length-set (x ∷ xs) (suc i) v = ap suc (length-set xs i v)

  pub get_elem?-set :
      (xs : List A) (i : ℕ) (v w : A) → get_elem? xs i ≡ some w → get_elem? (set xs i v) i ≡ some v
  get_elem?-set [] i v w h = cc
  get_elem?-set (x ∷ xs) zero v w h = refl
  get_elem?-set (x ∷ xs) (suc i) v w h = get_elem?-set xs i v w h

  pub get_elem?-set_ne :
      (xs : List A) (i j : ℕ) (v : A) → j ≢ i → get_elem? (set xs i v) j ≡ get_elem? xs j
  get_elem?-set_ne [] i j v h = refl
  get_elem?-set_ne (x ∷ xs) zero zero v h = absurd (h refl)
  get_elem?-set_ne (x ∷ xs) zero (suc j) v h = refl
  get_elem?-set_ne (x ∷ xs) (suc i) zero v h = refl
  get_elem?-set_ne (x ∷ xs) (suc i) (suc j) v h = get_elem?-set_ne xs i j v (λ e. h (ap suc e))

  -- `Vec::retain` and `Iterator::filter` by a Boolean test.
  abbrev pub retain : (A → Bool) → List A → List A
  retain p [] = []
  retain p (x ∷ xs) = elim (p x) [ true ↦ x ∷ retain p xs | false ↦ retain p xs ]

  -- `Iterator::any` and `Iterator::all`.
  abbrev pub any : (A → Bool) → List A → Bool
  any p [] = false
  any p (x ∷ xs) = elim (p x) [ true ↦ true | false ↦ any p xs ]

  abbrev pub all : (A → Bool) → List A → Bool
  all p [] = true
  all p (x ∷ xs) = elim (p x) [ true ↦ all p xs | false ↦ false ]

-- `Iterator::filter_map`.
abbrev pub filter_map {ℓ κ} : {A : Type ℓ} {B : Type κ} → (A → Option B) → List A → List B
filter_map f [] = []
filter_map f (x ∷ xs) = elim (f x) [ none ↦ filter_map f xs | some y ↦ y ∷ filter_map f xs ]

module _ {A : Type 0} where
  -- `a` stands somewhere in the list.
  abbrev pub Elem : A → List A → Type 0
  Elem a [] = ⊥
  Elem a (x ∷ xs) = (a ≡ x) ⊎ Elem a xs

  abbrev pub All : (A → Type 0) → List A → Type 0
  All P [] = Unit {0}
  All P (x ∷ xs) = P x × All P xs

  -- No element stands twice.
  abbrev pub Distinct : List A → Type 0
  Distinct [] = Unit {0}
  Distinct (x ∷ xs) = (¬ Elem x xs) × Distinct xs

  -- The first list is the second with some elements left out.
  abbrev pub Subseq : List A → List A → Type 0
  Subseq xs [] = xs ≡ []
  Subseq xs (y ∷ ys) = Subseq xs ys ⊎ ((r : List A) × (xs ≡ y ∷ r) × Subseq r ys)

  pub Elem-append_left : (a : A) (xs ys : List A) → Elem a xs → Elem a (xs ++ ys)
  Elem-append_left a [] ys h = absurd h
  Elem-append_left a (x ∷ xs) ys (inl e) = inl e
  Elem-append_left a (x ∷ xs) ys (inr h) = inr (Elem-append_left a xs ys h)

  pub Elem-append_right : (a : A) (xs ys : List A) → Elem a ys → Elem a (xs ++ ys)
  Elem-append_right a [] ys h = h
  Elem-append_right a (x ∷ xs) ys h = inr (Elem-append_right a xs ys h)

  pub Elem-append-cases : (a : A) (xs ys : List A) → Elem a (xs ++ ys) → Elem a xs ⊎ Elem a ys
  Elem-append-cases a [] ys h = inr h
  Elem-append-cases a (x ∷ xs) ys (inl e) = inl (inl e)
  Elem-append-cases a (x ∷ xs) ys (inr h) = elim (Elem-append-cases a xs ys h) [
    | inl l ↦ inl (inl' l)
    | inr r ↦ inr r
  ]
    where
      inl' : Elem a xs → Elem a (x ∷ xs)
      inl' l = inr l

  pub retain_keep :
      (p : A → Bool) (x : A) (xs : List A) → p x ≡ true → retain p (x ∷ xs) ≡ x ∷ retain p xs
  retain_keep p x xs q = ground arith

  pub retain_skip :
      (p : A → Bool) (x : A) (xs : List A) → p x ≡ false → retain p (x ∷ xs) ≡ retain p xs
  retain_skip p x xs q = ground arith

  -- Exactly the elements that pass the test are retained.
  pub Elem-retain :
      (p : A → Bool) (a : A) (xs : List A) → Elem a xs → p a ≡ true → Elem a (retain p xs)
  Elem-retain p a [] h t = h
  Elem-retain p a (x ∷ xs) (inl e) t =
      subst (Elem a) (sym (retain_keep p x xs (ap p (sym e) ∙ t))) (inl e)
  Elem-retain p a (x ∷ xs) (inr h) t = elim (Bool-cases (p x)) [
    | inl q ↦ subst (Elem a) (sym (retain_keep p x xs q)) (inr (Elem-retain p a xs h t))
    | inr q ↦ subst (Elem a) (sym (retain_skip p x xs q)) (Elem-retain p a xs h t)
  ]

  pub Elem-of_retain :
      (p : A → Bool) (a : A) (xs : List A) → Elem a (retain p xs) → Elem a xs × (p a ≡ true)
  Elem-of_retain p a [] h = absurd h
  Elem-of_retain p a (x ∷ xs) h = elim (Bool-cases (p x)) [
    | inl q ↦ kept (subst (Elem a) (retain_keep p x xs q) h) q (Elem-of_retain p a xs)
    | inr q ↦
        let (i, t) = Elem-of_retain p a xs (subst (Elem a) (retain_skip p x xs q) h) in (inr i, t)
  ]
    where
      kept :
          Elem a (x ∷ retain p xs)
          → p x ≡ true
          → (Elem a (retain p xs) → Elem a xs × (p a ≡ true))
          → Elem a (x ∷ xs) × (p a ≡ true)
      kept (inl e) q ih = (inl e, ap p e ∙ q)
      kept (inr i) q ih = let (j, t) = ih i in (inr j, t)

  pub retain-Subseq : (p : A → Bool) (xs : List A) → Subseq (retain p xs) xs
  retain-Subseq p [] = refl
  retain-Subseq p (x ∷ xs) = elim (Bool-cases (p x)) [
    | inl q ↦
        subst (λ l. Subseq l (x ∷ xs)) (sym (retain_keep p x xs q))
          (inr (retain p xs, refl, retain-Subseq p xs))
    | inr q ↦ subst (λ l. Subseq l (x ∷ xs)) (sym (retain_skip p x xs q)) (inl (retain-Subseq p xs))
  ]

  pub Elem-Subseq : (a : A) (xs ys : List A) → Subseq xs ys → Elem a xs → Elem a ys
  Elem-Subseq a xs [] s h = subst (Elem a) s h
  Elem-Subseq a xs (y ∷ ys) (inl s) h = inr (Elem-Subseq a xs ys s h)
  Elem-Subseq a xs (y ∷ ys) (inr (r, e, s)) h = there (subst (Elem a) e h) (Elem-Subseq a r ys s)
    where
      there : Elem a (y ∷ r) → (Elem a r → Elem a ys) → Elem a (y ∷ ys)
      there (inl e) ih = inl e
      there (inr i) ih = inr (ih i)

  pub Distinct-Subseq : (xs ys : List A) → Subseq xs ys → Distinct ys → Distinct xs
  Distinct-Subseq xs [] s d = subst Distinct (sym s) tt
  Distinct-Subseq xs (y ∷ ys) (inl s) (n, d) = Distinct-Subseq xs ys s d
  Distinct-Subseq xs (y ∷ ys) (inr (r, e, s)) (n, d) =
      subst Distinct (sym e) ((λ h. n (Elem-Subseq y r ys s h)), Distinct-Subseq r ys s d)

  pub Subseq-refl : (xs : List A) → Subseq xs xs
  Subseq-refl [] = refl
  Subseq-refl (x ∷ xs) = inr (xs, refl, Subseq-refl xs)

  pub Subseq-nil : (ys : List A) → Subseq [] ys
  Subseq-nil [] = refl
  Subseq-nil (y ∷ ys) = inl (Subseq-nil ys)

  pub Subseq-trans : (xs ys zs : List A) → Subseq xs ys → Subseq ys zs → Subseq xs zs
  Subseq-trans xs ys [] s t = subst (Subseq xs) t s
  Subseq-trans xs ys (z ∷ zs) s (inl t) = inl (Subseq-trans xs ys zs s t)
  Subseq-trans xs ys (z ∷ zs) s (inr (r, e, t)) =
      step (subst (Subseq xs) e s) (λ u. Subseq-trans xs r zs u t) (λ q u. Subseq-trans q r zs u t)
    where
      step :
          Subseq xs (z ∷ r)
          → (Subseq xs r → Subseq xs zs)
          → ((q : List A) → Subseq q r → Subseq q zs)
          → Subseq xs (z ∷ zs)
      step (inl u) f g = inl (f u)
      step (inr (q, e', u)) f g = inr (q, e', g q u)

  -- A test that all elements pass retains them all.
  pub retain_all :
      (p : A → Bool) (xs : List A) → ((a : A) → Elem a xs → p a ≡ true) → retain p xs ≡ xs
  retain_all p [] h = refl
  retain_all p (x ∷ xs) h =
      retain_keep p x xs (h x (inl refl)) ∙ ap (◌∷◌ x) (retain_all p xs (λ a i. h a (inr i)))

  pub retain_ext :
      (p q : A → Bool) (xs : List A) → ((a : A) → p a ≡ q a) → retain p xs ≡ retain q xs
  retain_ext p q [] h = refl
  retain_ext p q (x ∷ xs) h = ground (arith, h x, retain_ext p q xs h)

module _ {A B : Type 0} where
  pub Elem-filter_map :
      (f : A → Option B) (a : A) (b : B) (xs : List A)
      → Elem a xs
      → f a ≡ some b
      → Elem b (filter_map f xs)
  Elem-filter_map f a b (x ∷ xs) (inl e) h =
      subst (Elem b) (sym (front f x xs b (ap f (sym e) ∙ h))) (inl refl)
    where
      front :
          (f : A → Option B) (x : A) (xs : List A) (b : B)
          → f x ≡ some b
          → filter_map f (x ∷ xs) ≡ b ∷ filter_map f xs
      front f x xs b h = ground arith
  Elem-filter_map f a b (x ∷ xs) (inr i) h = pass f x xs b (Elem-filter_map f a b xs i h)
    where
      pass :
          (f : A → Option B) (x : A) (xs : List A) (b : B)
          → Elem b (filter_map f xs)
          → Elem b (filter_map f (x ∷ xs))
      pass f x xs b i = ground arith
  Elem-filter_map f a b [] i h = absurd i

  pub Elem-of_filter_map :
      (f : A → Option B) (b : B) (xs : List A)
      → Elem b (filter_map f xs)
      → (a : A) × (Elem a xs) × (f a ≡ some b)
  Elem-of_filter_map f b [] i = absurd i
  Elem-of_filter_map f b (x ∷ xs) i = elim (cases f x xs b i) [
    | inl h ↦ (x, inl refl, h)
    | inr j ↦ let (a, k, h) = Elem-of_filter_map f b xs j in (a, inr k, h)
  ]
    where
      cases :
          (f : A → Option B) (x : A) (xs : List A) (b : B)
          → Elem b (filter_map f (x ∷ xs))
          → (f x ≡ some b) ⊎ Elem b (filter_map f xs)
      cases f x xs b i = ground arith

  -- A test that everything in the domain of `f` passes does not change what `f` collects.
  pub filter_map-retain :
      (f : A → Option B) (p : A → Bool) (xs : List A)
      → ((a : A) (b : B) → f a ≡ some b → p a ≡ true)
      → filter_map f (retain p xs) ≡ filter_map f xs
  filter_map-retain f p [] h = refl
  filter_map-retain f p (x ∷ xs) h = elim (Bool-cases (p x)) [
    | inl q ↦ kept f p x xs q (filter_map-retain f p xs h)
    | inr q ↦ dropped f p x xs q (filter_map-retain f p xs h) (λ b e. absurd (clash (h x b e) q))
  ]
    where
      clash : {a : Bool} → a ≡ true → a ≡ false → ⊥
      clash s t = cc

      kept :
          (f : A → Option B) (p : A → Bool) (x : A) (xs : List A)
          → p x ≡ true
          → filter_map f (retain p xs) ≡ filter_map f xs
          → filter_map f (retain p (x ∷ xs)) ≡ filter_map f (x ∷ xs)
      kept f p x xs q ih = ground arith

      dropped :
          (f : A → Option B) (p : A → Bool) (x : A) (xs : List A)
          → p x ≡ false
          → filter_map f (retain p xs) ≡ filter_map f xs
          → ((b : B) → f x ≡ some b → ⊥)
          → filter_map f (retain p (x ∷ xs)) ≡ filter_map f (x ∷ xs)
      dropped f p x xs q ih never = elim (Option-cases (f x)) [
        | inl e ↦ ground arith
        | inr (b, e) ↦ absurd (never b e)
      ]
