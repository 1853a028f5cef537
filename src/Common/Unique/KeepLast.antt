-- ===== src/Common/Unique/KeepLast.antt =====
-- `unique_by` between two reversals keeps the last element of each key: the specification of that,
-- and its laws.
use mathlib.Core.Path.{◌≡◌, refl, ap, sym, ◌∙◌, subst}
use mathlib.Core.Logic.{◌⊎◌, inl, inr, ◌↔◌}
use mathlib.Core.Bool.{true, false}
use mathlib.Core.List.{
  List, [], ◌∷◌, map, map-append, reverse, reverse-cons, append-nil, reverse-append,
}
use native.Mathlib.Omega.{arith}
use ducklake_sdk.Common.Tests.{Bool-cases}
use ducklake_sdk.Common.Equality.{Eq}
use ducklake_sdk.Common.Lists.{Elem, Distinct, Subseq}
use ducklake_sdk.Common.Unique.{
  contains, contains_iff, contains-append, unique_by, unique_from, unique_from_snoc,
}

module _ {A K : Type 0} ⦃e : Eq K⦄ (key : A → K) where
  -- The specification of keeping the last element of each key, in the order of the input.
  abbrev pub keep_last : List A → List A
  keep_last [] = []
  keep_last (x ∷ xs) = elim (contains (map key xs) (key x)) [
    | true ↦ keep_last xs
    | false ↦ x ∷ keep_last xs
  ]

  contains-reverse :
      (xs : List A) (k : K) → contains (map key (reverse xs)) k ≡ contains (map key xs) k
  contains-reverse [] k = refl
  contains-reverse (x ∷ xs) k =
      rw (reverse-cons x xs, map-append)
        (ground (
          arith,
          contains-append (map key (reverse xs)) (key x ∷ []) k,
          contains-append (key x ∷ []) (map key xs) k,
          contains-reverse xs k,
        ))

  -- Reversing, keeping first elements and reversing again keeps the last elements.
  pub reverse-unique_by-reverse :
      (xs : List A) → reverse (unique_by key (reverse xs)) ≡ keep_last xs
  unfolding unique_by
  reverse-unique_by-reverse [] = unfold unique_from in refl
  reverse-unique_by-reverse (x ∷ xs) =
      ap (λ l. reverse (unique_from key [] l)) (reverse-cons x xs)
      ∙ ap reverse (unique_from_snoc key [] (reverse xs) x)
      ∙ ground (
        arith,
        append-nil (map key (reverse xs)),
        append-nil (unique_from key [] (reverse xs)),
        contains-reverse xs (key x),
        reverse-append (unique_from key [] (reverse xs)) (x ∷ []),
        reverse-unique_by-reverse xs,
      )

  pub keep_last_old :
      (x : A) (xs : List A) → Elem (key x) (map key xs) → keep_last (x ∷ xs) ≡ keep_last xs
  keep_last_old x xs h = ground (arith, (contains_iff (map key xs) (key x)).1 h)

  pub keep_last_new :
      (x : A) (xs : List A) → ¬ Elem (key x) (map key xs) → keep_last (x ∷ xs) ≡ x ∷ keep_last xs
  keep_last_new x xs h = ground (arith, contains_iff (map key xs) (key x))

  pub keep_last-Subseq : (xs : List A) → Subseq (keep_last xs) xs
  keep_last-Subseq [] = refl
  keep_last-Subseq (x ∷ xs) = elim (Bool-cases (contains (map key xs) (key x))) [
    | inl old ↦
        rw (keep_last_old x xs ((contains_iff (map key xs) (key x)).0 old))
          (inl (keep_last-Subseq xs))
    | inr new ↦ rw (new_head x xs new) (inr (keep_last xs, refl, keep_last-Subseq xs))
  ]
    where
      new_head :
          (x : A) (xs : List A)
          → contains (map key xs) (key x) ≡ false
          → keep_last (x ∷ xs) ≡ x ∷ keep_last xs
      new_head x xs new = ground arith

  pub keep_last_split :
      (x : A) (xs : List A)
      → ((Elem (key x) (map key xs)) × (keep_last (x ∷ xs) ≡ keep_last xs))
        ⊎ ((¬ Elem (key x) (map key xs)) × (keep_last (x ∷ xs) ≡ x ∷ keep_last xs))
  keep_last_split x xs = elim (Bool-cases (contains (map key xs) (key x))) [
    | inl old ↦ let i = (contains_iff (map key xs) (key x)).0 old in inl (i, keep_last_old x xs i)
    | inr new ↦ inr (absent new, keep_last_new x xs (absent new))
  ]
    where
      absent : contains (map key xs) (key x) ≡ false → ¬ Elem (key x) (map key xs)
      absent new i = let found = (contains_iff (map key xs) (key x)).1 i in cc

  -- Every key of the input is a key of the result.
  pub keep_last-covers :
      (xs : List A) (k : K) → Elem k (map key xs) → Elem k (map key (keep_last xs))
  keep_last-covers [] k h = h
  keep_last-covers (x ∷ xs) k h = elim (keep_last_split x xs) [
    | inl (i, e) ↦ subst (λ l. Elem k (map key l)) (sym e) (keep_last-covers xs k (in_tail h i))
    | inr (n, e) ↦ subst (λ l. Elem k (map key l)) (sym e) (in_new h (keep_last-covers xs k))
  ]
    where
      in_tail : Elem k (map key (x ∷ xs)) → Elem (key x) (map key xs) → Elem k (map key xs)
      in_tail (inl q) i = subst (λ z. Elem z (map key xs)) (sym q) i
      in_tail (inr j) i = j

      in_new :
          Elem k (map key (x ∷ xs))
          → (Elem k (map key xs) → Elem k (map key (keep_last xs)))
          → Elem k (map key (x ∷ keep_last xs))
      in_new (inl q) f = inl q
      in_new (inr j) f = inr (f j)

  -- `x` stands in the list and no later element has its key.
  abbrev pub IsLast : A → List A → Type 0
  IsLast x [] = ⊥
  IsLast x (y ∷ ys) = ((x ≡ y) × (¬ Elem (key x) (map key ys))) ⊎ IsLast x ys

  pub IsLast-key : (x : A) (xs : List A) → IsLast x xs → Elem (key x) (map key xs)
  IsLast-key x [] h = absurd h
  IsLast-key x (y ∷ ys) (inl (q, n)) = inl (ap key q)
  IsLast-key x (y ∷ ys) (inr h) = inr (IsLast-key x ys h)

  -- Exactly the last elements are kept.
  pub Elem-keep_last : (xs : List A) (x : A) → Elem x (keep_last xs) ↔ IsLast x xs
  Elem-keep_last [] x = (λ h. h, λ h. h)
  Elem-keep_last (y ∷ ys) x = elim (keep_last_split y ys) [
    | inl (i, e) ↦
        let (to, from) = Elem-keep_last ys x in
        (λ h. inr (to (subst (Elem x) e h)), λ h. subst (Elem x) (sym e) (from (later h i)))
    | inr (n, e) ↦
        let (to, from) = Elem-keep_last ys x in
        (λ h. first (subst (Elem x) e h) n to, λ h. subst (Elem x) (sym e) (back h from))
  ]
    where
      later : IsLast x (y ∷ ys) → Elem (key y) (map key ys) → IsLast x ys
      later (inl (q, n)) i = absurd (n (subst (λ z. Elem (key z) (map key ys)) (sym q) i))
      later (inr h) i = h

      first :
          Elem x (y ∷ keep_last ys)
          → ¬ Elem (key y) (map key ys)
          → (Elem x (keep_last ys) → IsLast x ys)
          → IsLast x (y ∷ ys)
      first (inl q) n to = inl (q, λ i. n (subst (λ z. Elem (key z) (map key ys)) q i))
      first (inr h) n to = inr (to h)

      back : IsLast x (y ∷ ys) → (IsLast x ys → Elem x (keep_last ys)) → Elem x (y ∷ keep_last ys)
      back (inl (q, n)) from = inl q
      back (inr h) from = inr (from h)

  Elem-map_Subseq :
      (k : K) (xs ys : List A) → Subseq xs ys → Elem k (map key xs) → Elem k (map key ys)
  Elem-map_Subseq k xs [] s h = subst (λ l. Elem k (map key l)) s h
  Elem-map_Subseq k xs (y ∷ ys) (inl s) h = inr (Elem-map_Subseq k xs ys s h)
  Elem-map_Subseq k xs (y ∷ ys) (inr (r, e, s)) h =
      go (subst (λ l. Elem k (map key l)) e h) (Elem-map_Subseq k r ys s)
    where
      go :
          Elem k (map key (y ∷ r))
          → (Elem k (map key r) → Elem k (map key ys))
          → Elem k (map key (y ∷ ys))
      go (inl q) f = inl q
      go (inr i) f = inr (f i)

  pub keep_last-Distinct : (xs : List A) → Distinct (map key (keep_last xs))
  keep_last-Distinct [] = tt
  keep_last-Distinct (x ∷ xs) = elim (keep_last_split x xs) [
    | inl (i, e) ↦ subst (λ l. Distinct (map key l)) (sym e) (keep_last-Distinct xs)
    | inr (n, e) ↦
        subst (λ l. Distinct (map key l)) (sym e)
          (
            (λ i. n (Elem-map_Subseq (key x) (keep_last xs) xs (keep_last-Subseq xs) i)),
            keep_last-Distinct xs,
          )
  ]

  -- Keys that are distinct stay distinct in a part of the list.
  pub map_Subseq-Distinct :
      (xs ys : List A) → Subseq xs ys → Distinct (map key ys) → Distinct (map key xs)
  map_Subseq-Distinct xs [] s d = subst (λ l. Distinct (map key l)) (sym s) tt
  map_Subseq-Distinct xs (y ∷ ys) (inl s) d = map_Subseq-Distinct xs ys s d.1
  map_Subseq-Distinct xs (y ∷ ys) (inr (r, e, s)) d =
      subst (λ l. Distinct (map key l)) (sym e)
        ((λ i. d.0 (Elem-map_Subseq (key y) r ys s i)), map_Subseq-Distinct r ys s d.1)

  pub keep_last_id : (xs : List A) → Distinct (map key xs) → keep_last xs ≡ xs
  keep_last_id [] d = refl
  keep_last_id (x ∷ xs) d = keep_last_new x xs d.0 ∙ ap (◌∷◌ x) (keep_last_id xs d.1)
