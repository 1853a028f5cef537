-- ===== src/Common/Unique.antt =====
-- `Itertools::unique_by` and `unique`: the first element of each key, in order.
pub mod KeepLast
use mathlib.Core.Path.{◌≡◌, refl, ap, sym, ◌∙◌, subst}
use mathlib.Core.Logic.{◌≢◌, ◌⊎◌, inl, inr, ◌↔◌}
use mathlib.Core.Bool.{Bool, true, false, ◌||◌}
use mathlib.Core.List.{
  List, [], ◌∷◌, ◌++◌, map, map-append, reverse, reverse-cons, append-nil, append_assoc,
  reverse-append, reverse-reverse,
}
use native.Mathlib.Omega.{arith}
use ducklake_sdk.Common.Tests.{Bool-cases}
use ducklake_sdk.Common.Equality.{Eq}
use ducklake_sdk.Common.Lists.{
  Elem, Distinct, Subseq, Elem-append_left, Elem-append_right, Elem-append-cases,
}

module _ {K : Type 0} ⦃e : Eq K⦄ where
  -- `HashSet::contains` on the elements of a list.
  unfoldable pub contains : List K → K → Bool
  contains [] k = false
  contains (x ∷ xs) k = elim (e.beq k x) [ true ↦ true | false ↦ contains xs k ]

  pub contains_iff : (xs : List K) (k : K) → (contains xs k ≡ true) ↔ Elem k xs
  unfolding contains
  contains_iff [] k = (λ h. cc, λ h. absurd h)
  contains_iff (x ∷ xs) k = ground (arith, contains_iff xs k, e.beq_iff k x)

  -- Two lists with the same elements answer alike.
  pub contains_ext :
      (xs ys : List K) (k : K)
      → (Elem k xs → Elem k ys)
      → (Elem k ys → Elem k xs)
      → contains xs k ≡ contains ys k
  contains_ext xs ys k f g = ground (arith, contains_iff xs k, contains_iff ys k)

  pub contains-append :
      (xs ys : List K) (k : K) → contains (xs ++ ys) k ≡ (contains xs k || contains ys k)
  unfolding contains
  contains-append [] ys k = refl
  contains-append (x ∷ xs) ys k = ground (arith, contains-append xs ys k)

module _ {A K : Type 0} ⦃e : Eq K⦄ (key : A → K) where
  -- `seen` holds the keys met so far.
  unique_from : List K → List A → List A
  unique_from seen [] = []
  unique_from seen (x ∷ xs) = elim (contains seen (key x)) [
    | true ↦ unique_from seen xs
    | false ↦ x ∷ unique_from (key x ∷ seen) xs
  ]

  unfoldable pub unique_by : List A → List A
  unfolding unique_from contains
  unique_by xs = unique_from [] xs

  unique_from_old :
      (seen : List K) (x : A) (xs : List A)
      → contains seen (key x) ≡ true
      → unique_from seen (x ∷ xs) ≡ unique_from seen xs
  unfolding unique_from
  unique_from_old seen x xs h = ground arith

  unique_from_new :
      (seen : List K) (x : A) (xs : List A)
      → contains seen (key x) ≡ false
      → unique_from seen (x ∷ xs) ≡ x ∷ unique_from (key x ∷ seen) xs
  unfolding unique_from
  unique_from_new seen x xs h = ground arith

  unique_from-Subseq : (seen : List K) (xs : List A) → Subseq (unique_from seen xs) xs
  unique_from-Subseq seen [] = unfold unique_from in refl
  unique_from-Subseq seen (x ∷ xs) = elim (Bool-cases (contains seen (key x))) [
    | inl old ↦ rw (unique_from_old seen x xs old) (inl (unique_from-Subseq seen xs))
    | inr new ↦
        rw (unique_from_new seen x xs new)
          (inr (unique_from (key x ∷ seen) xs, refl, unique_from-Subseq (key x ∷ seen) xs))
  ]

  -- No key of the result is among the keys seen before.
  unique_from-fresh :
      (seen : List K) (xs : List A) (k : K) → Elem k (map key (unique_from seen xs)) → ¬ Elem k seen
  unique_from-fresh seen [] k h s = absurd (unfold unique_from in h)
  unique_from-fresh seen (x ∷ xs) k h s = elim (Bool-cases (contains seen (key x))) [
    | inl old ↦
        unique_from-fresh seen xs k
          (subst (λ l. Elem k (map key l)) (unique_from_old seen x xs old) h) s
    | inr new ↦
        split (subst (λ l. Elem k (map key l)) (unique_from_new seen x xs new) h) new
          (λ i. unique_from-fresh (key x ∷ seen) xs k i (inr s))
  ]
    where
      split :
          Elem k (key x ∷ map key (unique_from (key x ∷ seen) xs))
          → contains seen (key x) ≡ false
          → (Elem k (map key (unique_from (key x ∷ seen) xs)) → ⊥)
          → ⊥
      split (inl q) new f =
          let found = (contains_iff seen (key x)).1 (subst (λ z. Elem z seen) q s) in cc
      split (inr i) new f = f i

  unique_from-Distinct : (seen : List K) (xs : List A) → Distinct (map key (unique_from seen xs))
  unique_from-Distinct seen [] = unfold unique_from in tt
  unique_from-Distinct seen (x ∷ xs) = elim (Bool-cases (contains seen (key x))) [
    | inl old ↦ rw (unique_from_old seen x xs old) (unique_from-Distinct seen xs)
    | inr new ↦ rw (unique_from_new seen x xs new) (
      (λ h. unique_from-fresh (key x ∷ seen) xs (key x) h (inl refl)),
      unique_from-Distinct (key x ∷ seen) xs,
    )
  ]

  -- Every element is in the result, or its key has been seen or stands in the result.
  unique_from-covers :
      (seen : List K) (xs : List A) (k : K)
      → Elem k (map key xs)
      → Elem k seen ⊎ Elem k (map key (unique_from seen xs))
  unique_from-covers seen [] k h = absurd h
  unique_from-covers seen (x ∷ xs) k h = elim (Bool-cases (contains seen (key x))) [
    | inl old ↦
        rw (unique_from_old seen x xs old)
          (known h ((contains_iff seen (key x)).0 old) (unique_from-covers seen xs k))
    | inr new ↦
        rw (unique_from_new seen x xs new) (fresh h (unique_from-covers (key x ∷ seen) xs k))
  ]
    where
      known :
          Elem k (map key (x ∷ xs))
          → Elem (key x) seen
          → (Elem k (map key xs) → Elem k seen ⊎ Elem k (map key (unique_from seen xs)))
          → Elem k seen ⊎ Elem k (map key (unique_from seen xs))
      known (inl q) s f = inl (subst (λ z. Elem z seen) (sym q) s)
      known (inr i) s f = f i

      fresh :
          Elem k (map key (x ∷ xs))
          → (Elem k (map key xs)
              → Elem k (key x ∷ seen) ⊎ Elem k (map key (unique_from (key x ∷ seen) xs)))
          → Elem k seen ⊎ Elem k (key x ∷ map key (unique_from (key x ∷ seen) xs))
      fresh (inl q) f = inr (inl q)
      fresh (inr i) f = elim (f i) [
        | inl (inl q) ↦ inr (inl q)
        | inl (inr s) ↦ inl s
        | inr j ↦ inr (inr j)
      ]

  pub unique_by-Subseq : (xs : List A) → Subseq (unique_by xs) xs
  unfolding unique_by
  unique_by-Subseq xs = unique_from-Subseq [] xs

  pub unique_by-Distinct : (xs : List A) → Distinct (map key (unique_by xs))
  unfolding unique_by
  unique_by-Distinct xs = unique_from-Distinct [] xs

  pub unique_by-covers :
      (xs : List A) (k : K) → Elem k (map key xs) → Elem k (map key (unique_by xs))
  unfolding unique_by
  unique_by-covers xs k h = elim (unique_from-covers [] xs k h) [
    | inl none_seen ↦ absurd none_seen
    | inr i ↦ i
  ]

  unique_from_id :
      (seen : List K) (xs : List A)
      → Distinct (map key xs)
      → ((k : K) → Elem k (map key xs) → ¬ Elem k seen)
      → unique_from seen xs ≡ xs
  unique_from_id seen [] d h = unfold unique_from in refl
  unique_from_id seen (x ∷ xs) d h =
      unique_from_new seen x xs (ground (arith, contains_iff seen (key x), h (key x) (inl refl)))
      ∙ ap (◌∷◌ x)
          (unique_from_id (key x ∷ seen) xs d.1 (λ k i s. unseen k i s (d.0) (h k (inr i))))
    where
      unseen :
          (k : K)
          → Elem k (map key xs)
          → Elem k (key x ∷ seen)
          → ¬ Elem (key x) (map key xs)
          → ¬ Elem k seen
          → ⊥
      unseen k i (inl q) n m = n (subst (λ z. Elem z (map key xs)) q i)
      unseen k i (inr s) n m = m s

  -- A list whose keys are distinct is left as it is.
  pub unique_by_id : (xs : List A) → Distinct (map key xs) → unique_by xs ≡ xs
  unfolding unique_by
  unique_by_id xs d = unique_from_id [] xs d (λ k i s. s)

  contains_old :
      (seen keys : List K) (j k : K)
      → contains seen j ≡ true
      → contains (j ∷ (keys ++ seen)) k ≡ contains (keys ++ seen) k
  contains_old seen keys j k old = contains_ext (j ∷ (keys ++ seen)) (keys ++ seen) k drop_old inr
    where
      drop_old : Elem k (j ∷ (keys ++ seen)) → Elem k (keys ++ seen)
      drop_old (inl q) =
          Elem-append_right k keys seen
            (subst (λ z. Elem z seen) (sym q) ((contains_iff seen j).0 old))
      drop_old (inr i) = i

  contains_middle :
      (seen keys : List K) (j k : K)
      → contains (keys ++ (j ∷ seen)) k ≡ contains (j ∷ (keys ++ seen)) k
  contains_middle seen keys j k = contains_ext (keys ++ (j ∷ seen)) (j ∷ (keys ++ seen)) k to from
    where
      to : Elem k (keys ++ (j ∷ seen)) → Elem k (j ∷ (keys ++ seen))
      to i = elim (Elem-append-cases k keys (j ∷ seen) i) [
        | inl l ↦ inr (Elem-append_left k keys seen l)
        | inr (inl q) ↦ inl q
        | inr (inr r) ↦ inr (Elem-append_right k keys seen r)
      ]

      from : Elem k (j ∷ (keys ++ seen)) → Elem k (keys ++ (j ∷ seen))
      from (inl q) = Elem-append_right k keys (j ∷ seen) (inl q)
      from (inr i) = elim (Elem-append-cases k keys seen i) [
        | inl l ↦ Elem-append_left k keys (j ∷ seen) l
        | inr r ↦ Elem-append_right k keys (j ∷ seen) (inr r)
      ]

  -- An element at the end is appended if its key is new.
  unique_from_snoc :
      (seen : List K) (xs : List A) (x : A)
      → unique_from seen (xs ++ (x ∷ []))
        ≡ unique_from seen xs
          ++ elim (contains (map key xs ++ seen) (key x)) [ true ↦ [] | false ↦ x ∷ [] ]
  unfolding unique_from
  unique_from_snoc seen [] x = ground arith
  unique_from_snoc seen (y ∷ xs) x = ground (
    arith,
    unique_from_snoc seen xs x,
    unique_from_snoc (key y ∷ seen) xs x,
    contains_old seen (map key xs) (key y) (key x),
    contains_middle seen (map key xs) (key y) (key x),
  )
