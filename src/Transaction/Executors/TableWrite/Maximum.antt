-- ===== src/Transaction/Executors/TableWrite/Maximum.antt =====
-- The maxima of columns over the files that are written.
use ducklake_sdk.Common.{
  ◌≡◌, refl, sym, ap, ◌∙◌, subst, ◌⊎◌, inl, inr, List, [], ◌∷◌, Option, none, some, Elem,
}
use ducklake_sdk.Caches.TableStats.{
  Ordering, less, equal, greater, ColumnStats, max_of, upper_of, update_max_value,
}
use ducklake_sdk.Transaction.Executors.TableWrite.Order.{TotalOrder}
use ducklake_sdk.Common.Options.{some_inj}

module _ {V : Type 0} (order : TotalOrder V) where
  open order use {partial_cmp, Le, Le-refl, Le-trans, cmp_total, cmp_less, cmp_equal, cmp_greater}

  -- The column after files with the given maxima, of which some are not known.
  abbrev pub max_after : ColumnStats V → List (Option V) → ColumnStats V
  max_after column [] = column
  max_after column (v ∷ values) = max_after (update_max_value partial_cmp column v) values

  -- `m` is one of the known values, and a bound of them.
  abbrev pub IsMax : List (Option V) → V → Type 0
  IsMax values m = (Elem (some m) values) × ((v : V) → Elem (some v) values → Le v m)

  max_of-cases :
      (a b : V)
      → ((max_of partial_cmp (some a) (some b) ≡ some a) × (Le b a))
        ⊎ ((max_of partial_cmp (some a) (some b) ≡ some b) × (Le a b))
  max_of-cases a b = let (o, e) = cmp_total a b in go o e
    where
      go :
          (o : Ordering)
          → partial_cmp a b ≡ some o
          → ((max_of partial_cmp (some a) (some b) ≡ some a) × (Le b a))
            ⊎ ((max_of partial_cmp (some a) (some b) ≡ some b) × (Le a b))
      go less e = inr (ap (upper_of a b) e, cmp_less a b e)
      go equal e = inl (ap (upper_of a b) e, (cmp_equal a b e).1)
      go greater e = inl (ap (upper_of a b) e, cmp_greater a b e)

  -- Folding one more value into the bound keeps its meaning.
  IsMax-step :
      (a b c : V) (values : List (Option V)) (m : V)
      → max_of partial_cmp (some a) (some b) ≡ some c
      → IsMax (some c ∷ values) m
      → IsMax (some a ∷ some b ∷ values) m
  IsMax-step a b c values m h (i, b_) = elim (max_of-cases a b) [
    | inl (e, l) ↦ keep_old (some_inj a c (sym e ∙ h)) l
    | inr (e, l) ↦ keep_new (some_inj b c (sym e ∙ h)) l
  ]
    where
      place_old : a ≡ c → Elem (some m) (some c ∷ values) → Elem (some m) (some a ∷ some b ∷ values)
      place_old q (inl e) = inl (e ∙ ap some (sym q))
      place_old q (inr j) = inr (inr j)

      place_new : b ≡ c → Elem (some m) (some c ∷ values) → Elem (some m) (some a ∷ some b ∷ values)
      place_new q (inl e) = inr (inl (e ∙ ap some (sym q)))
      place_new q (inr j) = inr (inr j)

      -- Both old values are bounded by `m`.
      bounds : (Le a c) → (Le b c) → (v : V) → Elem (some v) (some a ∷ some b ∷ values) → Le v m
      bounds ca cb v (inl e) =
          subst (λ z. Le z m) (sym (some_inj v a e)) (Le-trans a c m ca (b_ c (inl refl)))
      bounds ca cb v (inr (inl e)) =
          subst (λ z. Le z m) (sym (some_inj v b e)) (Le-trans b c m cb (b_ c (inl refl)))
      bounds ca cb v (inr (inr j)) = b_ v (inr j)

      keep_old : a ≡ c → Le b a → IsMax (some a ∷ some b ∷ values) m
      keep_old q l =
          (place_old q i, bounds (subst (λ z. Le a z) q (Le-refl a)) (subst (λ z. Le b z) q l))

      keep_new : b ≡ c → Le a b → IsMax (some a ∷ some b ∷ values) m
      keep_new q l =
          (place_new q i, bounds (subst (λ z. Le a z) q l) (subst (λ z. Le b z) q (Le-refl b)))

  IsMax-none_first :
      (a : Option V) (values : List (Option V)) (m : V)
      → IsMax (a ∷ values) m
      → IsMax (none ∷ a ∷ values) m
  IsMax-none_first a values m (i, b) = (inr i, bounds)
    where
      bounds : (v : V) → Elem (some v) (none ∷ a ∷ values) → Le v m
      bounds v (inl e) = cc
      bounds v (inr j) = b v j

  IsMax-none_second :
      (a : V) (values : List (Option V)) (m : V)
      → IsMax (some a ∷ values) m
      → IsMax (some a ∷ none ∷ values) m
  IsMax-none_second a values m (i, b) = (place i, bounds)
    where
      place : Elem (some m) (some a ∷ values) → Elem (some m) (some a ∷ none ∷ values)
      place (inl e) = inl e
      place (inr j) = inr (inr j)

      bounds : (v : V) → Elem (some v) (some a ∷ none ∷ values) → Le v m
      bounds v (inl e) = b v (inl e)
      bounds v (inr (inl e)) = cc
      bounds v (inr (inr j)) = b v (inr j)

  -- What the upper bound means after the files: none of the bounds is known, or it is one of them
  -- and bounds them all.
  abbrev pub UpperBound : List (Option V) → Option V → Type 0
  UpperBound values r =
      ((r ≡ none) × ((v : V) → ¬ Elem (some v) values)) ⊎ ((m : V) × (r ≡ some m) × IsMax values m)

  max_bound :
      (current : Option V) (column : ColumnStats V) (values : List (Option V))
      → column.max_value ≡ current
      → UpperBound (current ∷ values) (max_after column values).max_value
  unfolding update_max_value
  max_bound none column [] h = inl (h, λ v i. nothing v i)
    where
      nothing : (v : V) → ¬ Elem (some v) (none ∷ [])
      nothing v (inl e) = cc
      nothing v (inr i) = absurd i
  max_bound (some a) column [] h = inr (a, h, (inl refl, λ v i. itself v i))
    where
      itself : (v : V) → Elem (some v) (some a ∷ []) → Le v a
      itself v (inl e) = subst (λ z. Le z a) (sym (some_inj v a e)) (Le-refl a)
      itself v (inr i) = absurd i
  max_bound none column (v ∷ values) h = lift (
      max_bound v (update_max_value partial_cmp column v) values
        (ap (λ z. max_of partial_cmp z v) h ∙ from_none v))
    where
      from_none : (v : Option V) → max_of partial_cmp none v ≡ v
      from_none v = refl

      lift : {r : Option V} → UpperBound (v ∷ values) r → UpperBound (none ∷ v ∷ values) r
      lift (inl (e, f)) = inl (e, λ w i. skip w f i)
        where
          skip :
              (w : V)
              → ((u : V) → ¬ Elem (some u) (v ∷ values))
              → ¬ Elem (some w) (none ∷ v ∷ values)
          skip w f (inl q) = cc
          skip w f (inr i) = f w i
      lift (inr (m, e, k)) = inr (m, e, IsMax-none_first v values m k)
  max_bound (some a) column (none ∷ values) h = lift (
      max_bound (some a) (update_max_value partial_cmp column none) values
        (ap (λ z. max_of partial_cmp z none) h))
    where
      lift : {r : Option V} → UpperBound (some a ∷ values) r → UpperBound (some a ∷ none ∷ values) r
      lift (inl (e, f)) = absurd (f a (inl refl))
      lift (inr (m, e, k)) = inr (m, e, IsMax-none_second a values m k)
  max_bound (some a) column (some b ∷ values) h =
      let (c, e) = compared (max_of-cases a b) in
      lift c e (
        max_bound (some c) (update_max_value partial_cmp column (some b)) values
          (ap (λ z. max_of partial_cmp z (some b)) h ∙ e))
    where
      compared :
          ((max_of partial_cmp (some a) (some b) ≡ some a) × (Le b a))
            ⊎ ((max_of partial_cmp (some a) (some b) ≡ some b) × (Le a b))
          → (c : V) × (max_of partial_cmp (some a) (some b) ≡ some c)
      compared (inl (e, l)) = (a, e)
      compared (inr (e, l)) = (b, e)

      lift :
          {r : Option V} (c : V)
          → max_of partial_cmp (some a) (some b) ≡ some c
          → UpperBound (some c ∷ values) r
          → UpperBound (some a ∷ some b ∷ values) r
      lift c e (inl (q, f)) = absurd (f c (inl refl))
      lift c e (inr (m, q, k)) = inr (m, q, IsMax-step a b c values m e k)

  -- Over the files with the given maxima, the upper bound of a column stays unknown if none was known
  -- before and none of theirs is; otherwise it is one of the known values and bounds them all. This
  -- holds where any two values can be compared.
  pub update_max_value-UpperBound :
      (column : ColumnStats V) (values : List (Option V))
      → UpperBound (column.max_value ∷ values) (max_after column values).max_value
  update_max_value-UpperBound column values = max_bound column.max_value column values refl
