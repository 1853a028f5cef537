-- ===== src/Transaction/Executors/TableWrite/Minimum.antt =====
-- The minima of columns over the files that are written.
use ducklake_sdk.Common.{
  ◌≡◌, refl, sym, ap, ◌∙◌, subst, ◌⊎◌, inl, inr, List, [], ◌∷◌, Option, none, some, Elem,
}
use ducklake_sdk.Caches.TableStats.{
  Ordering, less, equal, greater, ColumnStats, min_of, lower_of, update_min_value,
}
use ducklake_sdk.Transaction.Executors.TableWrite.Order.{TotalOrder}
use ducklake_sdk.Common.Options.{some_inj}

module _ {V : Type 0} (order : TotalOrder V) where
  open order use {partial_cmp, Le, Le-refl, Le-trans, cmp_total, cmp_less, cmp_equal, cmp_greater}

  -- The column after files with the given minima, of which some are not known.
  abbrev pub min_after : ColumnStats V → List (Option V) → ColumnStats V
  min_after column [] = column
  min_after column (v ∷ values) = min_after (update_min_value partial_cmp column v) values

  -- `m` is one of the known values, and a bound of them.
  abbrev pub IsMin : List (Option V) → V → Type 0
  IsMin values m = (Elem (some m) values) × ((v : V) → Elem (some v) values → Le m v)

  min_of-cases :
      (a b : V)
      → ((min_of partial_cmp (some a) (some b) ≡ some a) × (Le a b))
        ⊎ ((min_of partial_cmp (some a) (some b) ≡ some b) × (Le b a))
  min_of-cases a b = let (o, e) = cmp_total a b in go o e
    where
      go :
          (o : Ordering)
          → partial_cmp a b ≡ some o
          → ((min_of partial_cmp (some a) (some b) ≡ some a) × (Le a b))
            ⊎ ((min_of partial_cmp (some a) (some b) ≡ some b) × (Le b a))
      go less e = inl (ap (lower_of a b) e, cmp_less a b e)
      go equal e = inl (ap (lower_of a b) e, (cmp_equal a b e).0)
      go greater e = inr (ap (lower_of a b) e, cmp_greater a b e)

  -- Folding one more value into the bound keeps its meaning.
  IsMin-step :
      (a b c : V) (values : List (Option V)) (m : V)
      → min_of partial_cmp (some a) (some b) ≡ some c
      → IsMin (some c ∷ values) m
      → IsMin (some a ∷ some b ∷ values) m
  IsMin-step a b c values m h (i, b_) = elim (min_of-cases a b) [
    | inl (e, l) ↦ keep_old (some_inj a c (sym e ∙ h)) l
    | inr (e, l) ↦ keep_new (some_inj b c (sym e ∙ h)) l
  ]
    where
      place_old : a ≡ c → Elem (some m) (some c ∷ values) → Elem (some m) (some a ∷ some b ∷ values)
      place_old q (inl e) = inl (e ∙ ap some (sym q))
      place_old q (inr j) = inr (inr j)

      place_new : b ≡ c → Elem (some m) (some c ∷ values) → Elem (some m) (some a ∷ some b ∷ values)
      place_new q (inl e) = inr (inl (e ∙ ap some (sym q)))
      place_new q (inr j) = inr (inr j)

      -- Both old values are bounded by `m`.
      bounds : (Le c a) → (Le c b) → (v : V) → Elem (some v) (some a ∷ some b ∷ values) → Le m v
      bounds ca cb v (inl e) =
          subst (λ z. Le m z) (sym (some_inj v a e)) (Le-trans m c a (b_ c (inl refl)) ca)
      bounds ca cb v (inr (inl e)) =
          subst (λ z. Le m z) (sym (some_inj v b e)) (Le-trans m c b (b_ c (inl refl)) cb)
      bounds ca cb v (inr (inr j)) = b_ v (inr j)

      keep_old : a ≡ c → Le a b → IsMin (some a ∷ some b ∷ values) m
      keep_old q l =
          (place_old q i, bounds (subst (λ z. Le z a) q (Le-refl a)) (subst (λ z. Le z b) q l))

      keep_new : b ≡ c → Le b a → IsMin (some a ∷ some b ∷ values) m
      keep_new q l =
          (place_new q i, bounds (subst (λ z. Le z a) q l) (subst (λ z. Le z b) q (Le-refl b)))

  IsMin-none_first :
      (a : Option V) (values : List (Option V)) (m : V)
      → IsMin (a ∷ values) m
      → IsMin (none ∷ a ∷ values) m
  IsMin-none_first a values m (i, b) = (inr i, bounds)
    where
      bounds : (v : V) → Elem (some v) (none ∷ a ∷ values) → Le m v
      bounds v (inl e) = cc
      bounds v (inr j) = b v j

  IsMin-none_second :
      (a : V) (values : List (Option V)) (m : V)
      → IsMin (some a ∷ values) m
      → IsMin (some a ∷ none ∷ values) m
  IsMin-none_second a values m (i, b) = (place i, bounds)
    where
      place : Elem (some m) (some a ∷ values) → Elem (some m) (some a ∷ none ∷ values)
      place (inl e) = inl e
      place (inr j) = inr (inr j)

      bounds : (v : V) → Elem (some v) (some a ∷ none ∷ values) → Le m v
      bounds v (inl e) = b v (inl e)
      bounds v (inr (inl e)) = cc
      bounds v (inr (inr j)) = b v (inr j)

  -- What the lower bound means after the files: none of the bounds is known, or it is one of them
  -- and bounds them all.
  abbrev pub LowerBound : List (Option V) → Option V → Type 0
  LowerBound values r =
      ((r ≡ none) × ((v : V) → ¬ Elem (some v) values)) ⊎ ((m : V) × (r ≡ some m) × IsMin values m)

  min_bound :
      (current : Option V) (column : ColumnStats V) (values : List (Option V))
      → column.min_value ≡ current
      → LowerBound (current ∷ values) (min_after column values).min_value
  unfolding update_min_value
  min_bound none column [] h = inl (h, λ v i. nothing v i)
    where
      nothing : (v : V) → ¬ Elem (some v) (none ∷ [])
      nothing v (inl e) = cc
      nothing v (inr i) = absurd i
  min_bound (some a) column [] h = inr (a, h, (inl refl, λ v i. itself v i))
    where
      itself : (v : V) → Elem (some v) (some a ∷ []) → Le a v
      itself v (inl e) = subst (λ z. Le a z) (sym (some_inj v a e)) (Le-refl a)
      itself v (inr i) = absurd i
  min_bound none column (v ∷ values) h = lift (
      min_bound v (update_min_value partial_cmp column v) values
        (ap (λ z. min_of partial_cmp z v) h ∙ from_none v))
    where
      from_none : (v : Option V) → min_of partial_cmp none v ≡ v
      from_none v = refl

      lift : {r : Option V} → LowerBound (v ∷ values) r → LowerBound (none ∷ v ∷ values) r
      lift (inl (e, f)) = inl (e, λ w i. skip w f i)
        where
          skip :
              (w : V)
              → ((u : V) → ¬ Elem (some u) (v ∷ values))
              → ¬ Elem (some w) (none ∷ v ∷ values)
          skip w f (inl q) = cc
          skip w f (inr i) = f w i
      lift (inr (m, e, k)) = inr (m, e, IsMin-none_first v values m k)
  min_bound (some a) column (none ∷ values) h = lift (
      min_bound (some a) (update_min_value partial_cmp column none) values
        (ap (λ z. min_of partial_cmp z none) h))
    where
      lift : {r : Option V} → LowerBound (some a ∷ values) r → LowerBound (some a ∷ none ∷ values) r
      lift (inl (e, f)) = absurd (f a (inl refl))
      lift (inr (m, e, k)) = inr (m, e, IsMin-none_second a values m k)
  min_bound (some a) column (some b ∷ values) h =
      let (c, e) = compared (min_of-cases a b) in
      lift c e (
        min_bound (some c) (update_min_value partial_cmp column (some b)) values
          (ap (λ z. min_of partial_cmp z (some b)) h ∙ e))
    where
      compared :
          ((min_of partial_cmp (some a) (some b) ≡ some a) × (Le a b))
            ⊎ ((min_of partial_cmp (some a) (some b) ≡ some b) × (Le b a))
          → (c : V) × (min_of partial_cmp (some a) (some b) ≡ some c)
      compared (inl (e, l)) = (a, e)
      compared (inr (e, l)) = (b, e)

      lift :
          {r : Option V} (c : V)
          → min_of partial_cmp (some a) (some b) ≡ some c
          → LowerBound (some c ∷ values) r
          → LowerBound (some a ∷ some b ∷ values) r
      lift c e (inl (q, f)) = absurd (f c (inl refl))
      lift c e (inr (m, q, k)) = inr (m, q, IsMin-step a b c values m e k)

  -- Over the files with the given minima, the lower bound of a column stays unknown if none was known
  -- before and none of theirs is; otherwise it is one of the known values and bounds them all. This
  -- holds where any two values can be compared.
  pub update_min_value-LowerBound :
      (column : ColumnStats V) (values : List (Option V))
      → LowerBound (column.min_value ∷ values) (min_after column values).min_value
  update_min_value-LowerBound column values = min_bound column.min_value column values refl
