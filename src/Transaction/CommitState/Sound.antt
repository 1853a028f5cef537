-- ===== src/Transaction/CommitState/Sound.antt =====
-- IDs stay below the counter and belong to one entity, whatever IDs are asked for.
use ducklake_sdk.Common.{
  ℕ, ◌≡◌, ap, sym, ◌∙◌, subst, ◌≢◌, ◌⊎◌, inl, inr, none, some, arith, get_elem?, set,
}
use ducklake_sdk.Common.Int.{ℤ, pos, add_i64}
use ducklake_sdk.Catalog.Arena.{Index, put}
use ducklake_sdk.Catalog.Entities.{ArenaIdx}
use ducklake_sdk.Transaction.CommitState.{CommitState}
use native.Mathlib.Decide.{ℕ_discrete}
use ducklake_sdk.Common.{get_elem?-set, get_elem?-set_ne}
use ducklake_sdk.Common.Int.{◌<ℤ◌, ◌+ℤ◌, IsI64, add_i64_exact, ℤ_beq_iff}
use ducklake_sdk.Catalog.Arena.{find, find-put}
use ducklake_sdk.Transaction.CommitState.Entity.{
  Kind, Kind-discrete, ids, index, id_for, known, fresh,
}
use ducklake_sdk.Transaction.CommitState.Resolve.{answered}
use ducklake_sdk.Transaction.CommitState.Ids.{has_id}

some_inj : (a b : ℤ) → some (some a) ≡ some (some b) → a ≡ b
some_inj a b h = ground arith

next_lt : (a b : ℤ) → IsI64 (b +ℤ pos 1) → a <ℤ b → a <ℤ add_i64 b (pos 1)
unfolding ◌+ℤ◌
next_lt a b h l = rw (add_i64_exact b (pos 1) h) (ground arith)

next_self : (a b : ℤ) → IsI64 (b +ℤ pos 1) → a ≡ b → a <ℤ add_i64 b (pos 1)
unfolding ◌+ℤ◌
next_self a b h l = rw (add_i64_exact b (pos 1) h) (ground arith)

find_new : (m : Index) (id : ℤ) (idx : ℕ) (i : ℤ) → i ≡ id → find (put m id idx) i ≡ some idx
find_new m id idx i e = ground (arith, find-put m id idx i, ℤ_beq_iff id i)

find_other : (m : Index) (id : ℤ) (idx : ℕ) (i : ℤ) → i ≢ id → find (put m id idx) i ≡ find m i
find_other m id idx i h = ground (arith, find-put m id idx i, ℤ_beq_iff id i)

module _ {V : Type 0} where
  -- Every ID is below the counter, belongs to one entity, and leads to it through the index.
  pub record IsSound (s : CommitState V) : Type 0 where
    pub below :
        (k : Kind) (idx : ArenaIdx) (id : ℤ)
        → get_elem? (ids k s.catalog) idx ≡ some (some id)
        → id <ℤ s.next_catalog_id
    pub unique :
        (k : Kind) (idx : ArenaIdx) (j : Kind) (jdx : ArenaIdx) (id : ℤ)
        → get_elem? (ids k s.catalog) idx ≡ some (some id)
        → get_elem? (ids j s.catalog) jdx ≡ some (some id)
        → (k ≡ j) × (idx ≡ jdx)
    pub indexed :
        (k : Kind) (idx : ArenaIdx) (id : ℤ)
        → get_elem? (ids k s.catalog) idx ≡ some (some id)
        → find (index k s.catalog) id ≡ some idx

  -- An ID after a new one was handed out is the new one, or stood there before.
  located :
      (k : Kind) (s t : CommitState V) (idx : ArenaIdx) (id : ℤ) (j : Kind) (jdx : ArenaIdx) (i : ℤ)
      → get_elem? (ids k s.catalog) idx ≡ some none
      → ids k t.catalog ≡ set (ids k s.catalog) idx (some id)
      → (j ≢ k → ids j t.catalog ≡ ids j s.catalog)
      → get_elem? (ids j t.catalog) jdx ≡ some (some i)
      → ((j ≡ k) × (jdx ≡ idx) × (i ≡ id)) ⊎ (get_elem? (ids j s.catalog) jdx ≡ some (some i))
  located k s t idx id j jdx i h g o f = elim (Kind-discrete j k) [
    | yes p ↦ elim (ℕ_discrete jdx idx) [
      | yes q ↦ inl (
        p,
        q,
        some_inj i id (
            sym (subst (λ z. get_elem? (ids z t.catalog) jdx ≡ some (some i)) p f)
            ∙ ap (λ l. get_elem? l jdx) g
            ∙ subst (λ z. get_elem? (set (ids k s.catalog) idx (some id)) z ≡ some (some id))
                (sym q) (get_elem?-set (ids k s.catalog) idx (some id) none h)),
      )
      | no n ↦ inr (
          subst (λ z. get_elem? (ids z s.catalog) jdx ≡ some (some i)) (sym p)
            (sym (get_elem?-set_ne (ids k s.catalog) idx jdx (some id) n)
              ∙ ap (λ l. get_elem? l jdx) (sym g)
              ∙ subst (λ z. get_elem? (ids z t.catalog) jdx ≡ some (some i)) p f))
    ]
    | no n ↦ inr (ap (λ l. get_elem? l jdx) (sym (o n)) ∙ f)
  ]

  lt_irrefl : (s : CommitState V) (i : ℤ) → i <ℤ s.next_catalog_id → i ≢ s.next_catalog_id
  lt_irrefl s i h e = ground arith

  -- A new ID below the range of `i64` keeps the invariant.
  fresh-IsSound :
      (k : Kind) (s t : CommitState V) (idx : ArenaIdx) (id : ℤ)
      → IsSound s
      → IsI64 (s.next_catalog_id +ℤ pos 1)
      → get_elem? (ids k s.catalog) idx ≡ some none
      → id ≡ s.next_catalog_id
      → t.next_catalog_id ≡ add_i64 s.next_catalog_id (pos 1)
      → ids k t.catalog ≡ set (ids k s.catalog) idx (some id)
      → index k t.catalog ≡ put (index k s.catalog) id idx
      → ((j : Kind)
          → j ≢ k
          → (ids j t.catalog ≡ ids j s.catalog) × (index j t.catalog ≡ index j s.catalog))
      → IsSound t
  fresh-IsSound k s t idx id sound h g e f l x o = record {
    below = λ j jdx i a. below_case i (locate j jdx i a) (λ b. sound.below j jdx i b);
    unique = λ j jdx m mdx i a b. unique_case j jdx m mdx i (locate j jdx i a) (locate m mdx i b);
    indexed = λ j jdx i a. indexed_case j jdx i (locate j jdx i a);
  }
    where
      locate :
          (j : Kind) (jdx : ArenaIdx) (i : ℤ)
          → get_elem? (ids j t.catalog) jdx ≡ some (some i)
          → ((j ≡ k) × (jdx ≡ idx) × (i ≡ id)) ⊎ (get_elem? (ids j s.catalog) jdx ≡ some (some i))
      locate j jdx i a = located k s t idx id j jdx i g l (λ n. (o j n).0) a

      below_case :
          (i : ℤ) {P Q R : Type 0}
          → (P × Q × (i ≡ id)) ⊎ R
          → (R → i <ℤ s.next_catalog_id)
          → i <ℤ t.next_catalog_id
      below_case i (inl (p, q, r)) b = rw (f) (next_self i s.next_catalog_id h (r ∙ e))
      below_case i (inr a) b = rw (f) (next_lt i s.next_catalog_id h (b a))

      unique_case :
          (j : Kind) (jdx : ArenaIdx) (m : Kind) (mdx : ArenaIdx) (i : ℤ)
          → ((j ≡ k) × (jdx ≡ idx) × (i ≡ id)) ⊎ (get_elem? (ids j s.catalog) jdx ≡ some (some i))
          → ((m ≡ k) × (mdx ≡ idx) × (i ≡ id)) ⊎ (get_elem? (ids m s.catalog) mdx ≡ some (some i))
          → (j ≡ m) × (jdx ≡ mdx)
      unique_case j jdx m mdx i (inl (p, q, r)) (inl (p', q', r')) = (p ∙ sym p', q ∙ sym q')
      unique_case j jdx m mdx i (inl (p, q, r)) (inr b) =
          absurd (lt_irrefl s i (sound.below m mdx i b) (r ∙ e))
      unique_case j jdx m mdx i (inr a) (inl (p, q, r)) =
          absurd (lt_irrefl s i (sound.below j jdx i a) (r ∙ e))
      unique_case j jdx m mdx i (inr a) (inr b) = sound.unique j jdx m mdx i a b

      indexed_case :
          (j : Kind) (jdx : ArenaIdx) (i : ℤ)
          → ((j ≡ k) × (jdx ≡ idx) × (i ≡ id)) ⊎ (get_elem? (ids j s.catalog) jdx ≡ some (some i))
          → find (index j t.catalog) i ≡ some jdx
      indexed_case j jdx i (inl (p, q, r)) =
          subst (λ z. find (index z t.catalog) i ≡ some jdx) (sym p)
            (ap (λ l. find l i) x ∙ find_new (index k s.catalog) id idx i r ∙ ap some (sym q))
      indexed_case j jdx i (inr a) = elim (Kind-discrete j k) [
        | yes p ↦
            subst (λ z. find (index z t.catalog) i ≡ some jdx) (sym p)
              (ap (λ l. find l i) x
                ∙ find_other (index k s.catalog) id idx i
                    (λ r. lt_irrefl s i (sound.below j jdx i a) (r ∙ e))
                ∙ subst (λ z. find (index z s.catalog) i ≡ some jdx) p (sound.indexed j jdx i a))
        | no n ↦ ap (λ l. find l i) (o j n).1 ∙ sound.indexed j jdx i a
      ]

  -- Asking for an ID keeps the invariant, as long as the counter does not leave the range of `i64`.
  pub id_for-IsSound :
      (k : Kind) (s t : CommitState V) (idx : ArenaIdx) (id : ℤ)
      → IsSound s
      → IsI64 (s.next_catalog_id +ℤ pos 1)
      → id_for k s idx ≡ some (id, t)
      → IsSound t
  id_for-IsSound k s t idx id sound h q = elim (answered k s t idx id q) [
    | known a e ↦ subst IsSound (sym e) sound
    | fresh g e f l x o ↦ fresh-IsSound k s t idx id sound h g e f l x o
  ]

  -- An ID that an entity has stays with it.
  id_stays :
      (k : Kind) (s t : CommitState V) (idx : ArenaIdx) (id : ℤ) (j : Kind) (jdx : ArenaIdx) (i : ℤ)
      → id_for k s idx ≡ some (id, t)
      → get_elem? (ids j s.catalog) jdx ≡ some (some i)
      → get_elem? (ids j t.catalog) jdx ≡ some (some i)
  id_stays k s t idx id j jdx i q a = elim (answered k s t idx id q) [
    | known b e ↦ ap (λ z. get_elem? (ids j z.catalog) jdx) e ∙ a
    | fresh g e f l x o ↦ elim (Kind-discrete j k) [
      | yes p ↦
          subst (λ z. get_elem? (ids z t.catalog) jdx ≡ some (some i)) (sym p)
            (ap (λ y. get_elem? y jdx) l
              ∙ get_elem?-set_ne (ids k s.catalog) idx jdx (some id) (λ r.
                clash (subst (λ z. get_elem? (ids z s.catalog) jdx ≡ some (some i)) p a) g r)
              ∙ subst (λ z. get_elem? (ids z s.catalog) jdx ≡ some (some i)) p a)
      | no n ↦ ap (λ y. get_elem? y jdx) (o j n).0 ∙ a
    ]
  ]
    where
      clash :
          get_elem? (ids k s.catalog) jdx ≡ some (some i)
          → get_elem? (ids k s.catalog) idx ≡ some none
          → jdx ≡ idx
          → ⊥
      clash b c r = let d = subst (λ z. get_elem? (ids k s.catalog) z ≡ some (some i)) r b in cc

  -- Two different entities that are asked for their IDs, one after the other, get different IDs, as
  -- long as the counter does not leave the range of `i64`.
  pub id_for-distinct :
      (k : Kind) (s t : CommitState V) (idx : ArenaIdx) (id : ℤ) (j : Kind) (u : CommitState V)
      (jdx : ArenaIdx) (other : ℤ)
      → IsSound s
      → IsI64 (s.next_catalog_id +ℤ pos 1)
      → IsI64 (t.next_catalog_id +ℤ pos 1)
      → ¬ ((k ≡ j) × (idx ≡ jdx))
      → id_for k s idx ≡ some (id, t)
      → id_for j t jdx ≡ some (other, u)
      → id ≢ other
  id_for-distinct k s t idx id j u jdx other sound h h' different q r e =
      let sound_u = id_for-IsSound j t u jdx other (id_for-IsSound k s t idx id sound h q) h' r in
      let old =
        id_stays j t u jdx other k idx id r (has_id k s t idx id (answered k s t idx id q)) in
      let fresh_one = has_id j t u jdx other (answered j t u jdx other r) in
      different (
        sound_u.unique k idx j jdx other
          (subst (λ z. get_elem? (ids k u.catalog) idx ≡ some (some z)) e old) fresh_one)
