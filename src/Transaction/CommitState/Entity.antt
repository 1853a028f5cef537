-- ===== src/Transaction/CommitState/Entity.antt =====
-- The four kinds of entities that have catalog IDs, seen through the IDs that their arenas hold.
use native.Mathlib.Decide.{ℕ_discrete}
use ducklake_sdk.Common.{
  ℕ, ◌≡◌, refl, ap, ◌≢◌, ◌⊎◌, inl, inr, List, [], ◌∷◌, map, Option, none, some, arith, get_elem?,
  set, Option-cases, zero, suc,
}
use ducklake_sdk.Common.Int.{ℤ, pos, add_i64}
use ducklake_sdk.Catalog.Arena.{Arena, Index, put, get, set_entity, register_id}
use ducklake_sdk.Catalog.Entities.{ArenaIdx, Catalog}
use ducklake_sdk.Transaction.CommitState.{
  CommitState, entity_id, catalog_id, schema_id, table_id, view_id, macro_id,
}

pub data Kind : Type 0 where
  schemas tables views macros : Kind

pub Kind-discrete : Discrete Kind
Kind-discrete = hlevel ℕ_discrete

module _ {V : Type 0} where
  -- The IDs in the arena of a kind, and the arena's index.
  abbrev pub ids : Kind → Catalog V → List (Option ℤ)
  ids schemas c = map (λ e. e.id) c.schema_arena.arena
  ids tables c = map (λ e. e.id) c.table_arena.arena
  ids views c = map (λ e. e.id) c.view_arena.arena
  ids macros c = map (λ e. e.id) c.macro_arena.arena

  abbrev pub index : Kind → Catalog V → Index
  index schemas c = c.schema_arena.by_id
  index tables c = c.table_arena.by_id
  index views c = c.view_arena.by_id
  index macros c = c.macro_arena.by_id

  -- The operation that asks for an ID of a kind.
  abbrev pub id_for : Kind → CommitState V → ArenaIdx → Option (ℤ × CommitState V)
  id_for schemas = schema_id
  id_for tables = table_id
  id_for views = view_id
  id_for macros = macro_id

  -- What the entity had before: an ID, which stays, or none, and then it gets the next one.
  pub data Answered (k : Kind) (s : CommitState V) (idx : ArenaIdx) (id : ℤ) (t : CommitState V)
      : Type 0 where
    known : get_elem? (ids k s.catalog) idx ≡ some (some id) → t ≡ s → Answered k s idx id t
    fresh :
        get_elem? (ids k s.catalog) idx ≡ some none
        → id ≡ s.next_catalog_id
        → t.next_catalog_id ≡ add_i64 s.next_catalog_id (pos 1)
        → ids k t.catalog ≡ set (ids k s.catalog) idx (some id)
        → index k t.catalog ≡ put (index k s.catalog) id idx
        → ((j : Kind)
            → j ≢ k
            → (ids j t.catalog ≡ ids j s.catalog) × (index j t.catalog ≡ index j s.catalog))
        → Answered k s idx id t

pub get_elem?-map :
    {A B : Type 0} (f : A → B) (xs : List A) (i : ℕ) (a : A)
    → get_elem? xs i ≡ some a
    → get_elem? (map f xs) i ≡ some (f a)
get_elem?-map f [] i a h = cc
get_elem?-map f (x ∷ xs) zero a h = ground arith
get_elem?-map f (x ∷ xs) (suc i) a h = get_elem?-map f xs i a h

pub map-set :
    {A B : Type 0} (f : A → B) (xs : List A) (i : ℕ) (a : A)
    → map f (set xs i a) ≡ set (map f xs) i (f a)
map-set f [] i a = refl
map-set f (x ∷ xs) zero a = refl
map-set f (x ∷ xs) (suc i) a = ap (◌∷◌ (f x)) (map-set f xs i a)

module _ {V T : Type 0} (arena_of : Catalog V → Arena T)
    (with_arena : Arena T → Catalog V → Catalog V) (id_of : T → Option ℤ)
    (with_id : ℤ → T → T) where
  -- The state after an entity has been given an ID.
  abbrev pub resolved : CommitState V → ArenaIdx → T → CommitState V
  resolved s idx e = record s {
    next_catalog_id = add_i64 s.next_catalog_id (pos 1);
    catalog =
        with_arena
          (register_id (set_entity (arena_of s.catalog) idx (with_id s.next_catalog_id e)) idx
            s.next_catalog_id)
          s.catalog;
  }

  pub entity_id-cases :
      (s t : CommitState V) (idx : ArenaIdx) (id : ℤ)
      → entity_id arena_of with_arena id_of with_id s idx ≡ some (id, t)
      → (e : T) × (get (arena_of s.catalog) idx ≡ some e)
        × (((id_of e ≡ some id) × (t ≡ s))
            ⊎ ((id_of e ≡ none) × (id ≡ s.next_catalog_id) × (t ≡ resolved s idx e)))
  unfolding catalog_id
  entity_id-cases s t idx id h = elim (Option-cases (get (arena_of s.catalog) idx)) [
    | inl e ↦ absurd (ground (arith, e, h))
    | inr (x, e) ↦ (
      x,
      e,
      elim (Option-cases (id_of x)) [
        | inl f ↦ inr (ground (arith, e, f, h))
        | inr (i, f) ↦ inl (ground (arith, e, f, h))
      ],
    )
  ]

  entity_id-known :
      (s : CommitState V) (idx : ArenaIdx) (e : T) (id : ℤ)
      → get (arena_of s.catalog) idx ≡ some e
      → id_of e ≡ some id
      → entity_id arena_of with_arena id_of with_id s idx ≡ some (id, s)
  unfolding catalog_id
  entity_id-known s idx e id h k = ground (arith, h, k)

  of_map :
      (xs : List T) (i : ℕ) (id : ℤ)
      → get_elem? (map id_of xs) i ≡ some (some id)
      → (e : T) × (get_elem? xs i ≡ some e) × (id_of e ≡ some id)
  of_map [] i id h = cc
  of_map (x ∷ xs) zero id h = (x, refl, ground arith)
  of_map (x ∷ xs) (suc i) id h = of_map xs i id h

  -- An ID that is there is the answer, and nothing changes.
  pub entity_id_again :
      (s : CommitState V) (idx : ArenaIdx) (id : ℤ)
      → get_elem? (map id_of (arena_of s.catalog).arena) idx ≡ some (some id)
      → entity_id arena_of with_arena id_of with_id s idx ≡ some (id, s)
  unfolding get
  entity_id_again s idx id h =
      let (e, f, g) = of_map (arena_of s.catalog).arena idx id h in entity_id-known s idx e id f g
