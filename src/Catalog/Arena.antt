-- ===== src/Catalog/Arena.antt =====
-- crates/ducklake/src/catalog/arena.rs: an append-only vector of entities with an index by ID.
use ducklake_sdk.Common.{
  ℕ, zero, suc, ◌<◌, ◌≡◌, refl, List, [], ◌∷◌, ◌++◌, Option, none, some, arith, length, get_elem?,
  set, if◌then◌else◌, nat_beq, nat_beq_iff, Bool-cases, inl, inr, ◌∙◌, ap, sym, ◌⊎◌, subst,
  get_elem?-set, get_elem?-set_ne,
}
use ducklake_sdk.Common.Int.{ℤ, ℤ_beq, ℤ_beq_iff}

-- `HashMap<i64, ArenaIdx>`.
abbrev pub Index : Type 0
Index = List (ℤ × ℕ)

-- `HashMap::get` and `HashMap::insert`.
unfoldable pub find : Index → ℤ → Option ℕ
find [] id = none
find ((k, i) ∷ index) id = if ℤ_beq k id then some i else find index id

unfoldable pub put : Index → ℤ → ℕ → Index
put [] id idx = (id, idx) ∷ []
put ((k, i) ∷ index) id idx = if ℤ_beq k id then (id, idx) ∷ index else (k, i) ∷ put index id idx

pub find-put :
    (index : Index) (id : ℤ) (idx : ℕ) (j : ℤ)
    → find (put index id idx) j ≡ (if ℤ_beq id j then some idx else find index j)
unfolding find put
find-put [] id idx j = refl
find-put ((k, i) ∷ index) id idx j =
    ground (arith, ℤ_beq_iff k id, ℤ_beq_iff id j, ℤ_beq_iff k j, find-put index id idx j)

-- `Arena`.
pub record Arena (T : Type 0) : Type 0 where
  pub arena : List T
  pub by_id : Index

module _ {T : Type 0} where
  -- `Arena::new`.
  unfoldable pub new : Arena T
  new = record { arena = []; by_id = [] }

  -- `Arena::push`: the arena and the index of the new entity.
  unfoldable pub push : Arena T → T → Option ℤ → Arena T × ℕ
  push a entity none = (record a { arena = a.arena ++ (entity ∷ []) }, length a.arena)
  push a entity (some id) = (
    record { arena = a.arena ++ (entity ∷ []); by_id = put a.by_id id (length a.arena) },
    length a.arena,
  )

  -- `Arena::register_id`.
  unfoldable pub register_id : Arena T → ℕ → ℤ → Arena T
  register_id a idx id = record a { by_id = put a.by_id id idx }

  -- `Arena::map_id`.
  unfoldable pub map_id : Arena T → ℤ → Option ℕ
  map_id a id = find a.by_id id

  -- `Arena::get`: no index is out of bounds; where one were, `none` stands for the panic.
  unfoldable pub get : Arena T → ℕ → Option T
  get a idx = get_elem? a.arena idx

  -- A write through `Arena::get_mut`.
  unfoldable pub set_entity : Arena T → ℕ → T → Arena T
  set_entity a idx entity = record a { arena = set a.arena idx entity }

  -- Every ID leads to an entity.
  pub record IsIndexed (a : Arena T) : Type 0 where
    pub in_bounds : (id : ℤ) (idx : ℕ) → find a.by_id id ≡ some idx → idx < length a.arena

  pub get_elem?-append :
      (xs : List T) (x : T) (i : ℕ)
      → get_elem? (xs ++ (x ∷ [])) i ≡ (if nat_beq (length xs) i then some x else get_elem? xs i)
  get_elem?-append [] x zero = refl
  get_elem?-append [] x (suc i) = ground arith
  get_elem?-append (y ∷ xs) x zero = ground arith
  get_elem?-append (y ∷ xs) x (suc i) = get_elem?-append xs x i ∙ ground arith

  -- A pushed entity is found at the index returned, and the others where they were.
  pub get-push :
      (a : Arena T) (x : T) (i : ℕ)
      → get ((push a x none).0) i ≡ (if nat_beq ((push a x none).1) i then some x else get a i)
  unfolding get push
  get-push a x i = get_elem?-append a.arena x i

  get_elem?-length : (xs : List T) → get_elem? xs (length xs) ≡ none
  get_elem?-length [] = refl
  get_elem?-length (x ∷ xs) = get_elem?-length xs

  -- Nothing stands where the next entity will.
  pub get-next : (a : Arena T) (x : T) → get a ((push a x none).1) ≡ none
  unfolding get push
  get-next a x = get_elem?-length a.arena

  -- An entity that is written over is found, and the others as they were.
  pub get-set_entity :
      (a : Arena T) (i : ℕ) (x y : T) (j : ℕ)
      → get a i ≡ some y
      → get (set_entity a i x) j ≡ (if nat_beq i j then some x else get a j)
  unfolding get set_entity
  get-set_entity a i x y j h = elim (Bool-cases (nat_beq i j)) [
    | inl e ↦ rw e (
        subst (λ k. get_elem? (set a.arena i x) k ≡ some x) ((nat_beq_iff i j).0 e)
          (get_elem?-set a.arena i x y h))
    | inr e ↦ rw e (get_elem?-set_ne a.arena i j x (λ k. ground arith))
  ]

module _ {T : Type 0} where
  -- What stands after a push was pushed or stood before.
  pub push-cases :
      (a : Arena T) (x : T) (i : ℕ) (t : T)
      → get ((push a x none).0) i ≡ some t
      → (x ≡ t) ⊎ (get a i ≡ some t)
  push-cases a x i t h =
      let s = sym (get-push a x i) ∙ h in
      elim (Bool-cases (nat_beq ((push a x none).1) i)) [
        | inl b ↦ inl (same (ap (λ z. if z then some x else get a i) (sym b) ∙ s))
        | inr b ↦ inr (ap (λ z. if z then some x else get a i) (sym b) ∙ s)
      ]
    where
      same : {a b : T} → some a ≡ some b → a ≡ b
      same h = cc

  -- What stands after a write was written or stood before.
  pub set_entity-cases :
      (a : Arena T) (j : ℕ) (x y : T) (i : ℕ) (t : T)
      → get a j ≡ some y
      → get (set_entity a j x) i ≡ some t
      → (x ≡ t) ⊎ (get a i ≡ some t)
  set_entity-cases a j x y i t k h =
      let s = sym (get-set_entity a j x y i k) ∙ h in
      elim (Bool-cases (nat_beq j i)) [
        | inl b ↦ inl (same (ap (λ z. if z then some x else get a i) (sym b) ∙ s))
        | inr b ↦ inr (ap (λ z. if z then some x else get a i) (sym b) ∙ s)
      ]
    where
      same : {a b : T} → some a ≡ some b → a ≡ b
      same h = cc

-- `HashMap::remove`.
unfoldable pub erase : Index → ℤ → Index
erase [] id = []
erase ((k, i) ∷ index) id = let rest = erase index id in if ℤ_beq k id then rest else (k, i) ∷ rest

pub find-erase :
    (index : Index) (id j : ℤ)
    → find (erase index id) j ≡ (if ℤ_beq id j then none else find index j)
unfolding find erase
find-erase [] id j = ground arith
find-erase ((k, i) ∷ index) id j =
    ground (arith, ℤ_beq_iff k id, ℤ_beq_iff id j, ℤ_beq_iff k j, find-erase index id j)
