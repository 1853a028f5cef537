-- ===== src/Transaction/CommitState/Resolve.antt =====
-- Every request for an ID is answered in one of two ways.
use ducklake_sdk.Common.{◌≡◌, refl, ap, sym, ◌∙◌, ◌≢◌, inl, inr, some, set}
use ducklake_sdk.Common.Int.{ℤ}
use ducklake_sdk.Catalog.Arena.{Arena, put, get, set_entity, register_id}
use ducklake_sdk.Catalog.Entities.{ArenaIdx, Catalog}
use ducklake_sdk.Transaction.CommitState.{CommitState, schema_id, table_id, view_id, macro_id}
use ducklake_sdk.Catalog.Entities.{CatalogSchema, CatalogTable, CatalogView, CatalogMacro}
use ducklake_sdk.Transaction.CommitState.Entity.{
  Kind, schemas, tables, views, macros, ids, index, id_for, Answered, known, fresh, get_elem?-map,
  map-set, entity_id-cases,
}

module _ {V : Type 0} where
  others_schemas :
      (c : Catalog V) (a : Arena (CatalogSchema)) (j : Kind)
      → j ≢ schemas
      → (ids j (record c { schema_arena = a }) ≡ ids j c)
        × (index j (record c { schema_arena = a }) ≡ index j c)
  others_schemas c a schemas h = absurd (h refl)
  others_schemas c a tables h = (refl, refl)
  others_schemas c a views h = (refl, refl)
  others_schemas c a macros h = (refl, refl)

  Answered-schemas :
      (s t : CommitState V) (idx : ArenaIdx) (id : ℤ)
      → schema_id s idx ≡ some (id, t)
      → Answered schemas s idx id t
  unfolding schema_id set_entity register_id get
  Answered-schemas s t idx id h =
      let (x, e, cases) =
        entity_id-cases {T = CatalogSchema} (λ c. c.schema_arena)
          (λ a c. record c { schema_arena = a }) (λ e. e.id) (λ i e. record e { id = some i }) s t
          idx id h in
      elim cases [
        | inl (f, q) ↦
            known (get_elem?-map (λ y. y.id) s.catalog.schema_arena.arena idx x e ∙ ap some f) q
        | inr (f, g, q) ↦
            fresh (get_elem?-map (λ y. y.id) s.catalog.schema_arena.arena idx x e ∙ ap some f) g
              (ap (λ z. z.next_catalog_id) q)
              (ap (λ z. ids schemas z.catalog) q
                ∙ map-set (λ y. y.id) s.catalog.schema_arena.arena idx
                    (record x { id = some s.next_catalog_id })
                ∙ ap (λ i. set (ids schemas s.catalog) idx (some i)) (sym g))
              (ap (λ z. index schemas z.catalog) q
                ∙ ap (λ i. put (index schemas s.catalog) i idx) (sym g))
              (λ j ne.
                let (p, r) = others_schemas s.catalog _ j ne in
                (ap (λ z. ids j z.catalog) q ∙ p, ap (λ z. index j z.catalog) q ∙ r))
      ]

  others_tables :
      (c : Catalog V) (a : Arena (CatalogTable V)) (j : Kind)
      → j ≢ tables
      → (ids j (record c { table_arena = a }) ≡ ids j c)
        × (index j (record c { table_arena = a }) ≡ index j c)
  others_tables c a schemas h = (refl, refl)
  others_tables c a tables h = absurd (h refl)
  others_tables c a views h = (refl, refl)
  others_tables c a macros h = (refl, refl)

  Answered-tables :
      (s t : CommitState V) (idx : ArenaIdx) (id : ℤ)
      → table_id s idx ≡ some (id, t)
      → Answered tables s idx id t
  unfolding table_id set_entity register_id get
  Answered-tables s t idx id h =
      let (x, e, cases) =
        entity_id-cases {T = CatalogTable V} (λ c. c.table_arena)
          (λ a c. record c { table_arena = a }) (λ e. e.id) (λ i e. record e { id = some i }) s t
          idx id h in
      elim cases [
        | inl (f, q) ↦
            known (get_elem?-map (λ y. y.id) s.catalog.table_arena.arena idx x e ∙ ap some f) q
        | inr (f, g, q) ↦
            fresh (get_elem?-map (λ y. y.id) s.catalog.table_arena.arena idx x e ∙ ap some f) g
              (ap (λ z. z.next_catalog_id) q)
              (ap (λ z. ids tables z.catalog) q
                ∙ map-set (λ y. y.id) s.catalog.table_arena.arena idx
                    (record x { id = some s.next_catalog_id })
                ∙ ap (λ i. set (ids tables s.catalog) idx (some i)) (sym g))
              (ap (λ z. index tables z.catalog) q
                ∙ ap (λ i. put (index tables s.catalog) i idx) (sym g))
              (λ j ne.
                let (p, r) = others_tables s.catalog _ j ne in
                (ap (λ z. ids j z.catalog) q ∙ p, ap (λ z. index j z.catalog) q ∙ r))
      ]

  others_views :
      (c : Catalog V) (a : Arena (CatalogView)) (j : Kind)
      → j ≢ views
      → (ids j (record c { view_arena = a }) ≡ ids j c)
        × (index j (record c { view_arena = a }) ≡ index j c)
  others_views c a schemas h = (refl, refl)
  others_views c a tables h = (refl, refl)
  others_views c a views h = absurd (h refl)
  others_views c a macros h = (refl, refl)

  Answered-views :
      (s t : CommitState V) (idx : ArenaIdx) (id : ℤ)
      → view_id s idx ≡ some (id, t)
      → Answered views s idx id t
  unfolding view_id set_entity register_id get
  Answered-views s t idx id h =
      let (x, e, cases) =
        entity_id-cases {T = CatalogView} (λ c. c.view_arena) (λ a c. record c { view_arena = a })
          (λ e. e.id) (λ i e. record e { id = some i }) s t idx id h in
      elim cases [
        | inl (f, q) ↦
            known (get_elem?-map (λ y. y.id) s.catalog.view_arena.arena idx x e ∙ ap some f) q
        | inr (f, g, q) ↦
            fresh (get_elem?-map (λ y. y.id) s.catalog.view_arena.arena idx x e ∙ ap some f) g
              (ap (λ z. z.next_catalog_id) q)
              (ap (λ z. ids views z.catalog) q
                ∙ map-set (λ y. y.id) s.catalog.view_arena.arena idx
                    (record x { id = some s.next_catalog_id })
                ∙ ap (λ i. set (ids views s.catalog) idx (some i)) (sym g))
              (ap (λ z. index views z.catalog) q
                ∙ ap (λ i. put (index views s.catalog) i idx) (sym g))
              (λ j ne.
                let (p, r) = others_views s.catalog _ j ne in
                (ap (λ z. ids j z.catalog) q ∙ p, ap (λ z. index j z.catalog) q ∙ r))
      ]

  others_macros :
      (c : Catalog V) (a : Arena (CatalogMacro)) (j : Kind)
      → j ≢ macros
      → (ids j (record c { macro_arena = a }) ≡ ids j c)
        × (index j (record c { macro_arena = a }) ≡ index j c)
  others_macros c a schemas h = (refl, refl)
  others_macros c a tables h = (refl, refl)
  others_macros c a views h = (refl, refl)
  others_macros c a macros h = absurd (h refl)

  Answered-macros :
      (s t : CommitState V) (idx : ArenaIdx) (id : ℤ)
      → macro_id s idx ≡ some (id, t)
      → Answered macros s idx id t
  unfolding macro_id set_entity register_id get
  Answered-macros s t idx id h =
      let (x, e, cases) =
        entity_id-cases {T = CatalogMacro} (λ c. c.macro_arena)
          (λ a c. record c { macro_arena = a }) (λ e. e.id) (λ i e. record e { id = some i }) s t
          idx id h in
      elim cases [
        | inl (f, q) ↦
            known (get_elem?-map (λ y. y.id) s.catalog.macro_arena.arena idx x e ∙ ap some f) q
        | inr (f, g, q) ↦
            fresh (get_elem?-map (λ y. y.id) s.catalog.macro_arena.arena idx x e ∙ ap some f) g
              (ap (λ z. z.next_catalog_id) q)
              (ap (λ z. ids macros z.catalog) q
                ∙ map-set (λ y. y.id) s.catalog.macro_arena.arena idx
                    (record x { id = some s.next_catalog_id })
                ∙ ap (λ i. set (ids macros s.catalog) idx (some i)) (sym g))
              (ap (λ z. index macros z.catalog) q
                ∙ ap (λ i. put (index macros s.catalog) i idx) (sym g))
              (λ j ne.
                let (p, r) = others_macros s.catalog _ j ne in
                (ap (λ z. ids j z.catalog) q ∙ p, ap (λ z. index j z.catalog) q ∙ r))
      ]

  pub answered :
      (k : Kind) (s t : CommitState V) (idx : ArenaIdx) (id : ℤ)
      → id_for k s idx ≡ some (id, t)
      → Answered k s idx id t
  answered schemas s t idx id h = Answered-schemas s t idx id h
  answered tables s t idx id h = Answered-tables s t idx id h
  answered views s t idx id h = Answered-views s t idx id h
  answered macros s t idx id h = Answered-macros s t idx id h
