-- ===== src/Transaction/CommitState/Ids.antt =====
-- The IDs that a commit hands out: stable, fresh and unambiguous.
use ducklake_sdk.Common.{◌≡◌, ap, ◌∙◌, none, some, get_elem?}
use ducklake_sdk.Common.Int.{ℤ}
use ducklake_sdk.Catalog.Entities.{ArenaIdx}
use ducklake_sdk.Transaction.CommitState.{CommitState, schema_id, table_id, view_id, macro_id}
use ducklake_sdk.Common.{get_elem?-set}
use ducklake_sdk.Catalog.Entities.{CatalogSchema, CatalogTable, CatalogView, CatalogMacro}
use ducklake_sdk.Transaction.CommitState.Entity.{
  Kind, schemas, tables, views, macros, ids, id_for, Answered, known, fresh, entity_id_again,
}
use ducklake_sdk.Transaction.CommitState.Resolve.{answered}

module _ {V : Type 0} where
  known_id :
      (k : Kind) (s : CommitState V) (idx : ArenaIdx) (id : ℤ)
      → get_elem? (ids k s.catalog) idx ≡ some (some id)
      → id_for k s idx ≡ some (id, s)
  unfolding schema_id table_id view_id macro_id
  known_id schemas s idx id h =
      entity_id_again {T = CatalogSchema} (λ c. c.schema_arena)
        (λ a c. record c { schema_arena = a }) (λ e. e.id) (λ i e. record e { id = some i }) s idx
        id h
  known_id tables s idx id h =
      entity_id_again {T = CatalogTable V} (λ c. c.table_arena)
        (λ a c. record c { table_arena = a }) (λ e. e.id) (λ i e. record e { id = some i }) s idx id
        h
  known_id views s idx id h =
      entity_id_again {T = CatalogView} (λ c. c.view_arena) (λ a c. record c { view_arena = a })
        (λ e. e.id) (λ i e. record e { id = some i }) s idx id h
  known_id macros s idx id h =
      entity_id_again {T = CatalogMacro} (λ c. c.macro_arena) (λ a c. record c { macro_arena = a })
        (λ e. e.id) (λ i e. record e { id = some i }) s idx id h

  -- The entity has the ID that was answered.
  pub has_id :
      (k : Kind) (s t : CommitState V) (idx : ArenaIdx) (id : ℤ)
      → Answered k s idx id t
      → get_elem? (ids k t.catalog) idx ≡ some (some id)
  has_id k s t idx id (known h e) = ap (λ z. get_elem? (ids k z.catalog) idx) e ∙ h
  has_id k s t idx id (fresh h e f g i o) =
      ap (λ l. get_elem? l idx) g ∙ get_elem?-set (ids k s.catalog) idx (some id) none h

  -- Asking again for the ID of a schema, table, view or macro gives the same ID and changes nothing.
  pub id_for-id_for :
      (k : Kind) (s t : CommitState V) (idx : ArenaIdx) (id : ℤ)
      → id_for k s idx ≡ some (id, t)
      → id_for k t idx ≡ some (id, t)
  id_for-id_for k s t idx id h = known_id k t idx id (has_id k s t idx id (answered k s t idx id h))
