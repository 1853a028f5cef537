-- ===== src/Catalog/Views.antt =====
-- crates/ducklake/src/catalog/views: looking entities up by ID, and the IDs that they carry.
use ducklake_sdk.Common.{Option, none, some}
use ducklake_sdk.Common.Int.{ℤ}
use ducklake_sdk.Common.Text.{Text}
use ducklake_sdk.Common.Error.{Result, ok, err, ◌>>=◌, entity_not_found, panicked}
use ducklake_sdk.Catalog.Arena.{get, map_id}
use ducklake_sdk.Catalog.Entities.{Catalog, ArenaIdx}

module _ {V : Type 0} where
  -- `TryIntoRef<SchemaRef> for i64`, and through it `Catalog::schema`.
  unfoldable pub schema_by_id : Catalog V → ℤ → Result ArenaIdx
  schema_by_id c id = elim (map_id c.schema_arena id) [
    | none ↦ err (entity_not_found id)
    | some idx ↦ ok idx
  ]

  -- `SchemaView::name`.
  unfoldable pub schema_name : Catalog V → ArenaIdx → Option Text
  schema_name c idx = elim (get c.schema_arena idx) [ none ↦ none | some s ↦ some s.name ]

  -- `catalog.schema(id)?.name()`. An index out of bounds panics.
  unfoldable pub schema_name_by_id : Catalog V → ℤ → Result Text
  unfolding schema_by_id schema_name
  schema_name_by_id c id = do
    idx ← schema_by_id c id
    elim (schema_name c idx) [ none ↦ err panicked | some name ↦ ok name ]
