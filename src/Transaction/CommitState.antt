-- ===== src/Transaction/CommitState.antt =====
-- crates/ducklake/src/transaction/commit_state.rs: the counters and the catalog of one attempt to
-- commit, from which IDs are handed out. `none` stands for a panic: a reference out of bounds, or
-- a partition ID asked of a table that has no partitioning.
pub mod Entity
pub mod Resolve
pub mod Ids
pub mod Sound
use ducklake_sdk.Common.{
  ℕ, ◌≡◌, refl, Bool, true, false, List, [], ◌∷◌, Option, none, some, if◌then◌else◌,
}
use ducklake_sdk.Common.Options.{◌>>=◌}
use ducklake_sdk.Common.Int.{ℤ, pos, add_i64}
use ducklake_sdk.Common.IntMap.{IntMap, or_default, insert}
use ducklake_sdk.Catalog.Arena.{Arena, get, set_entity, register_id}
use ducklake_sdk.Catalog.Entities.{
  ArenaIdx, ColumnRef, Catalog, CatalogSchema, CatalogTable, CatalogTablePartition, CatalogView,
  CatalogMacro,
}
use ducklake_sdk.Caches.Snapshot.{SnapshotInfo}
use ducklake_sdk.Caches.TableStats.{TableStats, default_table}
use ducklake_sdk.Spec.Entities.{DucklakeSnapshot}

-- `CommitState`.
pub record CommitState (V : Type 0) : Type 0 where
  pub snapshot_id : ℤ
  pub schema_version : ℤ
  pub next_catalog_id : ℤ
  pub next_file_id : ℤ
  pub catalog : Catalog V
  pub table_stats : Option (IntMap (TableStats V))
  pub original_table_stats : Option (IntMap (TableStats V))

-- An entity that has no ID yet gets one, in the arena and in its index.
abbrev pub resolve_id :
    {T : Type 0} → (T → Option ℤ) → (ℤ → T → T) → Arena T → ArenaIdx → ℤ → Option (Arena T)
resolve_id id_of with_id arena idx id = do
  entity ← get arena idx
  elim (id_of entity) [
    | none ↦ some (register_id (set_entity arena idx (with_id id entity)) idx id)
    | some old ↦ none
  ]

module _ {V : Type 0} where
  -- `CommitState::new`.
  unfoldable pub new :
      SnapshotInfo → Catalog V → Bool → Option (IntMap (TableStats V)) → CommitState V
  new info catalog schema_changed table_stats = record {
    snapshot_id = add_i64 info.id (pos 1);
    schema_version = add_i64 info.schema_version (if schema_changed then pos 1 else pos 0);
    next_catalog_id = info.next_catalog_id;
    next_file_id = info.next_file_id;
    catalog = catalog;
    table_stats = table_stats;
    original_table_stats = table_stats;
  }

  -- `CommitState::catalog_id` and `CommitState::file_id`.
  unfoldable pub catalog_id : CommitState V → ℤ × CommitState V
  catalog_id s =
      (s.next_catalog_id, record s { next_catalog_id = add_i64 s.next_catalog_id (pos 1) })

  unfoldable pub file_id : CommitState V → ℤ × CommitState V
  file_id s = (s.next_file_id, record s { next_file_id = add_i64 s.next_file_id (pos 1) })

  -- `CommitState::sort_info_id`.
  unfoldable pub sort_info_id : CommitState V → ℤ × CommitState V
  unfolding catalog_id
  sort_info_id s = catalog_id s

  -- The shape of `schema_id`, `table_id`, `view_id` and `macro_id`: the ID of the entity, or a new
  -- one that the entity keeps.
  abbrev pub entity_id :
      {T : Type 0}
      → (Catalog V → Arena T)
      → (Arena T → Catalog V → Catalog V)
      → (T → Option ℤ)
      → (ℤ → T → T)
      → CommitState V
      → ArenaIdx
      → Option (ℤ × CommitState V)
  entity_id arena_of with_arena id_of with_id s idx = do
    entity ← get (arena_of s.catalog) idx
    elim (id_of entity) [
      | some id ↦ some (id, s)
      | none ↦
          let (id, next) = catalog_id s in
          resolve_id id_of with_id (arena_of next.catalog) idx id >>= λ arena.
          some (id, record next { catalog = with_arena arena next.catalog })
    ]

  -- `CommitState::schema_id`.
  unfoldable pub schema_id : CommitState V → ArenaIdx → Option (ℤ × CommitState V)
  unfolding catalog_id get set_entity register_id
  schema_id =
      entity_id (λ c. c.schema_arena) (λ a c. record c { schema_arena = a }) (λ e. e.id)
        (λ id e. record e { id = some id })

  -- `CommitState::table_id`.
  unfoldable pub table_id : CommitState V → ArenaIdx → Option (ℤ × CommitState V)
  unfolding catalog_id get set_entity register_id
  table_id =
      entity_id (λ c. c.table_arena) (λ a c. record c { table_arena = a }) (λ e. e.id)
        (λ id e. record e { id = some id })

  -- `CommitState::view_id`.
  unfoldable pub view_id : CommitState V → ArenaIdx → Option (ℤ × CommitState V)
  unfolding catalog_id get set_entity register_id
  view_id =
      entity_id (λ c. c.view_arena) (λ a c. record c { view_arena = a }) (λ e. e.id)
        (λ id e. record e { id = some id })

  -- `CommitState::macro_id`.
  unfoldable pub macro_id : CommitState V → ArenaIdx → Option (ℤ × CommitState V)
  unfolding catalog_id get set_entity register_id
  macro_id =
      entity_id (λ c. c.macro_arena) (λ a c. record c { macro_arena = a }) (λ e. e.id)
        (λ id e. record e { id = some id })

  abbrev partition_of : CatalogTable V → Option CatalogTablePartition
  partition_of t = t.partition

  -- `CommitState::partition_id`. A table without partitioning makes `resolve_partition_id` panic.
  unfoldable pub partition_id : CommitState V → ArenaIdx → Option (ℤ × CommitState V)
  unfolding catalog_id get set_entity
  partition_id s idx = do
    table ← get s.catalog.table_arena idx
    partition ← partition_of table
    elim partition.id [
      | some id ↦ some (id, s)
      | none ↦
          let (id, next) = catalog_id s in
          let resolved = record table { partition = some (record partition { id = some id }) } in
          some (
            id,
            record next {
              catalog = record s.catalog {
                table_arena = set_entity s.catalog.table_arena idx resolved;
              };
            },
          )
    ]

  -- `CommitState::table_stats` behind the `expect`: the statistics of one table are replaced.
  unfoldable pub update_table_stats :
      CommitState V → ℤ → (TableStats V → TableStats V) → Option (CommitState V)
  unfolding default_table
  update_table_stats s id f = do
    all_stats ← s.table_stats
    some (record s {
      table_stats = some (insert all_stats id (f (or_default default_table all_stats id)));
    })

  -- `From<&CommitState> for DucklakeSnapshot`.
  unfoldable pub to_snapshot : CommitState V → DucklakeSnapshot
  to_snapshot s = record {
    snapshot_id = s.snapshot_id;
    schema_version = s.schema_version;
    next_catalog_id = s.next_catalog_id;
    next_file_id = s.next_file_id;
  }
