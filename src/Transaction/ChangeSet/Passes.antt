-- ===== src/Transaction/ChangeSet/Passes.antt =====
-- The passes of `ChangeSet::new` do not disturb each other, and collect from the last changes what
-- they would collect from all.
use ducklake_sdk.Common.{◌≡◌, refl, true, List, some, nat_eq}
use ducklake_sdk.Catalog.Entities.{ArenaIdx}
use ducklake_sdk.Transaction.Change.{
  Change, create_schema, delete_schema, create_view, delete_view, create_macro, delete_macro,
  hashable_change_eq, affected_table_ref,
}
use ducklake_sdk.Transaction.ChangeSet.{
  created_macro, deleted_macro, created_view, deleted_view, created_schema, deleted_schema,
  keeps_table, keeps_macro, keeps_view,
}

module _ {V B : Type 0} where
  pub created_macro-keeps_table :
      (created deleted : List ArenaIdx) (c : Change V B) (r : ArenaIdx)
      → created_macro c ≡ some r
      → keeps_table created deleted c ≡ true
  unfolding affected_table_ref
  created_macro-keeps_table created deleted
        (create_macro schema_ref macro_ref name kind implementations) r h =
      refl
  created_macro-keeps_table created deleted _ r h = cc

  pub deleted_macro-keeps_table :
      (created deleted : List ArenaIdx) (c : Change V B) (r : ArenaIdx)
      → deleted_macro c ≡ some r
      → keeps_table created deleted c ≡ true
  unfolding affected_table_ref
  deleted_macro-keeps_table created deleted (delete_macro macro_ref kind) r h = refl
  deleted_macro-keeps_table created deleted _ r h = cc

  pub created_view-keeps_table :
      (created deleted : List ArenaIdx) (c : Change V B) (r : ArenaIdx)
      → created_view c ≡ some r
      → keeps_table created deleted c ≡ true
  unfolding affected_table_ref
  created_view-keeps_table created deleted (create_view schema_ref view_ref new_view) r h = refl
  created_view-keeps_table created deleted _ r h = cc

  pub deleted_view-keeps_table :
      (created deleted : List ArenaIdx) (c : Change V B) (r : ArenaIdx)
      → deleted_view c ≡ some r
      → keeps_table created deleted c ≡ true
  unfolding affected_table_ref
  deleted_view-keeps_table created deleted (delete_view view_ref) r h = refl
  deleted_view-keeps_table created deleted _ r h = cc

  pub created_view-keeps_macro :
      (created deleted : List ArenaIdx) (c : Change V B) (r : ArenaIdx)
      → created_view c ≡ some r
      → keeps_macro created deleted c ≡ true
  created_view-keeps_macro created deleted (create_view schema_ref view_ref new_view) r h = refl
  created_view-keeps_macro created deleted _ r h = cc

  pub deleted_view-keeps_macro :
      (created deleted : List ArenaIdx) (c : Change V B) (r : ArenaIdx)
      → deleted_view c ≡ some r
      → keeps_macro created deleted c ≡ true
  deleted_view-keeps_macro created deleted (delete_view view_ref) r h = refl
  deleted_view-keeps_macro created deleted _ r h = cc

  pub created_schema-keeps_table :
      (created deleted : List ArenaIdx) (c : Change V B) (r : ArenaIdx)
      → created_schema c ≡ some r
      → keeps_table created deleted c ≡ true
  unfolding affected_table_ref
  created_schema-keeps_table created deleted (create_schema schema_ref name path) r h = refl
  created_schema-keeps_table created deleted _ r h = cc

  pub deleted_schema-keeps_table :
      (created deleted : List ArenaIdx) (c : Change V B) (r : ArenaIdx)
      → deleted_schema c ≡ some r
      → keeps_table created deleted c ≡ true
  unfolding affected_table_ref
  deleted_schema-keeps_table created deleted (delete_schema schema_ref) r h = refl
  deleted_schema-keeps_table created deleted _ r h = cc

  pub created_schema-keeps_macro :
      (created deleted : List ArenaIdx) (c : Change V B) (r : ArenaIdx)
      → created_schema c ≡ some r
      → keeps_macro created deleted c ≡ true
  created_schema-keeps_macro created deleted (create_schema schema_ref name path) r h = refl
  created_schema-keeps_macro created deleted _ r h = cc

  pub deleted_schema-keeps_macro :
      (created deleted : List ArenaIdx) (c : Change V B) (r : ArenaIdx)
      → deleted_schema c ≡ some r
      → keeps_macro created deleted c ≡ true
  deleted_schema-keeps_macro created deleted (delete_schema schema_ref) r h = refl
  deleted_schema-keeps_macro created deleted _ r h = cc

  pub created_schema-keeps_view :
      (created deleted : List ArenaIdx) (c : Change V B) (r : ArenaIdx)
      → created_schema c ≡ some r
      → keeps_view created deleted c ≡ true
  created_schema-keeps_view created deleted (create_schema schema_ref name path) r h = refl
  created_schema-keeps_view created deleted _ r h = cc

  pub deleted_schema-keeps_view :
      (created deleted : List ArenaIdx) (c : Change V B) (r : ArenaIdx)
      → deleted_schema c ≡ some r
      → keeps_view created deleted c ≡ true
  deleted_schema-keeps_view created deleted (delete_schema schema_ref) r h = refl
  deleted_schema-keeps_view created deleted _ r h = cc
