-- ===== src/Transaction/ChangeSet/Keys.antt =====
-- The references that `ChangeSet::new` collects are the same in a list and in its last changes.
use ducklake_sdk.Common.{
  ◌≡◌, refl, sym, ap, ◌∙◌, inl, inr, ◌↔◌, List, [], ◌∷◌, Option, none, some, nat_eq, filter_map,
  Elem, Elem-filter_map, Elem-of_filter_map, Elem-Subseq, map,
}
use ducklake_sdk.Common.Unique.KeepLast.{keep_last, keep_last-covers, keep_last-Subseq}
use ducklake_sdk.Catalog.Entities.{ArenaIdx}
use ducklake_sdk.Transaction.Change.{
  Change, create_schema, delete_schema, create_table, delete_table, create_view, delete_view,
  create_macro, delete_macro, hashable, HashableChange, hashable_change_eq, create_schema_key,
  delete_schema_key, create_table_key, delete_table_key, create_view_key, delete_view_key,
  create_macro_key, delete_macro_key,
}
use ducklake_sdk.Transaction.ChangeSet.{
  created_table, deleted_table, created_macro, deleted_macro, created_view, deleted_view,
  created_schema, deleted_schema,
}

-- What the key of a change creates or deletes.
abbrev key_created_table : HashableChange → Option ArenaIdx
key_created_table (create_table_key r) = some r
key_created_table _ = none

abbrev key_deleted_table : HashableChange → Option ArenaIdx
key_deleted_table (delete_table_key r) = some r
key_deleted_table _ = none

abbrev key_created_macro : HashableChange → Option ArenaIdx
key_created_macro (create_macro_key r) = some r
key_created_macro _ = none

abbrev key_deleted_macro : HashableChange → Option ArenaIdx
key_deleted_macro (delete_macro_key r) = some r
key_deleted_macro _ = none

abbrev key_created_view : HashableChange → Option ArenaIdx
key_created_view (create_view_key r) = some r
key_created_view _ = none

abbrev key_deleted_view : HashableChange → Option ArenaIdx
key_deleted_view (delete_view_key r) = some r
key_deleted_view _ = none

abbrev key_created_schema : HashableChange → Option ArenaIdx
key_created_schema (create_schema_key r) = some r
key_created_schema _ = none

abbrev key_deleted_schema : HashableChange → Option ArenaIdx
key_deleted_schema (delete_schema_key r) = some r
key_deleted_schema _ = none

module _ {V B : Type 0} where
  map_Elem :
      (c : Change V B) (cs : List (Change V B)) → Elem c cs → Elem (hashable c) (map hashable cs)
  map_Elem c (d ∷ cs) (inl e) = inl (ap hashable e)
  map_Elem c (d ∷ cs) (inr i) = inr (map_Elem c cs i)
  map_Elem c [] i = absurd i

  Elem-of_map :
      (k : HashableChange) (cs : List (Change V B))
      → Elem k (map hashable cs)
      → (d : Change V B) × (Elem d cs) × (k ≡ hashable d)
  Elem-of_map k [] i = absurd i
  Elem-of_map k (d ∷ cs) (inl e) = (d, inl refl, e)
  Elem-of_map k (d ∷ cs) (inr i) = let (c, j, e) = Elem-of_map k cs i in (c, inr j, e)

  -- A collector that looks at the key alone finds the same in the last changes.
  same_refs :
      (f : Change V B → Option ArenaIdx) (g : HashableChange → Option ArenaIdx)
      (cs : List (Change V B)) (r : ArenaIdx)
      → ((c : Change V B) → f c ≡ g (hashable c))
      → Elem r (filter_map f cs) ↔ Elem r (filter_map f (keep_last hashable cs))
  same_refs f g cs r h = (to, from)
    where
      to : Elem r (filter_map f cs) → Elem r (filter_map f (keep_last hashable cs))
      to i =
          let (c, j, e) = Elem-of_filter_map f r cs i in
          let (d, k, q) =
            Elem-of_map (hashable c) (keep_last hashable cs)
              (keep_last-covers hashable cs (hashable c) (map_Elem c cs j)) in
          Elem-filter_map f d r (keep_last hashable cs) k (h d ∙ ap g (sym q) ∙ sym (h c) ∙ e)

      from : Elem r (filter_map f (keep_last hashable cs)) → Elem r (filter_map f cs)
      from i =
          let (c, j, e) = Elem-of_filter_map f r (keep_last hashable cs) i in
          Elem-filter_map f c r cs
            (Elem-Subseq c (keep_last hashable cs) cs (keep_last-Subseq hashable cs) j) e

  created_table-key : (c : Change V B) → created_table c ≡ key_created_table (hashable c)
  unfolding hashable
  created_table-key (create_table schema_ref table_ref new_table) = refl
  created_table-key _ = refl

  pub same_created_table :
      (cs : List (Change V B)) (r : ArenaIdx)
      → Elem r (filter_map created_table cs)
        ↔ Elem r (filter_map created_table (keep_last hashable cs))
  same_created_table cs r = same_refs created_table key_created_table cs r created_table-key

  deleted_table-key : (c : Change V B) → deleted_table c ≡ key_deleted_table (hashable c)
  unfolding hashable
  deleted_table-key (delete_table table_ref detach_files) = refl
  deleted_table-key _ = refl

  pub same_deleted_table :
      (cs : List (Change V B)) (r : ArenaIdx)
      → Elem r (filter_map deleted_table cs)
        ↔ Elem r (filter_map deleted_table (keep_last hashable cs))
  same_deleted_table cs r = same_refs deleted_table key_deleted_table cs r deleted_table-key

  created_macro-key : (c : Change V B) → created_macro c ≡ key_created_macro (hashable c)
  unfolding hashable
  created_macro-key (create_macro schema_ref macro_ref name kind implementations) = refl
  created_macro-key _ = refl

  pub same_created_macro :
      (cs : List (Change V B)) (r : ArenaIdx)
      → Elem r (filter_map created_macro cs)
        ↔ Elem r (filter_map created_macro (keep_last hashable cs))
  same_created_macro cs r = same_refs created_macro key_created_macro cs r created_macro-key

  deleted_macro-key : (c : Change V B) → deleted_macro c ≡ key_deleted_macro (hashable c)
  unfolding hashable
  deleted_macro-key (delete_macro macro_ref kind) = refl
  deleted_macro-key _ = refl

  pub same_deleted_macro :
      (cs : List (Change V B)) (r : ArenaIdx)
      → Elem r (filter_map deleted_macro cs)
        ↔ Elem r (filter_map deleted_macro (keep_last hashable cs))
  same_deleted_macro cs r = same_refs deleted_macro key_deleted_macro cs r deleted_macro-key

  created_view-key : (c : Change V B) → created_view c ≡ key_created_view (hashable c)
  unfolding hashable
  created_view-key (create_view schema_ref view_ref new_view) = refl
  created_view-key _ = refl

  pub same_created_view :
      (cs : List (Change V B)) (r : ArenaIdx)
      → Elem r (filter_map created_view cs)
        ↔ Elem r (filter_map created_view (keep_last hashable cs))
  same_created_view cs r = same_refs created_view key_created_view cs r created_view-key

  deleted_view-key : (c : Change V B) → deleted_view c ≡ key_deleted_view (hashable c)
  unfolding hashable
  deleted_view-key (delete_view view_ref) = refl
  deleted_view-key _ = refl

  pub same_deleted_view :
      (cs : List (Change V B)) (r : ArenaIdx)
      → Elem r (filter_map deleted_view cs)
        ↔ Elem r (filter_map deleted_view (keep_last hashable cs))
  same_deleted_view cs r = same_refs deleted_view key_deleted_view cs r deleted_view-key

  created_schema-key : (c : Change V B) → created_schema c ≡ key_created_schema (hashable c)
  unfolding hashable
  created_schema-key (create_schema schema_ref name path) = refl
  created_schema-key _ = refl

  pub same_created_schema :
      (cs : List (Change V B)) (r : ArenaIdx)
      → Elem r (filter_map created_schema cs)
        ↔ Elem r (filter_map created_schema (keep_last hashable cs))
  same_created_schema cs r = same_refs created_schema key_created_schema cs r created_schema-key

  deleted_schema-key : (c : Change V B) → deleted_schema c ≡ key_deleted_schema (hashable c)
  unfolding hashable
  deleted_schema-key (delete_schema schema_ref) = refl
  deleted_schema-key _ = refl

  pub same_deleted_schema :
      (cs : List (Change V B)) (r : ArenaIdx)
      → Elem r (filter_map deleted_schema cs)
        ↔ Elem r (filter_map deleted_schema (keep_last hashable cs))
  same_deleted_schema cs r = same_refs deleted_schema key_deleted_schema cs r deleted_schema-key
