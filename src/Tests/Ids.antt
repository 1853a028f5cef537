-- ===== src/Tests/Ids.antt =====
-- IDs for two new views.
use ducklake_sdk.Common.{
  ℕ, zero, suc, ◌<◌, ◌≡◌, refl, sym, ap, subst, ◌≢◌, ◌∙◌, [], ◌∷◌, none, some, Option, arith,
  get_elem?,
}
use ducklake_sdk.Common.Int.{ℤ, pos, ◌+ℤ◌, ◌<ℤ◌, IsI64, add_i64, wrap_i64}
use ducklake_sdk.Common.Text.{codes}
use ducklake_sdk.Catalog.Arena.{find, put, get, set_entity, register_id}
use ducklake_sdk.Catalog.Entities.{Catalog, CatalogView}
use ducklake_sdk.Transaction.CommitState.{CommitState, view_id, catalog_id}
use ducklake_sdk.Transaction.CommitState.Entity.{
  Kind, schemas, tables, views, macros, ids, index, id_for,
}
use ducklake_sdk.Transaction.CommitState.Ids.{id_for-id_for}
use ducklake_sdk.Transaction.CommitState.Sound.{IsSound, id_for-IsSound, id_for-distinct}
use ducklake_sdk.Tests.Conflicts.{small_catalog}

abbrev view_with : Option ℤ → CatalogView
view_with id = record {
  id = id;
  name = record { schema = codes "main"; name = codes "v" };
  sql = codes "select 1";
  dialect = codes "duckdb";
  column_aliases = none;
  tags = [];
}

-- The counter stands at `n`.
abbrev state : ℕ → Catalog ℕ → CommitState ℕ
state n catalog = record {
  snapshot_id = pos 1;
  schema_version = pos 1;
  next_catalog_id = pos n;
  next_file_id = pos 0;
  catalog = catalog;
  table_stats = none;
  original_table_stats = none;
}

abbrev s : CommitState ℕ
s = state 7 (record small_catalog {
  view_arena = record { arena = view_with none ∷ view_with none ∷ []; by_id = [] };
})

abbrev t : CommitState ℕ
t = state 8 (record small_catalog {
  view_arena = record {
    arena = view_with (some (pos 7)) ∷ view_with none ∷ [];
    by_id = (pos 7, 0) ∷ [];
  };
})

abbrev u : CommitState ℕ
u = state 9 (record small_catalog {
  view_arena = record {
    arena = view_with (some (pos 7)) ∷ view_with (some (pos 8)) ∷ [];
    by_id = (pos 7, 0) ∷ (pos 8, 1) ∷ [];
  };
})

first : id_for views s 0 ≡ some (pos 7, t)
unfolding view_id catalog_id get set_entity register_id put add_i64 wrap_i64 ◌+ℤ◌
first = refl

second : id_for views t 1 ≡ some (pos 8, u)
unfolding view_id catalog_id get set_entity register_id put add_i64 wrap_i64 ◌+ℤ◌
second = refl

in_range : (n : ℕ) → n < 100 → IsI64 (pos n +ℤ pos 1)
unfolding ◌+ℤ◌
in_range n h = ground arith

zero_found : find ((pos 0, 0) ∷ []) (pos 0) ≡ some 0
unfolding find
zero_found = refl

-- Only the schema has an ID.
only_main :
    (k : Kind) (idx : ℕ) (id : ℤ)
    → get_elem? (ids k s.catalog) idx ≡ some (some id)
    → (k ≡ schemas) × (idx ≡ 0) × (id ≡ pos 0)
only_main schemas zero id h = (refl, refl, ground arith)
only_main schemas (suc idx) id h = cc
only_main tables idx id h = cc
only_main views zero id h = cc
only_main views (suc zero) id h = cc
only_main views (suc (suc idx)) id h = cc
only_main macros idx id h = cc

below_seven : (id : ℤ) → id ≡ pos 0 → id <ℤ pos 7
below_seven id h = ground arith

main_found :
    (k : Kind) (idx : ℕ) (id : ℤ)
    → k ≡ schemas
    → idx ≡ 0
    → id ≡ pos 0
    → find (index k s.catalog) id ≡ some idx
main_found k idx id a b c =
    subst (λ z. find (index z s.catalog) id ≡ some idx) (sym a)
      (ap (find ((pos 0, 0) ∷ [])) c ∙ zero_found ∙ ap some (sym b))

s-IsSound : IsSound s
s-IsSound = record {
  below = λ k idx id h. let (a, b, c) = only_main k idx id h in below_seven id c;
  unique = λ k idx j jdx id h g.
      let (a, b, c) = only_main k idx id h in
      let (a', b', c') = only_main j jdx id g in (a ∙ sym a', b ∙ sym b');
  indexed = λ k idx id h. let (a, b, c) = only_main k idx id h in main_found k idx id a b c;
}

id_for-id_for_example : id_for views t 0 ≡ some (pos 7, t)
id_for-id_for_example = id_for-id_for views s t 0 (pos 7) first

id_for-IsSound_example : IsSound t
id_for-IsSound_example =
    id_for-IsSound views s t 0 (pos 7) s-IsSound (in_range 7 (omega arith)) first

apart : ¬ ((views ≡ views) × (zero ≡ suc zero))
apart (a, b) = absurd (omega (arith, b))

id_for-distinct_example : pos 7 ≢ pos 8
id_for-distinct_example =
    id_for-distinct views s t 0 (pos 7) views u 1 (pos 8) s-IsSound (in_range 7 (omega arith))
      (in_range 8 (omega arith)) apart first second
