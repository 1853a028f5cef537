-- ===== src/Tests/Conflicts.antt =====
-- Conflicts between recorded changes.
use ducklake_sdk.Common.{ℕ, ◌≡◌, refl, ◌↔◌, List, [], ◌∷◌, ◌++◌, inl, inr, Elem, some}
use ducklake_sdk.Common.Int.{pos}
use ducklake_sdk.Common.Text.{Text, codes, text, format}
use ducklake_sdk.Common.Text.Decimal.{display_i64}
use ducklake_sdk.Common.Error.{ok, err, transaction_conflict}
use ducklake_sdk.Catalog.Entities.{Catalog, CatalogSchema}
use ducklake_sdk.Typedefs.Layout.{relative}
use ducklake_sdk.Typedefs.Regex.{backtracking}
use ducklake_sdk.Transaction.Applied.{
  AppliedChange, created_table, dropped_schema, dropped_table, inserted_into_table, action,
}
use ducklake_sdk.Transaction.Applied.Conflict.{
  conflict_if, check_conflict, check_against, check_sets,
}
use ducklake_sdk.Transaction.Applied.Footprint.{Conflicts}
use ducklake_sdk.Transaction.Applied.Resolution.{IsConflict}
use ducklake_sdk.Transaction.Applied.Resolution.Exact.{check_conflict-Conflicts}
use ducklake_sdk.Transaction.Applied.Resolution.Sets.{
  check_sets-pairs, check_sets_error, check_sets-no_conflict, PassesAll, FirstAgainst,
}

-- A catalog with the schema `main`, which has ID 0.
abbrev pub main : CatalogSchema
main = record {
  id = some (pos 0);
  name = codes "main";
  tables = [];
  views = [];
  macros = [];
  path = relative (codes "main/");
}

abbrev pub small_catalog : Catalog ℕ
small_catalog = record {
  schema_arena = record { arena = main ∷ []; by_id = (pos 0, 0) ∷ [] };
  table_arena = record { arena = []; by_id = [] };
  view_arena = record { arena = []; by_id = [] };
  macro_arena = record { arena = []; by_id = [] };
  schemas = (codes "main", 0) ∷ [];
}

abbrev new_table : AppliedChange
new_table = created_table (record { schema = codes "main"; name = codes "t" })

check_conflict-Conflicts_example :
    IsConflict (check_conflict backtracking small_catalog (dropped_schema (pos 0)) new_table)
    ↔ Conflicts backtracking small_catalog (dropped_schema (pos 0)) new_table
check_conflict-Conflicts_example =
    check_conflict-Conflicts backtracking small_catalog (dropped_schema (pos 0)) new_table

abbrev own : List AppliedChange
own = inserted_into_table (pos 1) ∷ []

abbrev theirs : List AppliedChange
theirs = inserted_into_table (pos 1) ∷ dropped_table (pos 2) ∷ []

pass : check_sets backtracking small_catalog own theirs ≡ ok tt
unfolding check_sets check_against check_conflict conflict_if
pass = refl

check_sets-no_conflict_example :
    ¬ Conflicts backtracking small_catalog (inserted_into_table (pos 1)) (dropped_table (pos 2))
check_sets-no_conflict_example =
    check_sets-no_conflict backtracking small_catalog own theirs (inserted_into_table (pos 1))
      (dropped_table (pos 2)) pass (inl refl) (inr (inl refl))

check_sets-pairs_example : (check_sets backtracking small_catalog own theirs ≡ ok tt) ↔ (
    (l : AppliedChange)
    → Elem l own
    → (r : AppliedChange) → Elem r theirs
    → check_conflict backtracking small_catalog l r ≡ ok tt)
check_sets-pairs_example = check_sets-pairs backtracking small_catalog own theirs

abbrev drops : List AppliedChange
drops = dropped_table (pos 2) ∷ []

abbrev message : Text
message = format (
    text "attempting to drop table with ID "
    ∷ display_i64 (pos 2)
    ∷ text " but it was already "
    ∷ action (dropped_table (pos 2))
    ∷ [])

clash : check_sets backtracking small_catalog drops theirs ≡ err (transaction_conflict message)
unfolding check_sets check_against check_conflict conflict_if
clash = refl

check_sets_error_example :
    (passed : List AppliedChange) × (l : AppliedChange) × (rest : List AppliedChange) × (drops
      ≡ passed ++ (l ∷ rest))
    × ((p : AppliedChange) → Elem p passed → PassesAll backtracking small_catalog p theirs)
    × FirstAgainst backtracking small_catalog l theirs (transaction_conflict message)
check_sets_error_example =
    check_sets_error backtracking small_catalog drops theirs (transaction_conflict message) clash
