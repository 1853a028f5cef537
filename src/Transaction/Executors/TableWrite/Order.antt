-- ===== src/Transaction/Executors/TableWrite/Order.antt =====
-- Orders of values, for the bounds of a column in caches/table_stats.rs.
use ducklake_sdk.Common.{◌≡◌, Option, some}
use ducklake_sdk.Caches.TableStats.{Ordering, less, equal, greater}

-- An order in which any two values can be compared, with its `partial_cmp`.
pub record TotalOrder (V : Type 0) : Type 1 where
  pub partial_cmp : V → V → Option Ordering
  pub Le : V → V → Type 0
  pub Le-refl : (a : V) → Le a a
  pub Le-trans : (a b c : V) → Le a b → Le b c → Le a c
  pub cmp_total : (a b : V) → (o : Ordering) × (partial_cmp a b ≡ some o)
  pub cmp_less : (a b : V) → partial_cmp a b ≡ some less → Le a b
  pub cmp_equal : (a b : V) → partial_cmp a b ≡ some equal → (Le a b) × (Le b a)
  pub cmp_greater : (a b : V) → partial_cmp a b ≡ some greater → Le b a
