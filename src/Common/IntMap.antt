-- ===== src/Common/IntMap.antt =====
-- `HashMap<i64, A>` as an association list with distinct keys.
use mathlib.Core.Path.{◌≡◌}
use mathlib.Core.Logic.{◌≢◌}
use mathlib.Core.List.{List, [], ◌∷◌}
use mathlib.Core.Option.{Option, none, some}
use native.Mathlib.Omega.{arith}
use ducklake_sdk.Common.Tests.{if◌then◌else◌}
use ducklake_sdk.Common.Int.{ℤ, ℤ_beq, ℤ_beq_iff}

abbrev pub IntMap : Type 0 → Type 0
IntMap A = List (ℤ × A)

module _ {A : Type 0} where
  -- `HashMap::get` and `HashMap::insert`.
  unfoldable pub lookup : IntMap A → ℤ → Option A
  lookup [] k = none
  lookup ((j, a) ∷ m) k = if ℤ_beq j k then some a else lookup m k

  unfoldable pub insert : IntMap A → ℤ → A → IntMap A
  insert [] k a = (k, a) ∷ []
  insert ((j, b) ∷ m) k a = if ℤ_beq j k then (k, a) ∷ m else (j, b) ∷ insert m k a

  -- `entry(k).or_default()`.
  unfoldable pub or_default : A → IntMap A → ℤ → A
  or_default d m k = elim (lookup m k) [ none ↦ d | some a ↦ a ]

  pub lookup-insert : (m : IntMap A) (k : ℤ) (a : A) → lookup (insert m k a) k ≡ some a
  unfolding lookup insert
  lookup-insert [] k a = ground (arith, ℤ_beq_iff k k)
  lookup-insert ((j, b) ∷ m) k a = ground (arith, ℤ_beq_iff k k, ℤ_beq_iff j k, lookup-insert m k a)

  pub lookup-insert_ne :
      (m : IntMap A) (k : ℤ) (a : A) (i : ℤ) → i ≢ k → lookup (insert m k a) i ≡ lookup m i
  unfolding lookup insert
  lookup-insert_ne [] k a i h = ground (arith, ℤ_beq_iff k i)
  lookup-insert_ne ((j, b) ∷ m) k a i h =
      ground (arith, ℤ_beq_iff j k, ℤ_beq_iff j i, ℤ_beq_iff k i, lookup-insert_ne m k a i h)

  pub or_default-insert : (d : A) (m : IntMap A) (k : ℤ) (a : A) → or_default d (insert m k a) k ≡ a
  unfolding or_default
  or_default-insert d m k a = ground (arith, lookup-insert m k a)
