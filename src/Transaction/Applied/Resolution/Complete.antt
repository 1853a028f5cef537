-- ===== src/Transaction/Applied/Resolution/Complete.antt =====
-- Every entry of the conflict matrix of Footprint is reported by `check_conflict`.
use ducklake_sdk.Common.{
  ◌≡◌, refl, sym, ap, ◌∙◌, subst, inl, inr, true, List, some, list_beq, list_beq_iff, nat_eq,
}
use ducklake_sdk.Common.Int.{ℤ, ℤ_beq, ℤ_beq_iff}
use ducklake_sdk.Common.Text.{Text, eq_ignore_ascii_case}
use ducklake_sdk.Common.Error.{ok}
use ducklake_sdk.Typedefs.Regex.{RegexCrate}
use ducklake_sdk.Typedefs.Names.{QualifiedName, qualified_name_beq, qualified_name_beq_iff}
use ducklake_sdk.Typedefs.Layout.{MacroType}
use ducklake_sdk.Catalog.Entities.{Catalog}
use ducklake_sdk.Catalog.Views.{schema_name_by_id}
use ducklake_sdk.Transaction.Applied.{
  AppliedChange, created_schema, created_table, created_view, created_scalar_macro,
  created_table_macro, dropped_schema, dropped_table, dropped_view, dropped_scalar_macro,
  dropped_table_macro,
}
use ducklake_sdk.Transaction.Applied.Conflict.{conflict_if, check_conflict}
use ducklake_sdk.Transaction.Applied.Footprint.{
  Object, schema, table, view, macro, creates_schema, creates_relation, creates_macro,
}
use ducklake_sdk.Transaction.Applied.Resolution.{
  IsConflict, true-conflict_if, IsConflict-dropped_under, IsConflict-dropped_under_macro,
}
use ducklake_sdk.Transaction.Applied.Resolution.Inversion.{
  creator_of_schema, creator_of_relation, creator_of_macro, Dropper, Creator,
}

module _ {V : Type 0} (regexes : RegexCrate) (catalog : Catalog V) where
  abbrev pub Reports : AppliedChange → AppliedChange → Type 0
  Reports l r = IsConflict (check_conflict regexes catalog l r)

  pub reports :
      {l r : AppliedChange} (a b : AppliedChange) → l ≡ a → r ≡ b → Reports a b → Reports l r
  reports {r = r} a b e f h = subst (λ z. Reports z r) (sym e) (subst (Reports a) (sym f) h)

  -- Equal IDs and equal names pass their tests.
  pub id_test : (id : ℤ) (parts : List Text) → IsConflict (conflict_if (ℤ_beq id id) parts)
  id_test id parts = true-conflict_if (ℤ_beq id id) parts ((ℤ_beq_iff id id).1 refl)

  name_test :
      (n : QualifiedName) (parts : List Text)
      → IsConflict (conflict_if (qualified_name_beq n n) parts)
  name_test n parts =
      true-conflict_if (qualified_name_beq n n) parts ((qualified_name_beq_iff n n).1 refl)

  pub complete_schema :
      (l r : AppliedChange) (n : Text)
      → creates_schema l ≡ some n
      → creates_schema r ≡ some n
      → Reports l r
  unfolding check_conflict
  complete_schema l r n h k =
      reports (created_schema n) (created_schema n) (creator_of_schema l n h)
        (creator_of_schema r n k) (true-conflict_if (list_beq n n) _ ((list_beq_iff n n).1 refl))

  pub complete_relation :
      (l r : AppliedChange) (n : QualifiedName)
      → creates_relation l ≡ some n
      → creates_relation r ≡ some n
      → Reports l r
  unfolding check_conflict
  complete_relation l r n h k = elim (creator_of_relation l n h) [
    | inl e ↦ elim (creator_of_relation r n k) [
      | inl f ↦ reports (created_table n) (created_table n) e f (name_test n _)
      | inr f ↦ reports (created_table n) (created_view n) e f (name_test n _)
    ]
    | inr e ↦ elim (creator_of_relation r n k) [
      | inl f ↦ reports (created_view n) (created_table n) e f (name_test n _)
      | inr f ↦ reports (created_view n) (created_view n) e f (name_test n _)
    ]
  ]

  pub complete_macro :
      (l r : AppliedChange) (kind : MacroType) (n m : Text)
      → creates_macro l ≡ some (kind, n)
      → creates_macro r ≡ some (kind, m)
      → eq_ignore_ascii_case n m ≡ true
      → Reports l r
  unfolding check_conflict
  complete_macro l r kind n m h k t = elim (creator_of_macro l kind n h) [
    | inl (q, e) ↦ elim (creator_of_macro r kind m k) [
      | inl (p, f) ↦
          reports (created_scalar_macro n) (created_scalar_macro m) e f
            (true-conflict_if (eq_ignore_ascii_case n m) _ t)
      | inr (p, f) ↦ cc
    ]
    | inr (q, e) ↦ elim (creator_of_macro r kind m k) [
      | inl (p, f) ↦ cc
      | inr (p, f) ↦
          reports (created_table_macro n) (created_table_macro m) e f
            (true-conflict_if (eq_ignore_ascii_case n m) _ t)
    ]
  ]

  pub complete_drop : (l r : AppliedChange) (o : Object) → Dropper l o → Dropper r o → Reports l r
  unfolding check_conflict
  complete_drop l r (schema id) e f =
      reports (dropped_schema id) (dropped_schema id) e f (id_test id _)
  complete_drop l r (table id) e f =
      reports (dropped_table id) (dropped_table id) e f (id_test id _)
  complete_drop l r (view id) e f = reports (dropped_view id) (dropped_view id) e f (id_test id _)
  complete_drop l r (macro id) (inl e) (inl f) =
      reports (dropped_scalar_macro id) (dropped_scalar_macro id) e f (id_test id _)
  complete_drop l r (macro id) (inl e) (inr f) =
      reports (dropped_scalar_macro id) (dropped_table_macro id) e f (id_test id _)
  complete_drop l r (macro id) (inr e) (inl f) =
      reports (dropped_table_macro id) (dropped_scalar_macro id) e f (id_test id _)
  complete_drop l r (macro id) (inr e) (inr f) =
      reports (dropped_table_macro id) (dropped_table_macro id) e f (id_test id _)

  pub complete_drop_of_used :
      (l r : AppliedChange) (id : ℤ) (s : Text)
      → l ≡ dropped_schema id
      → Creator regexes r s
      → schema_name_by_id catalog id ≡ ok s
      → Reports l r
  unfolding check_conflict
  complete_drop_of_used l r id s e (inl (n, inl f, g)) q =
      reports (dropped_schema id) (created_table n) e f
        (IsConflict-dropped_under regexes catalog id n.schema _ (q ∙ ap ok (sym g)))
  complete_drop_of_used l r id s e (inl (n, inr f, g)) q =
      reports (dropped_schema id) (created_view n) e f
        (IsConflict-dropped_under regexes catalog id n.schema _ (q ∙ ap ok (sym g)))
  complete_drop_of_used l r id s e (inr (n, inl f, g)) q =
      reports (dropped_schema id) (created_scalar_macro n) e f
        (IsConflict-dropped_under_macro regexes catalog id n s q g)
  complete_drop_of_used l r id s e (inr (n, inr f, g)) q =
      reports (dropped_schema id) (created_table_macro n) e f
        (IsConflict-dropped_under_macro regexes catalog id n s q g)

  pub complete_use_of_dropped :
      (l r : AppliedChange) (id : ℤ) (s : Text)
      → Creator regexes l s
      → r ≡ dropped_schema id
      → schema_name_by_id catalog id ≡ ok s
      → Reports l r
  unfolding check_conflict
  complete_use_of_dropped l r id s (inl (n, inl f, g)) e q =
      reports (created_table n) (dropped_schema id) f e
        (IsConflict-dropped_under regexes catalog id n.schema _ (q ∙ ap ok (sym g)))
  complete_use_of_dropped l r id s (inl (n, inr f, g)) e q =
      reports (created_view n) (dropped_schema id) f e
        (IsConflict-dropped_under regexes catalog id n.schema _ (q ∙ ap ok (sym g)))
  complete_use_of_dropped l r id s (inr (n, inl f, g)) e q =
      reports (created_scalar_macro n) (dropped_schema id) f e
        (IsConflict-dropped_under_macro regexes catalog id n s q g)
  complete_use_of_dropped l r id s (inr (n, inr f, g)) e q =
      reports (created_table_macro n) (dropped_schema id) f e
        (IsConflict-dropped_under_macro regexes catalog id n s q g)
