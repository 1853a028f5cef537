-- ===== src/Transaction/Applied/Resolution.antt =====
-- Lemmas on the errors that `check_conflict` returns; the children compare it with the conflict
-- matrix of Footprint.
pub mod Inversion
pub mod Sound
pub mod Complete
pub mod Exact
pub mod Sets
use ducklake_sdk.Common.{
  ◌≡◌, refl, sym, ap, ◌∙◌, subst, ◌⊎◌, inl, inr, ◌↔◌, ◌≢◌, Bool, true, false, List, [], ◌∷◌, Option,
  none, some, arith, list_beq, list_beq_iff, nat_eq, All, if◌then◌else◌,
}
use ducklake_sdk.Common.Int.{ℤ, ℤ_beq, ℤ_beq_iff}
use ducklake_sdk.Common.Text.{Text, eq_ignore_ascii_case}
use ducklake_sdk.Common.Error.{
  Result, ok, err, ◌>>=◌, ◌>>◌, transaction_conflict, entity_not_found, invalid_qualified_name,
  collect, ok_or, panicked,
}
use ducklake_sdk.Typedefs.Regex.{RegexCrate, Captures}
use ducklake_sdk.Typedefs.Identifier.{
  capture, component, quoted_identifier, dot_separated_unquoted_identifiers,
  dot_separated_quoted_identifiers, parse_identifier,
}
use ducklake_sdk.Typedefs.Names.{
  qualified_name_of, QualifiedName, qualified_name_beq, qualified_name_beq_iff,
  parse_qualified_name,
}
use ducklake_sdk.Typedefs.Layout.{MacroType, scalar, table as table_macro}
use ducklake_sdk.Catalog.Entities.{Catalog}
use ducklake_sdk.Catalog.Views.{schema_by_id, schema_name, schema_name_by_id}
use ducklake_sdk.Transaction.Applied.{
  AppliedChange, created_schema, created_table, created_view, created_scalar_macro,
  created_table_macro, inserted_into_table, deleted_from_table, compacted_table, inlined_insert,
  inlined_delete, inline_flush, merge_adjacent, rewrite_delete, dropped_schema, dropped_table,
  dropped_view, dropped_scalar_macro, dropped_table_macro, altered_table, altered_view,
}
use ducklake_sdk.Transaction.Applied.Conflict.{
  conflict_if, dropped_under, dropped_under_macro, check_conflict, check_against, check_sets,
}
use ducklake_sdk.Transaction.Applied.Footprint.{
  Object, schema, table, view, macro, creates_schema, creates_relation, creates_macro, drops,
  alters, inserts_into, deletes_from, compacts, home, schema_of, Conflicts, same_schema,
  same_relation, same_macro, same_drop, drop_of_used, use_of_dropped, stale_alter, stale_insert,
  stale_delete, stale_compaction,
}

-- The result is the error `TransactionConflict`, and no other.
abbrev pub IsConflict : {A : Type 0} → Result A → Type 0
IsConflict (err (transaction_conflict message)) = Unit {0}
IsConflict _ = ⊥

pub conflict_if-true : (b : Bool) (parts : List Text) → IsConflict (conflict_if b parts) → b ≡ true
unfolding conflict_if
conflict_if-true true parts h = refl
conflict_if-true false parts h = absurd h

pub true-conflict_if : (b : Bool) (parts : List Text) → b ≡ true → IsConflict (conflict_if b parts)
unfolding conflict_if
true-conflict_if true parts h = tt
true-conflict_if false parts h = cc

-- An error of the catalog is passed on, and is not a conflict.
under :
    (name : Text) (parts : List Text) (r : Result Text)
    → ¬ IsConflict r
    → IsConflict (r >>= λ found. conflict_if (list_beq found name) parts)
    → r ≡ ok name
under name parts (ok found) n h =
    ap ok ((list_beq_iff found name).0 (conflict_if-true (list_beq found name) parts h))
under name parts (err e) n h = absurd (n h)

under_macro :
    (parts : QualifiedName → List Text) (r : Result Text) (q : Result QualifiedName)
    → ¬ IsConflict r
    → ¬ IsConflict q
    → IsConflict
        (do dropped ← r; found ← q; conflict_if (list_beq dropped found.schema) (parts found))
    → (s : Text) × (n : QualifiedName) × (r ≡ ok s) × (q ≡ ok n) × (s ≡ n.schema)
under_macro parts (ok s) (ok n) h k c = (
  s,
  n,
  refl,
  refl,
  (list_beq_iff s n.schema).0 (conflict_if-true (list_beq s n.schema) (parts n) c),
)
under_macro parts (ok s) (err e) h k c = absurd (k c)
under_macro parts (err e) q h k c = absurd (h c)

macro_under :
    (parts : QualifiedName → List Text) (r : Result Text) (q : Result QualifiedName) (s : Text)
    → r ≡ ok s
    → (n : QualifiedName) × (q ≡ ok n) × (n.schema ≡ s)
    → IsConflict
        (do dropped ← r; found ← q; conflict_if (list_beq dropped found.schema) (parts found))
macro_under parts r q s e (n, f, g) =
    rw (e, f)
      (true-conflict_if (list_beq s n.schema) (parts n) ((list_beq_iff s n.schema).1 (sym g)))

schema_of_ok :
    (q : Result QualifiedName) (s : Text)
    → schema_of q ≡ some s
    → (n : QualifiedName) × (q ≡ ok n) × (n.schema ≡ s)
schema_of_ok (ok n) s h = (n, refl, ground arith)
schema_of_ok (err e) s h = cc

bind_calm :
    {A B : Type 0} (r : Result A) (f : A → Result B)
    → ¬ IsConflict r
    → ((a : A) → ¬ IsConflict (f a))
    → ¬ IsConflict (r >>= f)
bind_calm (ok a) f h k = k a
bind_calm (err (transaction_conflict message)) f h k = absurd (h tt)
bind_calm (err e) f h k = λ c. absurd (h c)

module _ {V : Type 0} (regexes : RegexCrate) (catalog : Catalog V) where
  open regexes use {is_match, captures_iter}

  schema_name_calm : (id : ℤ) → ¬ IsConflict (schema_name_by_id catalog id)
  unfolding schema_name_by_id schema_by_id schema_name
  schema_name_calm id = ground arith

  component_calm : (captures : Captures) → ¬ IsConflict (component regexes captures)
  unfolding component
  component_calm captures =
      bind_calm (ok_or (capture 1 captures) panicked) _ (group_calm (capture 1 captures)) (λ t h. h)
    where
      group_calm : (o : Option Text) → ¬ IsConflict (ok_or o panicked)
      group_calm none h = h
      group_calm (some t) h = h

  components_calm : (matches : List Captures) → ¬ IsConflict (collect (component regexes) matches)
  components_calm [] = λ h. h
  components_calm (m ∷ matches) =
      bind_calm (component regexes m) _ (component_calm m) (λ y.
        bind_calm (collect (component regexes) matches) _ (components_calm matches) (λ ys h. h))

  if_calm :
      {A : Type 0} (b : Bool) (r q : Result A)
      → ¬ IsConflict r
      → ¬ IsConflict q
      → ¬ IsConflict (if b then r else q)
  if_calm true r q h k = h
  if_calm false r q h k = k

  -- An identifier is read without a conflict, whatever the matches are.
  parse_identifier_calm : (s : Text) → ¬ IsConflict (parse_identifier regexes s)
  unfolding parse_identifier
  parse_identifier_calm s =
      if_calm (is_match dot_separated_unquoted_identifiers s) _ _ (λ h. h)
        (if_calm (is_match dot_separated_quoted_identifiers s) _ _
          (bind_calm (collect (component regexes) (captures_iter (quoted_identifier 1) s)) _
            (components_calm (captures_iter (quoted_identifier 1) s)) (λ cs h. h))
          (λ h. h))

  named_calm :
      (s : Text) (components : Option (List Text)) → ¬ IsConflict (qualified_name_of s components)
  named_calm s none h = h
  named_calm s (some []) h = h
  named_calm s (some (c ∷ [])) h = h
  named_calm s (some (c ∷ d ∷ [])) h = h
  named_calm s (some (c ∷ d ∷ e ∷ cs)) h = h

  parse_calm : (name : Text) → ¬ IsConflict (parse_qualified_name regexes name)
  unfolding parse_qualified_name
  parse_calm name =
      bind_calm (parse_identifier regexes name) _ (parse_identifier_calm name) (named_calm name)

  pub dropped_under_conflict :
      (id : ℤ) (name : Text) (parts : List Text)
      → IsConflict (dropped_under regexes catalog id name parts)
      → schema_name_by_id catalog id ≡ ok name
  unfolding dropped_under
  dropped_under_conflict id name parts h =
      under name parts (schema_name_by_id catalog id) (schema_name_calm id) h

  pub IsConflict-dropped_under :
      (id : ℤ) (name : Text) (parts : List Text)
      → schema_name_by_id catalog id ≡ ok name
      → IsConflict (dropped_under regexes catalog id name parts)
  unfolding dropped_under
  IsConflict-dropped_under id name parts e =
      rw (e) (true-conflict_if (list_beq name name) parts ((list_beq_iff name name).1 refl))

  pub dropped_under_macro_conflict :
      (id : ℤ) (name : Text)
      → IsConflict (dropped_under_macro regexes catalog id name)
      → (s : Text) × (schema_name_by_id catalog id ≡ ok s)
        × (schema_of (parse_qualified_name regexes name) ≡ some s)
  unfolding dropped_under_macro
  dropped_under_macro_conflict id name h =
      let (s, n, e, f, g) =
        under_macro (λ macro_name. _) (schema_name_by_id catalog id)
          (parse_qualified_name regexes name) (schema_name_calm id) (parse_calm name) h in
      (s, e, ap schema_of f ∙ ap some (sym g))

  pub IsConflict-dropped_under_macro :
      (id : ℤ) (name s : Text)
      → schema_name_by_id catalog id ≡ ok s
      → schema_of (parse_qualified_name regexes name) ≡ some s
      → IsConflict (dropped_under_macro regexes catalog id name)
  unfolding dropped_under_macro
  IsConflict-dropped_under_macro id name s e f =
      macro_under (λ macro_name. _) (schema_name_by_id catalog id)
        (parse_qualified_name regexes name) s e
        (schema_of_ok (parse_qualified_name regexes name) s f)
