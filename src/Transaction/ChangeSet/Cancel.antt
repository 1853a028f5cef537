-- ===== src/Transaction/ChangeSet/Cancel.antt =====
-- Which changes `ChangeSet::new` cancels: a description beside its four passes.
use ducklake_sdk.Common.{
  ◌≡◌, refl, sym, subst, ◌⊎◌, inl, inr, Bool, true, not, List, Option, none, some, arith, nat_eq,
  filter_map, Elem,
}
use ducklake_sdk.Common.Unique.{contains, contains_iff}
use ducklake_sdk.Catalog.Entities.{ArenaIdx}
use ducklake_sdk.Transaction.Change.{
  Change, create_schema, delete_schema, delete_table, create_view, delete_view, create_macro,
  delete_macro, hashable_change_eq, affected_table_ref,
}
use ducklake_sdk.Transaction.ChangeSet.{
  absent, created_table, deleted_table, created_macro, deleted_macro, created_view, deleted_view,
  created_schema, deleted_schema, keeps_table, keeps_macro, keeps_view, keeps_schema,
}

-- The test of a pass, by what a change makes or touches, and what it deletes.
abbrev pub keeps_pair : (created deleted : List ArenaIdx) (made dropped : Option ArenaIdx) → Bool
keeps_pair created deleted made (some r) = not (contains created r)
keeps_pair created deleted made none = absent deleted made

-- A deletion of something that was created, or another change of something that is deleted.
abbrev pub Cancels : (created deleted : List ArenaIdx) (made dropped : Option ArenaIdx) → Type 0
Cancels created deleted made dropped =
    ((r : ArenaIdx) × (dropped ≡ some r) × Elem r created)
    ⊎ ((r : ArenaIdx) × (dropped ≡ none) × (made ≡ some r) × Elem r deleted)

pub some_inj : (r s : ArenaIdx) → (some r ≡ some s) → r ≡ s
some_inj r s h = ground arith

pub keeps_pair-not_Cancels :
    (created deleted : List ArenaIdx) (made dropped : Option ArenaIdx)
    → keeps_pair created deleted made dropped ≡ true
    → ¬ Cancels created deleted made dropped
keeps_pair-not_Cancels created deleted made (some r) h (inl (s, e, i)) =
    let found = (contains_iff created r).1 (subst (λ z. Elem z created) (sym (some_inj r s e)) i) in
    ground arith
keeps_pair-not_Cancels created deleted made (some r) h (inr (s, e, f, i)) = cc
keeps_pair-not_Cancels created deleted made none h (inl (s, e, i)) = cc
keeps_pair-not_Cancels created deleted (some r) none h (inr (s, e, f, i)) =
    let found = (contains_iff deleted r).1 (subst (λ z. Elem z deleted) (sym (some_inj r s f)) i) in
    ground arith
keeps_pair-not_Cancels created deleted none none h (inr (s, e, f, i)) = cc

not-contains : (refs : List ArenaIdx) (r : ArenaIdx) → ¬ Elem r refs → not (contains refs r) ≡ true
not-contains refs r h = ground (arith, contains_iff refs r)

pub not_Cancels-keeps_pair :
    (created deleted : List ArenaIdx) (made dropped : Option ArenaIdx)
    → ¬ Cancels created deleted made dropped
    → keeps_pair created deleted made dropped ≡ true
not_Cancels-keeps_pair created deleted made (some r) h =
    not-contains created r (λ i. h (inl (r, refl, i)))
not_Cancels-keeps_pair created deleted (some r) none h =
    not-contains deleted r (λ i. h (inr (r, refl, refl, i)))
not_Cancels-keeps_pair created deleted none none h = refl

pub Cancels-mono :
    (created deleted created' deleted' : List ArenaIdx) (made dropped : Option ArenaIdx)
    → ((r : ArenaIdx) → Elem r created → Elem r created')
    → ((r : ArenaIdx) → Elem r deleted → Elem r deleted')
    → Cancels created deleted made dropped
    → Cancels created' deleted' made dropped
Cancels-mono created deleted created' deleted' made dropped f g (inl (r, e, i)) = inl (r, e, f r i)
Cancels-mono created deleted created' deleted' made dropped f g (inr (r, e, q, i)) =
    inr (r, e, q, g r i)

module _ {V B : Type 0} where
  pub keeps_table-pair :
      (created deleted : List ArenaIdx) (c : Change V B)
      → keeps_table created deleted c
        ≡ keeps_pair created deleted (affected_table_ref c) (deleted_table c)
  unfolding affected_table_ref
  keeps_table-pair created deleted (delete_table table_ref detach_files) = refl
  keeps_table-pair created deleted _ = refl

  pub keeps_macro-pair :
      (created deleted : List ArenaIdx) (c : Change V B)
      → keeps_macro created deleted c
        ≡ keeps_pair created deleted (created_macro c) (deleted_macro c)
  keeps_macro-pair created deleted (create_macro schema_ref macro_ref name kind implementations) =
      refl
  keeps_macro-pair created deleted (delete_macro macro_ref kind) = refl
  keeps_macro-pair created deleted _ = refl

  pub keeps_view-pair :
      (created deleted : List ArenaIdx) (c : Change V B)
      → keeps_view created deleted c ≡ keeps_pair created deleted (created_view c) (deleted_view c)
  keeps_view-pair created deleted (create_view schema_ref view_ref new_view) = refl
  keeps_view-pair created deleted (delete_view view_ref) = refl
  keeps_view-pair created deleted _ = refl

  pub keeps_schema-pair :
      (created deleted : List ArenaIdx) (c : Change V B)
      → keeps_schema created deleted c
        ≡ keeps_pair created deleted (created_schema c) (deleted_schema c)
  keeps_schema-pair created deleted (create_schema schema_ref name path) = refl
  keeps_schema-pair created deleted (delete_schema schema_ref) = refl
  keeps_schema-pair created deleted _ = refl

  -- `c` does not survive among the changes `cs`.
  abbrev pub Cancelled : Change V B → List (Change V B) → Type 0
  Cancelled c cs =
      Cancels (filter_map created_table cs) (filter_map deleted_table cs) (affected_table_ref c)
        (deleted_table c)
      ⊎ Cancels (filter_map created_macro cs) (filter_map deleted_macro cs) (created_macro c)
          (deleted_macro c)
      ⊎ Cancels (filter_map created_view cs) (filter_map deleted_view cs) (created_view c)
          (deleted_view c)
      ⊎ Cancels (filter_map created_schema cs) (filter_map deleted_schema cs) (created_schema c)
          (deleted_schema c)
