-- ===== src/Transaction/Commit/Empty.antt =====
-- Transactions that leave nothing to commit.
use ducklake_sdk.Common.{◌≡◌, refl, List, [], ◌∷◌, none, some, filter_map, Elem, inl, true}
use ducklake_sdk.Common.Error.{ok}
use ducklake_sdk.Catalog.Entities.{ArenaIdx}
use ducklake_sdk.Typedefs.Regex.{RegexCrate}
use ducklake_sdk.Transaction.Change.{Change, affected_table_ref}
use ducklake_sdk.Transaction.ChangeSet.{new, is_empty, created_table, deleted_table}
use ducklake_sdk.Transaction.ChangeSet.Trace.{new-Subseq, new_created_and_deleted}
use ducklake_sdk.Common.{Elem-Subseq}
use ducklake_sdk.Transaction.Attempt.{World}
use ducklake_sdk.Transaction.Commit.{Transaction, commit}

module _ {V B : Type 0} where
  no_elements : (cs : List (Change V B)) → ((c : Change V B) → ¬ Elem c cs) → is_empty cs ≡ true
  unfolding is_empty
  no_elements [] h = refl
  no_elements (c ∷ cs) h = absurd (h c (inl refl))

  -- A transaction all of whose changes touch tables that it creates and deletes again writes
  -- nothing and succeeds, whatever the database answers.
  pub commit_no_trace :
      (regexes : RegexCrate) (world : World V B) (tx : Transaction V B)
      → ((c : Change V B)
          → Elem c tx.changes
          → (r : ArenaIdx) × (affected_table_ref c ≡ some r)
            × (Elem r (filter_map created_table tx.changes))
            × (Elem r (filter_map deleted_table tx.changes)))
      → commit regexes world tx ≡ ok none
  unfolding commit
  commit_no_trace regexes world tx h = rw (no_elements (new tx.changes) gone, commit) refl
    where
      gone : (c : Change V B) → ¬ Elem c (new tx.changes)
      gone c i =
          let (r, e, made, deleted) =
            h c (Elem-Subseq c (new tx.changes) tx.changes (new-Subseq tx.changes) i) in
          new_created_and_deleted tx.changes c r made deleted e i
