-- ===== src/Transaction/Handles.antt =====
-- crates/ducklake/src/transaction/mod.rs, schema.rs, view.rs, macro_.rs and table.rs: the operations of an
-- open transaction on its catalog and its list of changes. The names they are given have been parsed.
pub mod Schemas
pub mod Tables
pub mod Columns
pub mod Named
pub mod Session
pub mod Rollback
use ducklake_sdk.Common.{
  ℕ, Bool, true, false, List, [], ◌∷◌, ◌++◌, map, ◌&&◌, not, Option, none, some, if◌then◌else◌,
}
use ducklake_sdk.Common.Run.{Run, return, raise, lift, look, modify, ◌>>=◌, ◌>>◌}
use ducklake_sdk.Common.Error.{Result, ok, err, is_ok}
use ducklake_sdk.Catalog.Entities.{Catalog}
use ducklake_sdk.Transaction.Change.{Change}

-- What `Transaction` changes: the catalog that it sees, and the changes so far.
pub record Transaction (V B : Type 0) : Type 0 where
  pub catalog : Catalog V
  pub changes : List (Change V B)

-- `IfExistsStrategy`.
pub data IfExistsStrategy : Type 0 where
  fail skip : IfExistsStrategy

-- `matches!(strategy, IfExistsStrategy::Skip)`.
abbrev pub is_skip : IfExistsStrategy → Bool
is_skip fail = false
is_skip skip = true

module _ {V B : Type 0} where
  -- `catalog_mut()`.
  abbrev pub on_catalog : {A : Type 0} → Run (Catalog V) A → Run (Transaction V B) A
  on_catalog m tx = let (result, c) = m tx.catalog in (result, record tx { catalog = c })

  -- `catalog()`.
  abbrev pub look_catalog : {A : Type 0} → (Catalog V → Result A) → Run (Transaction V B) A
  look_catalog f = look (λ tx. f tx.catalog)

  -- `self.changes.push(change)`.
  abbrev pub record_change : Change V B → Run (Transaction V B) (Unit {0})
  record_change change = modify (λ tx. record tx { changes = tx.changes ++ (change ∷ []) })

  -- An operation that is left out where the strategy is to skip and the entity is there.
  abbrev pub unless_there :
      {A : Type 0}
      → IfExistsStrategy
      → (Catalog V → Result A)
      → Run (Transaction V B) (Unit {0})
      → Run (Transaction V B) (Unit {0})
  unless_there strategy find run tx =
      if is_skip strategy && is_ok (find tx.catalog) then (ok tt, tx) else run tx

  -- The same where the entity is not there.
  abbrev pub if_there :
      {A : Type 0}
      → IfExistsStrategy
      → (Catalog V → Result A)
      → Run (Transaction V B) (Unit {0})
      → Run (Transaction V B) (Unit {0})
  if_there strategy find run tx =
      if is_skip strategy && not (is_ok (find tx.catalog)) then (ok tt, tx) else run tx

  abbrev undo :
      {A : Type 0} → Transaction V B → Result A × Transaction V B → Result A × Transaction V B
  undo before (ok a, tx) = (ok a, tx)
  undo before (err e, tx) = (err e, before)

  -- `TransactionGuard`: an error undoes the changes made under the guard.
  unfoldable pub guarded : {A : Type 0} → Run (Transaction V B) A → Run (Transaction V B) A
  guarded m tx = undo tx (m tx)
