-- ===== src/Transaction/Handles/Named.antt =====
-- The operations of a transaction (crates/ducklake/src/transaction) keep the names of its catalog leading to
-- entities of those names, also where they fail.
pub mod Schemas
pub mod Tables
pub mod Columns
use ducklake_sdk.Common.{
  ℕ, ◌≡◌, refl, sym, ap, ◌∙◌, subst, inl, inr, Bool, true, false, Bool-cases, ◌&&◌, not, List, [],
  ◌∷◌, Option, none, some, if◌then◌else◌, list_eq, nat_eq,
}
use ducklake_sdk.Common.Run.{
  Run, return, lift, raise, each, ◌>>=◌, ◌>>◌, keeps_bind, keeps_look, keeps_lift,
}
use ducklake_sdk.Common.Error.{Result, ok, err, DucklakeError, is_ok}
use ducklake_sdk.Catalog.Entities.{Catalog, ArenaIdx, CatalogTable}
use ducklake_sdk.Catalog.Operations.Named.{IsNamed}
use ducklake_sdk.Transaction.Change.{Change}
use ducklake_sdk.Transaction.Handles.{
  Transaction, IfExistsStrategy, is_skip, on_catalog, look_catalog, record_change, unless_there,
  if_there, guarded, undo,
}

module _ {V B : Type 0} where
  abbrev pub Sound : Transaction V B → Type 0
  Sound tx = IsNamed tx.catalog

  -- An operation after which the names are as before.
  abbrev pub Keeping : {A : Type 0} → Run (Transaction V B) A → Type 0
  Keeping m = (tx : Transaction V B) → Sound tx → Sound ((m tx).1)

  pub bind-Keeping :
      {A C : Type 0} (m : Run (Transaction V B) A) (k : A → Run (Transaction V B) C)
      → Keeping m
      → ((a : A) → Keeping (k a))
      → Keeping (m >>= k)
  bind-Keeping m k p q tx h = keeps_bind Sound m k tx (p tx h) (λ a t e s. q a t s)

  pub look-Keeping :
      {A C : Type 0} (f : Catalog V → Result A) (k : A → Run (Transaction V B) C)
      → ((a : A) (tx : Transaction V B) → f tx.catalog ≡ ok a → Sound tx → Sound ((k a tx).1))
      → Keeping (look_catalog f >>= k)
  look-Keeping f k p tx h = keeps_look Sound (λ tx. f tx.catalog) k tx h (λ a e. p a tx e h)

  pub lift-Keeping :
      {A C : Type 0} (r : Result A) (k : A → Run (Transaction V B) C)
      → ((a : A) → Keeping (k a))
      → Keeping (lift r >>= k)
  lift-Keeping r k p tx h = keeps_lift Sound r k tx h (λ a e. p a tx h)

  -- An operation on the catalog, and a change that is recorded.
  pub on_catalog-Keeping :
      {A C : Type 0} (m : Run (Catalog V) A) (k : A → Run (Transaction V B) C)
      (tx : Transaction V B)
      → IsNamed ((m tx.catalog).1)
      → ((a : A) → Keeping (k a))
      → Sound (((on_catalog m >>= k) tx).1)
  on_catalog-Keeping m k tx p q = keeps_bind Sound (on_catalog m) k tx p (λ a t e s. q a t s)

  pub record_change-Keeping : (change : Change V B) → Keeping (record_change change)
  record_change-Keeping change tx h = h

  pub unless_there-Keeping :
      {A : Type 0} (strategy : IfExistsStrategy) (find : Catalog V → Result A)
      (m : Run (Transaction V B) (Unit {0}))
      → Keeping m
      → Keeping (unless_there strategy find m)
  unless_there-Keeping strategy find m p tx h =
      elim (Bool-cases (is_skip strategy && is_ok (find tx.catalog))) [
        | inl e ↦ rw e h
        | inr e ↦ rw e (p tx h)
      ]

  pub if_there-Keeping :
      {A : Type 0} (strategy : IfExistsStrategy) (find : Catalog V → Result A)
      (m : Run (Transaction V B) (Unit {0}))
      → Keeping m
      → Keeping (if_there strategy find m)
  if_there-Keeping strategy find m p tx h =
      elim (Bool-cases (is_skip strategy && not (is_ok (find tx.catalog)))) [
        | inl e ↦ rw e h
        | inr e ↦ rw e (p tx h)
      ]

  undo-Sound :
      {A : Type 0} (tx : Transaction V B) (r : Result A × Transaction V B)
      → Sound tx
      → Sound (r.1)
      → Sound ((undo tx r).1)
  undo-Sound tx (ok a, t) h k = k
  undo-Sound tx (err e, t) h k = h

  pub guarded-Keeping : {A : Type 0} (m : Run (Transaction V B) A) → Keeping m → Keeping (guarded m)
  unfolding guarded
  guarded-Keeping m p tx h = undo-Sound tx (m tx) h (p tx h)

  pub if-Keeping :
      {A : Type 0} (b : Bool) (m n : Run (Transaction V B) A)
      → Keeping m
      → Keeping n
      → Keeping (if b then m else n)
  if-Keeping true m n p q = p
  if-Keeping false m n p q = q

  pub each-Keeping :
      {A : Type 0} (f : A → Run (Transaction V B) (Unit {0})) (xs : List A)
      → ((a : A) → Keeping (f a))
      → Keeping (each f xs)
  each-Keeping f [] p tx h = h
  each-Keeping f (x ∷ xs) p tx h =
      bind-Keeping (f x) (λ u. each f xs) (p x) (λ u. each-Keeping f xs p) tx h
