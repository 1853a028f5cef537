-- ===== src/Common/Run.antt =====
-- Code that reads and writes a state and may fail: the state is kept also when it fails.
use ducklake_sdk.Common.{◌≡◌, refl, List, [], ◌∷◌, Option, none, some}
use ducklake_sdk.Common.Error.{Result, ok, err, DucklakeError, panicked}

-- A computation on a state `S` with a result in `A`.
abbrev pub Run : Type 0 → Type 0 → Type 0
Run S A = S → Result A × S

module _ {S : Type 0} where
  abbrev pub return : {A : Type 0} → A → Run S A
  return a s = (ok a, s)

  abbrev pub proceed : {A B : Type 0} → Result A × S → (A → Run S B) → Result B × S
  proceed (ok a, s) k = k a s
  proceed (err e, s) k = (err e, s)

  infixl 5 ◌>>=◌ ◌>>◌
  abbrev pub ◌>>=◌ : {A B : Type 0} → Run S A → (A → Run S B) → Run S B
  ◌>>=◌ m k s = proceed (m s) k

  abbrev pub ◌>>◌ : {B : Type 0} → Run S (Unit {0}) → Run S B → Run S B
  m >> k = m >>= λ u. k

  abbrev pub raise : {A : Type 0} → DucklakeError → Run S A
  raise e s = (err e, s)

  abbrev pub lift : {A : Type 0} → Result A → Run S A
  lift r s = (r, s)

  -- What a read of the state gives, and a write to it.
  abbrev pub look : {A : Type 0} → (S → Result A) → Run S A
  look f s = (f s, s)

  abbrev pub modify : (S → S) → Run S (Unit {0})
  modify f s = (ok tt, f s)

  -- An operation that panics where it has no result.
  abbrev or_panic : {A : Type 0} → S → Option (A × S) → Result A × S
  or_panic s none = (err panicked, s)
  or_panic s (some (a, t)) = (ok a, t)

  abbrev pub ask : {A : Type 0} → (S → Option (A × S)) → Run S A
  ask f s = or_panic s (f s)

  -- `iter().map(f).collect()` where `f` uses the state.
  abbrev pub for_each : {A B : Type 0} → (A → Run S B) → List A → Run S (List B)
  for_each f [] = return []
  for_each f (x ∷ xs) = f x >>= λ y. for_each f xs >>= λ ys. return (y ∷ ys)

  -- A `for` loop with `?` in its body.
  abbrev pub each : {A : Type 0} → (A → Run S (Unit {0})) → List A → Run S (Unit {0})
  each f [] = return tt
  each f (x ∷ xs) = f x >> each f xs

-- What the state satisfies after a chain.
module _ {S : Type 0} (P : S → Type 0) where
  keeps_then :
      {A B : Type 0} (r : Result A × S) (k : A → Run S B)
      → P (r.1)
      → ((a : A) (s : S) → r ≡ (ok a, s) → P s → P ((k a s).1))
      → P ((proceed r k).1)
  keeps_then (ok a, s) k p h = h a s refl p
  keeps_then (err e, s) k p h = p

  keeps_after :
      {A B : Type 0} (r : Result A) (s : S) (k : A → Run S B)
      → P s
      → ((a : A) → r ≡ ok a → P ((k a s).1))
      → P ((proceed (r, s) k).1)
  keeps_after (ok a) s k p h = h a refl
  keeps_after (err e) s k p h = p

  -- After an operation.
  pub keeps_bind :
      {A B : Type 0} (m : Run S A) (k : A → Run S B) (s : S)
      → P ((m s).1)
      → ((a : A) (t : S) → m s ≡ (ok a, t) → P t → P ((k a t).1))
      → P (((m >>= k) s).1)
  keeps_bind m k s p h = keeps_then (m s) k p h

  -- After a read of the state.
  pub keeps_look :
      {A B : Type 0} (f : S → Result A) (k : A → Run S B) (s : S)
      → P s
      → ((a : A) → f s ≡ ok a → P ((k a s).1))
      → P (((look f >>= k) s).1)
  keeps_look f k s p h = keeps_after (f s) s k p h

  -- After a computation that reads no state.
  pub keeps_lift :
      {A B : Type 0} (r : Result A) (k : A → Run S B) (s : S)
      → P s
      → ((a : A) → r ≡ ok a → P ((k a s).1))
      → P (((lift r >>= k) s).1)
  keeps_lift r k s p h = keeps_after r s k p h
