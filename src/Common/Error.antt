-- ===== src/Common/Error.antt =====
-- crates/ducklake/src/error.rs: the errors that the modelled code raises, and the result monad.
use mathlib.Core.Path.{◌≡◌, refl, ap, ◌∙◌}
use mathlib.Core.Logic.{◌⊎◌, inl, inr}
use mathlib.Core.Bool.{Bool, true, false}
use mathlib.Core.List.{List, [], ◌∷◌}
use mathlib.Core.Option.{Option, none, some}
use native.Mathlib.Omega.{arith}
use ducklake_sdk.Common.Int.{ℤ}
use ducklake_sdk.Common.Text.{Text}

-- What `sqlx::Error` carries is not looked into, but for the kinds that the commit loop tests.
pub data DatabaseError : Type 0 where
  unique_violation table_already_exists row_not_found other : DatabaseError

-- `DucklakeError`, less the variants that no modelled operation raises; the types of an
-- invalid cast are left out. `panicked` is not one of
-- its variants: it stands for a panic of the task.
pub data DucklakeError : Type 0 where
  already_exists : Text → Text → DucklakeError
  not_found : Text → Text → DucklakeError
  entity_not_found : ℤ → DucklakeError
  column_not_found : ℤ → DucklakeError
  invalid_changes : Text → DucklakeError
  invalid_schema_name : Text → DucklakeError
  invalid_qualified_name : Text → DucklakeError
  invalid_column_name : Text → DucklakeError
  invalid_cast : DucklakeError
  invalid_view : Text → DucklakeError
  duplicate_column_name : Text → DucklakeError
  invalid_nullability_change : Text → DucklakeError
  invalid_null_value : Text → DucklakeError
  transaction_conflict : Text → DucklakeError
  retries_exceeded : DucklakeError
  database : DatabaseError → DucklakeError
  parsing : Text → DucklakeError
  panicked : DucklakeError

-- `DucklakeResult`.
pub data Result {ℓ} (A : Type ℓ) : Type ℓ where
  ok : A → Result A
  err : DucklakeError → Result A

infixl 5 ◌>>=◌ ◌>>◌
abbrev pub ◌>>=◌ {ℓ κ} : {A : Type ℓ} {B : Type κ} → Result A → (A → Result B) → Result B
err e >>= next = err e
ok value >>= next = next value

abbrev pub ◌>>◌ {ℓ} : {B : Type ℓ} → Result (Unit {0}) → Result B → Result B
first >> second = first >>= λ u. second

-- `Option::ok_or`.
abbrev pub ok_or {ℓ} : {A : Type ℓ} → Option A → DucklakeError → Result A
ok_or none e = err e
ok_or (some a) e = ok a

-- `Iterator::collect` into a result: the first error wins.
module _ {A B : Type 0} where
  abbrev pub collect : (A → Result B) → List A → Result (List B)
  collect f [] = ok []
  collect f (x ∷ xs) = do y ← f x; ys ← collect f xs; ok (y ∷ ys)

abbrev pub IsOk {ℓ} : {A : Type ℓ} → Result A → Type 0
IsOk (ok a) = Unit
IsOk (err e) = ⊥

pub Result-cases {ℓ} : {A : Type ℓ} (r : Result A) → IsOk r → (a : A) × (r ≡ ok a)
Result-cases (ok a) h = (a, refl)
Result-cases (err e) h = absurd h

-- Where a chain succeeds, each of its parts does.
pub >>=-ok {ℓ κ} :
    {A : Type ℓ} {B : Type κ} (r : Result A) (f : A → Result B) (b : B)
    → (r >>= f) ≡ ok b
    → (a : A) × (r ≡ ok a) × (f a ≡ ok b)
>>=-ok (ok a) f b h = (a, refl, h)
>>=-ok (err e) f b h = cc

pub ok_inj {ℓ} : {A : Type ℓ} (a b : A) → ok a ≡ ok b → a ≡ b
ok_inj a b h = ground arith

pub Result-split {ℓ} :
    {A : Type ℓ} (r : Result A) → ((a : A) × (r ≡ ok a)) ⊎ ((e : DucklakeError) × (r ≡ err e))
Result-split (ok a) = inl (a, refl)
Result-split (err e) = inr (e, refl)

-- Chains are taken apart and put together again.
pub >>=-assoc {ℓ κ μ} :
    {A : Type ℓ} {B : Type κ} {C : Type μ} (r : Result A) (f : A → Result B) (g : B → Result C)
    → ((r >>= f) >>= g) ≡ (r >>= λ a. f a >>= g)
>>=-assoc (ok a) f g = refl
>>=-assoc (err e) f g = refl

pub >>=-ext {ℓ κ} :
    {A : Type ℓ} {B : Type κ} (r : Result A) (f g : A → Result B)
    → ((a : A) → r ≡ ok a → f a ≡ g a)
    → (r >>= f) ≡ (r >>= g)
>>=-ext (ok a) f g h = h a refl
>>=-ext (err e) f g h = refl

pub >>=-pure {ℓ} : {A : Type ℓ} (r : Result A) → (r >>= λ a. ok a) ≡ r
>>=-pure (ok a) = refl
>>=-pure (err e) = refl

-- A chain whose first part succeeds.
pub >>=-through {ℓ κ} :
    {A : Type ℓ} {B : Type κ} (r : Result A) (f : A → Result B) (a : A) (s : Result B)
    → r ≡ ok a
    → f a ≡ s
    → (r >>= f) ≡ s
>>=-through r f a s h k = ap (λ x. x >>= f) h ∙ k

-- `Result::is_ok`.
abbrev pub is_ok {ℓ} : {A : Type ℓ} → Result A → Bool
is_ok (ok a) = true
is_ok (err e) = false

-- `Option::map(…).transpose()`.
abbrev pub transpose {ℓ κ} :
    {A : Type ℓ} {B : Type κ} → (A → Result B) → Option A → Result (Option B)
transpose f none = ok none
transpose f (some a) = f a >>= λ b. ok (some b)

-- A result that is unwrapped: an error is a panic.
abbrev pub unwrap {ℓ} : {A : Type ℓ} → Result A → Result A
unwrap (ok a) = ok a
unwrap (err e) = err panicked
