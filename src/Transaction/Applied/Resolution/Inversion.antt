-- ===== src/Transaction/Applied/Resolution/Inversion.antt =====
-- Which changes have a footprint: the functions of Footprint inverted.
use ducklake_sdk.Common.{◌≡◌, refl, subst, ◌⊎◌, inl, inr, Option, none, some, arith, nat_eq}
use ducklake_sdk.Common.Int.{ℤ}
use ducklake_sdk.Common.Text.{Text}
use ducklake_sdk.Typedefs.Regex.{RegexCrate}
use ducklake_sdk.Typedefs.Names.{QualifiedName, parse_qualified_name}
use ducklake_sdk.Typedefs.Layout.{MacroType, scalar, table as table_macro}
use ducklake_sdk.Catalog.Entities.{Catalog}
use ducklake_sdk.Transaction.Applied.{
  AppliedChange, created_schema, created_table, created_view, created_scalar_macro,
  created_table_macro, inserted_into_table, deleted_from_table, compacted_table, inlined_insert,
  inlined_delete, dropped_schema, dropped_table, dropped_view, dropped_scalar_macro,
  dropped_table_macro, altered_table, altered_view,
}
use ducklake_sdk.Transaction.Applied.Footprint.{
  Object, schema, table, view, macro, creates_schema, creates_relation, creates_macro, drops,
  alters, inserts_into, deletes_from, compacts, home, schema_of,
}

pub creator_of_schema :
    (c : AppliedChange) (n : Text) → creates_schema c ≡ some n → c ≡ created_schema n
creator_of_schema (created_schema name) n h = ground arith
creator_of_schema _ n h = cc

pub creator_of_relation :
    (c : AppliedChange) (n : QualifiedName)
    → creates_relation c ≡ some n
    → (c ≡ created_table n) ⊎ (c ≡ created_view n)
creator_of_relation (created_table name) n h = ground arith
creator_of_relation (created_view name) n h = ground arith
creator_of_relation _ n h = cc

pub creator_of_macro :
    (c : AppliedChange) (kind : MacroType) (n : Text)
    → creates_macro c ≡ some (kind, n)
    → ((kind ≡ scalar) × (c ≡ created_scalar_macro n))
      ⊎ ((kind ≡ table_macro) × (c ≡ created_table_macro n))
creator_of_macro (created_scalar_macro name) kind n h = ground arith
creator_of_macro (created_table_macro name) kind n h = ground arith
creator_of_macro _ kind n h = cc

-- `P` of the object, if there is one.
abbrev IfSome : (Object → Type 0) → Option Object → Type 0
IfSome P none = Unit {0}
IfSome P (some o) = P o

abbrev pub Dropper : AppliedChange → Object → Type 0
Dropper c (schema id) = c ≡ dropped_schema id
Dropper c (table id) = c ≡ dropped_table id
Dropper c (view id) = c ≡ dropped_view id
Dropper c (macro id) = (c ≡ dropped_scalar_macro id) ⊎ (c ≡ dropped_table_macro id)

Dropper-self : (c : AppliedChange) → IfSome (Dropper c) (drops c)
Dropper-self (dropped_schema id) = refl
Dropper-self (dropped_table id) = refl
Dropper-self (dropped_view id) = refl
Dropper-self (dropped_scalar_macro id) = inl refl
Dropper-self (dropped_table_macro id) = inr refl
Dropper-self _ = tt

pub dropper : (c : AppliedChange) (o : Object) → drops c ≡ some o → Dropper c o
dropper c o h = subst (IfSome (Dropper c)) h (Dropper-self c)

abbrev pub Alterer : AppliedChange → Object → Type 0
Alterer c (table id) = c ≡ altered_table id
Alterer c (view id) = c ≡ altered_view id
Alterer c _ = ⊥

Alterer-self : (c : AppliedChange) → IfSome (Alterer c) (alters c)
Alterer-self (altered_table id) = refl
Alterer-self (altered_view id) = refl
Alterer-self _ = tt

pub alterer : (c : AppliedChange) (o : Object) → alters c ≡ some o → Alterer c o
alterer c o h = subst (IfSome (Alterer c)) h (Alterer-self c)

pub inserter :
    (c : AppliedChange) (id : ℤ)
    → inserts_into c ≡ some id
    → (c ≡ inserted_into_table id) ⊎ (c ≡ inlined_insert id)
inserter (inserted_into_table i) id h = ground arith
inserter (inlined_insert i) id h = ground arith
inserter _ id h = cc

pub deleter :
    (c : AppliedChange) (id : ℤ)
    → deletes_from c ≡ some id
    → (c ≡ deleted_from_table id) ⊎ (c ≡ inlined_delete id)
deleter (deleted_from_table i) id h = ground arith
deleter (inlined_delete i) id h = ground arith
deleter _ id h = cc

pub compactor : (c : AppliedChange) (id : ℤ) → compacts c ≡ some id → c ≡ compacted_table id
compactor (compacted_table i) id h = ground arith
compactor _ id h = cc

-- A change that creates something in a schema.
abbrev pub Creator : RegexCrate → AppliedChange → Text → Type 0
Creator regexes c s =
    ((n : QualifiedName) × ((c ≡ created_table n) ⊎ (c ≡ created_view n)) × (n.schema ≡ s))
    ⊎ ((n : Text) × ((c ≡ created_scalar_macro n) ⊎ (c ≡ created_table_macro n))
        × (schema_of (parse_qualified_name regexes n) ≡ some s))

pub creator :
    {V : Type 0} (regexes : RegexCrate) (catalog : Catalog V) (c : AppliedChange) (s : Text)
    → home regexes catalog c ≡ some s
    → Creator regexes c s
creator regexes catalog (created_table n) s h = inl (n, inl refl, ground arith)
creator regexes catalog (created_view n) s h = inl (n, inr refl, ground arith)
creator regexes catalog (created_scalar_macro n) s h = inr (n, inl refl, h)
creator regexes catalog (created_table_macro n) s h = inr (n, inr refl, h)
creator regexes catalog _ s h = cc
