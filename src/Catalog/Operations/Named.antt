-- ===== src/Catalog/Operations/Named.antt =====
-- The names of the catalog of crates/ducklake/src/catalog/mod.rs lead to entities of those names.
pub mod Found
pub mod Schemas
pub mod Entries
pub mod Remove
pub mod Add
pub mod Rename
pub mod Lookup
pub mod Effect
use ducklake_sdk.Common.{
  ℕ, ◌≡◌, ◌≢◌, refl, sym, ap, ◌∙◌, subst, inl, inr, Bool, true, false, Bool-cases, Option, none,
  some, nat_beq, nat_beq_iff, if◌then◌else◌, arith, list_eq, nat_eq, pair_eq,
}
use ducklake_sdk.Common.Dict
use ducklake_sdk.Common.Text.{Text}
use ducklake_sdk.Typedefs.Names.{QualifiedName}
use ducklake_sdk.Typedefs.Layout.{MacroType, macro_type_eq}
use ducklake_sdk.Catalog.Arena
use ducklake_sdk.Catalog.Arena.{get, get-push, get-next, get-set_entity}
use ducklake_sdk.Catalog.Entities.{
  Catalog, ArenaIdx, CatalogSchema, CatalogTable, CatalogView, CatalogMacro,
}
use ducklake_sdk.Catalog.Lookup.{to_ascii_lowercase, set_schema, set_table}

abbrev pub qualified : Text → Text → QualifiedName
qualified s n = record { schema = s; name = n }

-- An entity stands at a place and has a name.
abbrev pub Stands : {T N : Type 0} → Arena.Arena T → (T → N) → ArenaIdx → N → Type 0
Stands {T} a name i n = (t : T) × (get a i ≡ some t) × (name t ≡ n)

-- The name of a macro within its schema.
abbrev pub macro_key : CatalogMacro → Text × Text × MacroType
macro_key m = (m.name.schema, to_ascii_lowercase m.name.name, m.macro_type)

module _ {V : Type 0} where
  -- The entries of a schema lead to entities of this schema with the name of the entry. No table has the
  -- name of a view.
  pub record Holds (c : Catalog V) (s : CatalogSchema) : Type 0 where
    pub tables :
        (n : Text) (i : ArenaIdx)
        → Dict.get s.tables n ≡ some i
        → Stands c.table_arena (λ t. t.name) i (qualified s.name n)
    pub views :
        (n : Text) (i : ArenaIdx)
        → Dict.get s.views n ≡ some i
        → Stands c.view_arena (λ v. v.name) i (qualified s.name n)
    pub macros :
        (k : Text × MacroType) (i : ArenaIdx)
        → Dict.get s.macros k ≡ some i
        → Stands c.macro_arena macro_key i (s.name, k.0, k.1)
    pub apart :
        (n : Text) (i j : ArenaIdx) → Dict.get s.tables n ≡ some i → ¬ (Dict.get s.views n ≡ some j)

  -- Every name leads to a schema of that name, which holds what its entries say.
  pub record IsNamed (c : Catalog V) : Type 0 where
    pub schemas :
        (n : Text) (i : ArenaIdx)
        → Dict.get c.schemas n ≡ some i
        → Stands c.schema_arena (λ s. s.name) i n
    pub holds :
        (n : Text) (i : ArenaIdx) (s : CatalogSchema)
        → Dict.get c.schemas n ≡ some i
        → get c.schema_arena i ≡ some s
        → Holds c s

  -- Every table, view and macro of `c` stands in `d` under the same name.
  pub record Keeps (c d : Catalog V) : Type 0 where
    pub tables :
        (i : ArenaIdx) (n : QualifiedName)
        → Stands c.table_arena (λ t. t.name) i n
        → Stands d.table_arena (λ t. t.name) i n
    pub views :
        (i : ArenaIdx) (n : QualifiedName)
        → Stands c.view_arena (λ t. t.name) i n
        → Stands d.view_arena (λ t. t.name) i n
    pub macros :
        (i : ArenaIdx) (n : Text × Text × MacroType)
        → Stands c.macro_arena macro_key i n
        → Stands d.macro_arena macro_key i n

  pub Holds-Keeps : (c d : Catalog V) (s : CatalogSchema) → Keeps c d → Holds c s → Holds d s
  Holds-Keeps c d s k h = record {
    tables = λ n i e. k.tables i (qualified s.name n) (h.tables n i e);
    views = λ n i e. k.views i (qualified s.name n) (h.views n i e);
    macros = λ n i e. k.macros i (s.name, n.0, n.1) (h.macros n i e);
    apart = h.apart;
  }

  -- Where the schemas stay, the names stay.
  pub IsNamed-Keeps :
      (c d : Catalog V)
      → d.schemas ≡ c.schemas
      → d.schema_arena ≡ c.schema_arena
      → Keeps c d
      → IsNamed c
      → IsNamed d
  IsNamed-Keeps c d e a k h = record {
    schemas = λ n i g.
        subst (λ x. Stands x (λ s. s.name) i n) (sym a)
          (h.schemas n i (ap (λ m. Dict.get m n) (sym e) ∙ g));
    holds = λ n i s f g.
        Holds-Keeps c d s k
          (h.holds n i s (ap (λ m. Dict.get m n) (sym e) ∙ f) (ap (λ x. get x i) (sym a) ∙ g));
  }

-- An entity stands also where another has been pushed.
pub Stands-push :
    {T N : Type 0} (a : Arena.Arena T) (x : T) (name : T → N) (i : ArenaIdx) (n : N)
    → Stands a name i n
    → Stands ((Arena.push a x none).0) name i n
Stands-push a x name i n (t, g, e) = elim (Bool-cases (nat_beq ((Arena.push a x none).1) i)) [
  | inl b ↦ absurd (
      let next = get-next a x in
      let same = (nat_beq_iff ((Arena.push a x none).1) i).0 b in
      none-some (sym next ∙ ap (get a) same ∙ g))
  | inr b ↦ (t, get-push a x i ∙ ap (λ z. if z then some x else get a i) b ∙ g, e)
]
  where
    none-some : {A : Type 0} {a : A} → none ≡ some a → ⊥
    none-some h = cc

-- An entity that is pushed stands.
pub Stands-pushed :
    {T N : Type 0} (a : Arena.Arena T) (x : T) (name : T → N)
    → Stands ((Arena.push a x none).0) name ((Arena.push a x none).1) (name x)
Stands-pushed a x name =
    let same = (nat_beq_iff ((Arena.push a x none).1) ((Arena.push a x none).1)).1 refl in
    (
      x,
      get-push a x ((Arena.push a x none).1)
          ∙ ap (λ z. if z then some x else get a ((Arena.push a x none).1)) same,
      refl,
    )

-- An entity stands also where another, or itself, has been written over under the same name.
pub Stands-set :
    {T N : Type 0} (a : Arena.Arena T) (j : ArenaIdx) (x y : T) (name : T → N) (i : ArenaIdx)
    (n : N)
    → get a j ≡ some y
    → name x ≡ name y
    → Stands a name i n
    → Stands (Arena.set_entity a j x) name i n
Stands-set a j x y name i n h k (t, g, e) = elim (Bool-cases (nat_beq j i)) [
  | inl b ↦ (
    x,
    get-set_entity a j x y i h ∙ ap (λ z. if z then some x else get a i) b,
    k ∙ ap name (same b) ∙ e,
  )
  | inr b ↦ (t, get-set_entity a j x y i h ∙ ap (λ z. if z then some x else get a i) b ∙ g, e)
]
  where
    same : nat_beq j i ≡ true → y ≡ t
    same b = let s = sym h ∙ ap (get a) ((nat_beq_iff j i).0 b) ∙ g in cc
