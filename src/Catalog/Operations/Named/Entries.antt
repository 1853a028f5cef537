-- ===== src/Catalog/Operations/Named/Entries.antt =====
-- Adding tables, views and macros and deleting them (crates/ducklake/src/catalog/mod.rs and catalog/views)
-- keeps the names of the catalog leading to entities of those names.
use ducklake_sdk.Common.{
  ◌≡◌, refl, sym, ap, ◌∙◌, subst, inl, inr, none, some, list_eq, nat_eq, pair_eq,
}
use ducklake_sdk.Common.Dict
use ducklake_sdk.Common.Dict.{insert-cases, remove-cases}
use ducklake_sdk.Common.Text.{Text}
use ducklake_sdk.Common.Error.{Result-split}
use ducklake_sdk.Typedefs.Layout.{MacroType, macro_type_eq}
use ducklake_sdk.Catalog.Arena
use ducklake_sdk.Catalog.Arena.{get, push-cases, set_entity-cases}
use ducklake_sdk.Catalog.Entities.{
  Catalog, ArenaIdx, CatalogSchema, CatalogTable, CatalogView, CatalogMacro,
}
use ducklake_sdk.Catalog.Lookup.{set_schema, inner_schema}
use ducklake_sdk.Catalog.Operations.{write_schema}
use ducklake_sdk.Catalog.Operations.Named.{
  Stands, Holds, IsNamed, Holds-Keeps, IsNamed-Keeps, Stands-push, Stands-set, qualified, macro_key,
}
use ducklake_sdk.Catalog.Operations.Named.Found.{inner_schema-found}
use ducklake_sdk.Catalog.Operations.Named.Schemas.{Keeps-arenas}

module _ {V : Type 0} where
  -- A schema that is written over.
  pub IsNamed-set_schema :
      (c : Catalog V) (i : ArenaIdx) (s u : CatalogSchema)
      → get c.schema_arena i ≡ some s
      → u.name ≡ s.name
      → Holds c u
      → IsNamed c
      → IsNamed (set_schema i u c)
  unfolding set_schema
  IsNamed-set_schema c i s u g e k h = record {
    schemas = λ n j f. Stands-set c.schema_arena i u s (λ s. s.name) j n g e (h.schemas n j f);
    holds = λ n j t l f. elim (set_entity-cases c.schema_arena i u s j t g f) [
      | inl q ↦ subst (Holds _) q (Holds-Keeps c _ u (Keeps-arenas c _ refl refl refl) k)
      | inr q ↦ Holds-Keeps c _ t (Keeps-arenas c _ refl refl refl) (h.holds n j t l q)
    ];
  }

  -- A new entity in an arena.
  abbrev pub pushed_table : CatalogTable V → Catalog V → Catalog V
  pushed_table t c = record c { table_arena = (Arena.push c.table_arena t none).0 }

  abbrev pub pushed_view : CatalogView → Catalog V → Catalog V
  pushed_view v c = record c { view_arena = (Arena.push c.view_arena v none).0 }

  abbrev pub pushed_macro : CatalogMacro → Catalog V → Catalog V
  pushed_macro m c = record c { macro_arena = (Arena.push c.macro_arena m none).0 }

  pub pushed_table-IsNamed :
      (t : CatalogTable V) (c : Catalog V) → IsNamed c → IsNamed (pushed_table t c)
  pushed_table-IsNamed t c h =
      IsNamed-Keeps c _ refl refl
        (record {
          tables = λ i n s. Stands-push c.table_arena t (λ t. t.name) i n s;
          views = λ i n s. s;
          macros = λ i n s. s;
        })
        h

  pub pushed_view-IsNamed :
      (t : CatalogView) (c : Catalog V) → IsNamed c → IsNamed (pushed_view t c)
  pushed_view-IsNamed t c h =
      IsNamed-Keeps c _ refl refl
        (record {
          tables = λ i n s. s;
          views = λ i n s. Stands-push c.view_arena t (λ t. t.name) i n s;
          macros = λ i n s. s;
        })
        h

  pub pushed_macro-IsNamed :
      (t : CatalogMacro) (c : Catalog V) → IsNamed c → IsNamed (pushed_macro t c)
  pushed_macro-IsNamed t c h =
      IsNamed-Keeps c _ refl refl
        (record {
          tables = λ i n s. s;
          views = λ i n s. s;
          macros = λ i n s. Stands-push c.macro_arena t macro_key i n s;
        })
        h

  -- A new entry of a schema.
  pub Holds-insert_table :
      (c : Catalog V) (s : CatalogSchema) (n : Text) (i : ArenaIdx)
      → Stands c.table_arena (λ t. t.name) i (qualified s.name n)
      → Dict.get s.views n ≡ none
      → Holds c s
      → Holds c (record s { tables = Dict.insert s.tables n i })
  Holds-insert_table c s n i st free h = record {
    tables = λ m j g. elim (insert-cases s.tables n i m j g) [
      | inl (e, k) ↦
          subst (λ j. Stands c.table_arena (λ t. t.name) j (qualified s.name m)) k
            (subst (λ m. Stands c.table_arena (λ t. t.name) i (qualified s.name m)) e st)
      | inr (e, k) ↦ h.tables m j k
    ];
    views = h.views;
    macros = h.macros;
    apart = λ m j l g v. elim (insert-cases s.tables n i m j g) [
      | inl (e, k) ↦ clash (sym free ∙ ap (Dict.get s.views) e ∙ v)
      | inr (e, k) ↦ h.apart m j l k v
    ];
  }
    where
      clash : {A : Type 0} {a : A} → none ≡ some a → ⊥
      clash h = cc

  pub Holds-insert_view :
      (c : Catalog V) (s : CatalogSchema) (n : Text) (i : ArenaIdx)
      → Stands c.view_arena (λ t. t.name) i (qualified s.name n)
      → Dict.get s.tables n ≡ none
      → Holds c s
      → Holds c (record s { views = Dict.insert s.views n i })
  Holds-insert_view c s n i st free h = record {
    tables = h.tables;
    views = λ m j g. elim (insert-cases s.views n i m j g) [
      | inl (e, k) ↦
          subst (λ j. Stands c.view_arena (λ t. t.name) j (qualified s.name m)) k
            (subst (λ m. Stands c.view_arena (λ t. t.name) i (qualified s.name m)) e st)
      | inr (e, k) ↦ h.views m j k
    ];
    macros = h.macros;
    apart = λ m j l g v. elim (insert-cases s.views n i m l v) [
      | inl (e, k) ↦ clash (sym free ∙ ap (Dict.get s.tables) e ∙ g)
      | inr (e, k) ↦ h.apart m j l g k
    ];
  }
    where
      clash : {A : Type 0} {a : A} → none ≡ some a → ⊥
      clash h = cc

  pub Holds-insert_macro :
      (c : Catalog V) (s : CatalogSchema) (n : Text × MacroType) (i : ArenaIdx)
      → Stands c.macro_arena macro_key i (s.name, n.0, n.1)
      → Holds c s
      → Holds c (record s { macros = Dict.insert s.macros n i })
  Holds-insert_macro c s n i st h = record {
    tables = h.tables;
    views = h.views;
    macros = λ m j g. elim (insert-cases s.macros n i m j g) [
      | inl (e, k) ↦
          subst (λ j. Stands c.macro_arena macro_key j (s.name, m.0, m.1)) k
            (subst (λ (m : Text × MacroType). Stands c.macro_arena macro_key i (s.name, m.0, m.1)) e
              st)
      | inr (e, k) ↦ h.macros m j k
    ];
    apart = h.apart;
  }

  -- A schema without an entry.
  pub Holds-remove_table :
      (c : Catalog V) (s : CatalogSchema) (n : Text)
      → Holds c s
      → Holds c (record s { tables = Dict.remove s.tables n })
  Holds-remove_table c s n h = record {
    tables = λ m j g. h.tables m j ((remove-cases s.tables n m j g).1);
    views = h.views;
    macros = h.macros;
    apart = λ m j l g v. h.apart m j l ((remove-cases s.tables n m j g).1) v;
  }

  pub Holds-remove_view :
      (c : Catalog V) (s : CatalogSchema) (n : Text)
      → Holds c s
      → Holds c (record s { views = Dict.remove s.views n })
  Holds-remove_view c s n h = record {
    tables = h.tables;
    views = λ m j g. h.views m j ((remove-cases s.views n m j g).1);
    macros = h.macros;
    apart = λ m j l g v. h.apart m j l g ((remove-cases s.views n m l v).1);
  }

  pub Holds-remove_macro :
      (c : Catalog V) (s : CatalogSchema) (n : Text × MacroType)
      → Holds c s
      → Holds c (record s { macros = Dict.remove s.macros n })
  Holds-remove_macro c s n h = record {
    tables = h.tables;
    views = h.views;
    macros = λ m j g. h.macros m j ((remove-cases s.macros n m j g).1);
    apart = h.apart;
  }

  -- A write to a schema that keeps its name, and what it holds.
  pub write_schema-IsNamed :
      (i : ArenaIdx) (f : CatalogSchema → CatalogSchema) (c : Catalog V)
      → ((s : CatalogSchema)
          → get c.schema_arena i ≡ some s
          → ((f s).name ≡ s.name) × Holds c (f s))
      → IsNamed c
      → IsNamed ((write_schema i f c).1)
  unfolding write_schema
  write_schema-IsNamed i f c k h = elim (Result-split (inner_schema c i)) [
    | inl (s, e) ↦
        let g = inner_schema-found c i s e in
        let (n, u) = k s g in rw e (IsNamed-set_schema c i s (f s) g n u h)
    | inr (x, e) ↦ rw e h
  ]
