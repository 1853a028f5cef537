-- ===== src/Catalog/Operations/Named/Schemas.antt =====
-- Adding and deleting schemas (crates/ducklake/src/catalog/mod.rs and catalog/views/schema.rs) keeps the
-- names of the catalog leading to entities of those names.
use ducklake_sdk.Common.{
  ◌≡◌, refl, sym, ap, ◌∙◌, subst, ◌&&◌, inl, inr, Bool-cases, [], none, some, list_eq, nat_eq,
  pair_eq,
}
use ducklake_sdk.Common.Dict
use ducklake_sdk.Common.Dict.{insert-cases, remove-cases}
use ducklake_sdk.Common.Text.{Text}
use ducklake_sdk.Common.Error.{Result-split}
use ducklake_sdk.Typedefs.Layout.{DucklakePath, macro_type_eq}
use ducklake_sdk.Catalog.Arena
use ducklake_sdk.Catalog.Arena.{get, get-next, push-cases}
use ducklake_sdk.Catalog.Entities.{Catalog, ArenaIdx, CatalogSchema}
use ducklake_sdk.Catalog.Lookup.{schema_ref, inner_schema}
use ducklake_sdk.Catalog.Operations.{add_schema, push_schema, remove_schema, is_nil}
use ducklake_sdk.Catalog.Operations.Named.{
  Stands, Holds, IsNamed, Keeps, Holds-Keeps, Stands-push, Stands-pushed, macro_key,
}

module _ {V : Type 0} where
  -- Where the other arenas stay.
  pub Keeps-arenas :
      (c d : Catalog V)
      → d.table_arena ≡ c.table_arena
      → d.view_arena ≡ c.view_arena
      → d.macro_arena ≡ c.macro_arena
      → Keeps c d
  Keeps-arenas c d t v m = record {
    tables = λ i n s. subst (λ a. Stands a (λ t. t.name) i n) (sym t) s;
    views = λ i n s. subst (λ a. Stands a (λ t. t.name) i n) (sym v) s;
    macros = λ i n s. subst (λ a. Stands a macro_key i n) (sym m) s;
  }

  -- A new schema with no entries, under its name.
  abbrev with_schema : CatalogSchema → Catalog V → Catalog V
  unfolding push_schema
  with_schema s c =
      let (idx, t) = push_schema s c in
      record t { schemas = Dict.insert c.schemas s.name ((Arena.push c.schema_arena s none).1) }

  empty_Holds :
      (c : Catalog V) (s : CatalogSchema) → s.tables ≡ [] → s.views ≡ [] → s.macros ≡ [] → Holds c s
  unfolding Dict.get
  empty_Holds c s a b d = record {
    tables = λ n i g. absurd (no (ap (λ m. Dict.get m n) (sym a) ∙ g));
    views = λ n i g. absurd (no (ap (λ m. Dict.get m n) (sym b) ∙ g));
    macros = λ n i g. absurd (no (ap (λ m. Dict.get m n) (sym d) ∙ g));
    apart = λ n i j g k. no (ap (λ m. Dict.get m n) (sym a) ∙ g);
  }
    where
      no : {A : Type 0} {a : A} → none ≡ some a → ⊥
      no h = cc

  with_schema-IsNamed :
      (c : Catalog V) (s : CatalogSchema)
      → s.tables ≡ []
      → s.views ≡ []
      → s.macros ≡ []
      → IsNamed c
      → IsNamed (with_schema s c)
  unfolding with_schema push_schema
  with_schema-IsNamed c s a b d h = record {
    schemas = λ n i g.
        elim (insert-cases c.schemas s.name ((Arena.push c.schema_arena s none).1) n i g) [
          | inl (e, k) ↦
              subst (λ j. Stands ((Arena.push c.schema_arena s none).0) (λ s. s.name) j n) k
                (subst
                  (λ m.
                    Stands ((Arena.push c.schema_arena s none).0) (λ s. s.name)
                      ((Arena.push c.schema_arena s none).1) m)
                  e (Stands-pushed c.schema_arena s (λ s. s.name)))
          | inr (e, k) ↦ Stands-push c.schema_arena s (λ s. s.name) i n (h.schemas n i k)
        ];
    holds = λ n i t f g. elim (push-cases c.schema_arena s i t g) [
      | inl e ↦ subst (Holds (with_schema s c)) e (empty_Holds (with_schema s c) s a b d)
      | inr e ↦ elim (insert-cases c.schemas s.name ((Arena.push c.schema_arena s none).1) n i f) [
        | inl (m, k) ↦
            absurd (fresh (sym (get-next c.schema_arena s) ∙ ap (get c.schema_arena) k ∙ e))
        | inr (m, k) ↦
            Holds-Keeps c (with_schema s c) t (Keeps-arenas c (with_schema s c) refl refl refl)
              (h.holds n i t k e)
      ]
    ];
  }
    where
      fresh : {t : CatalogSchema} → none ≡ some t → ⊥
      fresh h = cc

  pub add_schema-IsNamed :
      (name : Text) (path : DucklakePath) (c : Catalog V)
      → IsNamed c
      → IsNamed ((add_schema name path c).1)
  unfolding add_schema with_schema push_schema
  add_schema-IsNamed name path c h =
      let s : CatalogSchema = record {
        id = none;
        name = name;
        tables = [];
        views = [];
        macros = [];
        path = path;
      } in
      elim (Result-split (schema_ref c name)) [
        | inl (i, e) ↦ rw e h
        | inr (x, e) ↦ rw e (with_schema-IsNamed c s refl refl refl h)
      ]

  -- Removing a name.
  without_schema-IsNamed :
      (c : Catalog V) (name : Text)
      → IsNamed c
      → IsNamed (record c { schemas = Dict.remove c.schemas name })
  without_schema-IsNamed c name h = record {
    schemas = λ n i g. h.schemas n i ((remove-cases c.schemas name n i g).1);
    holds = λ n i s f g.
        Holds-Keeps c _ s (Keeps-arenas c _ refl refl refl)
          (h.holds n i s ((remove-cases c.schemas name n i f).1) g);
  }

  pub remove_schema-IsNamed :
      (i : ArenaIdx) (c : Catalog V) → IsNamed c → IsNamed ((remove_schema i c).1)
  unfolding remove_schema
  remove_schema-IsNamed i c h = elim (Result-split (inner_schema c i)) [
    | inl (s, e) ↦ elim (Bool-cases (is_nil s.tables && is_nil s.views && is_nil s.macros)) [
      | inl b ↦ rw (e, b) (without_schema-IsNamed c s.name h)
      | inr b ↦ rw (e, b) h
    ]
    | inr (x, e) ↦ rw e h
  ]
