-- ===== src/Catalog/Operations/Named/Rename.antt =====
-- Renaming a table (crates/ducklake/src/catalog/views/table.rs), and other updates of a table, keep the
-- names of the catalog leading to entities of those names.
use ducklake_sdk.Common.{
  ◌≡◌, ◌≢◌, refl, sym, ap, ◌∙◌, subst, inl, inr, Bool, true, false, Bool-cases, ◌⊎◌, nat_beq,
  nat_beq_iff, if◌then◌else◌, Option, none, some, list_beq, list_beq_iff, list_eq, nat_eq, pair_eq,
}
use ducklake_sdk.Common.Dict
use ducklake_sdk.Common.Dict.{insert-cases, remove-cases, is_some}
use ducklake_sdk.Common.Text.{Text}
use ducklake_sdk.Common.Error.{Result, ok, Result-split}
use ducklake_sdk.Typedefs.Names.{QualifiedName}
use ducklake_sdk.Typedefs.Layout.{macro_type_eq}
use ducklake_sdk.Catalog.Arena
use ducklake_sdk.Catalog.Arena.{get, get-set_entity, set_entity-cases}
use ducklake_sdk.Catalog.Entities.{Catalog, ArenaIdx, CatalogSchema, CatalogTable}
use ducklake_sdk.Catalog.Lookup.{set_schema, set_table, schema_ref, inner_table, table_ref}
use ducklake_sdk.Catalog.Operations.{write_schema, rename, on_table, updated}
use ducklake_sdk.Catalog.Operations.Named.{
  Stands, Holds, IsNamed, IsNamed-Keeps, Stands-set, qualified,
}
use ducklake_sdk.Catalog.Operations.Named.Found.{
  schema_ref-there, inner_schema-there, inner_table-found, table_ref-found,
}

-- An entity stands also where another has been written over.
Stands-set_ne :
    {T N : Type 0} (a : Arena.Arena T) (j : ArenaIdx) (x y : T) (name : T → N) (i : ArenaIdx)
    (n : N)
    → get a j ≡ some y
    → j ≢ i
    → Stands a name i n
    → Stands (Arena.set_entity a j x) name i n
Stands-set_ne a j x y name i n h k (t, g, e) = elim (Bool-cases (nat_beq j i)) [
  | inl b ↦ absurd (k ((nat_beq_iff j i).0 b))
  | inr b ↦ (t, get-set_entity a j x y i h ∙ ap (λ z. if z then some x else get a i) b ∙ g, e)
]

pub Stands-written :
    {T N : Type 0} (a : Arena.Arena T) (j : ArenaIdx) (x y : T) (name : T → N)
    → get a j ≡ some y
    → Stands (Arena.set_entity a j x) name j (name x)
Stands-written a j x y name h =
    let same = (nat_beq_iff j j).1 refl in
    (x, get-set_entity a j x y j h ∙ ap (λ z. if z then some x else get a j) same, refl)

-- Only one entity stands at a place.
pub Stands-same :
    {T N : Type 0} (a : Arena.Arena T) (i : ArenaIdx) (t : T) (name : T → N) (n : N)
    → get a i ≡ some t
    → Stands a name i n
    → name t ≡ n
Stands-same a i t name n g (u, h, e) = let same : some t ≡ some u = sym g ∙ h in cc

abbrev pub renamed_schema : CatalogSchema → Text → Text → ArenaIdx → CatalogSchema
renamed_schema s old new i = record s { tables = Dict.insert (Dict.remove s.tables old) new i }

module _ {V : Type 0} where
  abbrev pub renamed_table : CatalogTable V → Text → CatalogTable V
  renamed_table t new = record t { name = qualified t.name.schema new }

  abbrev pub renamed :
      Catalog V → ArenaIdx → CatalogSchema → ArenaIdx → CatalogTable V → Text → Catalog V
  renamed c j s i t new =
      set_table i (renamed_table t new) (set_schema j (renamed_schema s t.name.name new i) c)

  -- What a table and its schema are before a renaming.
  pub record Placed (c : Catalog V) (j : ArenaIdx) (s : CatalogSchema) (i : ArenaIdx)
      (t : CatalogTable V) : Type 0 where
    pub live : Dict.get c.schemas s.name ≡ some j
    pub schema : get c.schema_arena j ≡ some s
    pub entry : Dict.get s.tables t.name.name ≡ some i
    pub table : get c.table_arena i ≡ some t
    pub named : t.name ≡ qualified s.name t.name.name

  module _ (c : Catalog V) (j : ArenaIdx) (s : CatalogSchema) (i : ArenaIdx) (t : CatalogTable V)
      (new : Text) where
    -- A schema of another name, or an entry of another name, does not notice.
    Stands-renamed :
        (l : ArenaIdx) (n : QualifiedName)
        → Placed c j s i t
        → n ≢ t.name
        → Stands c.table_arena (λ t. t.name) l n
        → Stands (Arena.set_entity c.table_arena i (renamed_table t new)) (λ t. t.name) l n
    Stands-renamed l n p ne st = elim (Bool-cases (nat_beq i l)) [
      | inl b ↦ absurd (
          ne (
            sym (
              Stands-same c.table_arena l t (λ t. t.name) n
                (ap (get c.table_arena) (sym ((nat_beq_iff i l).0 b)) ∙ p.table) st)))
      | inr b ↦
          Stands-set_ne c.table_arena i (renamed_table t new) t (λ t. t.name) l n p.table
            (λ e. clash ((nat_beq_iff i l).1 e) b) st
    ]
      where
        clash : {b : Bool} → b ≡ true → b ≡ false → ⊥
        clash h k = cc

    Holds-renamed :
        Placed c j s i t
        → Dict.get s.views new ≡ none
        → Holds c s
        → Holds (renamed c j s i t new) (renamed_schema s t.name.name new i)
    unfolding set_table set_schema
    Holds-renamed p free h = record {
      tables = λ n l g. elim (insert-cases (Dict.remove s.tables t.name.name) new i n l g) [
        | inl (e, k) ↦
            subst
              (λ l.
                Stands (Arena.set_entity c.table_arena i (renamed_table t new)) (λ t. t.name) l
                  (qualified s.name n))
              k
              (subst
                (λ m.
                  Stands (Arena.set_entity c.table_arena i (renamed_table t new)) (λ t. t.name) i m)
                (ap (λ (m : QualifiedName). qualified m.schema new) p.named
                  ∙ ap (qualified s.name) e)
                (Stands-written c.table_arena i (renamed_table t new) t (λ t. t.name) p.table))
        | inr (e, k) ↦
            let (other, at) = remove-cases s.tables t.name.name n l k in
            Stands-renamed l (qualified s.name n) p (λ q. other (sym (ap (λ m. m.name) q)))
              (h.tables n l at)
      ];
      views = h.views;
      macros = h.macros;
      apart = λ n k l g v. elim (insert-cases (Dict.remove s.tables t.name.name) new i n k g) [
        | inl (e, q) ↦ clash (sym free ∙ ap (Dict.get s.views) e ∙ v)
        | inr (e, q) ↦ h.apart n k l ((remove-cases s.tables t.name.name n k q).1) v
      ];
    }
      where
        clash : {A : Type 0} {a : A} → none ≡ some a → ⊥
        clash h = cc

    Holds-other :
        (u : CatalogSchema)
        → Placed c j s i t
        → u.name ≢ s.name
        → Holds c u
        → Holds (renamed c j s i t new) u
    unfolding set_table set_schema
    Holds-other u p ne h = record {
      tables = λ n l g.
          Stands-renamed l (qualified u.name n) p
            (λ q. ne (ap (λ m. m.schema) q ∙ ap (λ m. m.schema) p.named)) (h.tables n l g);
      views = h.views;
      macros = h.macros;
      apart = h.apart;
    }

    -- The schema that has been written over.
    written :
        (w : CatalogSchema)
        → Placed c j s i t
        → get (Arena.set_entity c.schema_arena j (renamed_schema s t.name.name new i)) j ≡ some w
        → renamed_schema s t.name.name new i ≡ w
    written w p g =
        let (u, a, e) =
          Stands-written c.schema_arena j (renamed_schema s t.name.name new i) s (λ s. s)
            p.schema in
        let same : some u ≡ some w = sym a ∙ g in cc

    renamed-IsNamed :
        Placed c j s i t → Dict.get s.views new ≡ none → IsNamed c → IsNamed (renamed c j s i t new)
    unfolding set_table set_schema
    renamed-IsNamed p free h = record {
      schemas = λ n k f.
          Stands-set c.schema_arena j (renamed_schema s t.name.name new i) s (λ s. s.name) k n
            p.schema refl (h.schemas n k f);
      holds = λ n k w f g. elim (Bool-cases (list_beq n s.name)) [
        | inl b ↦
            let e = (list_beq_iff n s.name).0 b in
            subst (Holds (renamed c j s i t new))
              (written w p (
                subst
                  (λ k.
                    get (Arena.set_entity c.schema_arena j (renamed_schema s t.name.name new i)) k
                    ≡ some w)
                  (same (sym f ∙ ap (Dict.get c.schemas) e ∙ p.live)) g))
              (Holds-renamed p free (h.holds s.name j s p.live p.schema))
        | inr b ↦ other n k w f b (
            set_entity-cases c.schema_arena j (renamed_schema s t.name.name new i) s k w p.schema g)
      ];
    }
      where
        same : {a b : ArenaIdx} → some a ≡ some b → a ≡ b
        same h = cc

        clash : {b : Bool} → b ≡ true → b ≡ false → ⊥
        clash h k = cc

        other :
            (n : Text) (k : ArenaIdx) (w : CatalogSchema)
            → Dict.get c.schemas n ≡ some k
            → list_beq n s.name ≡ false
            → (renamed_schema s t.name.name new i ≡ w) ⊎ (get c.schema_arena k ≡ some w)
            → Holds (renamed c j s i t new) w
        other n k w f b (inl q) =
            subst (Holds (renamed c j s i t new)) q
              (Holds-renamed p free (h.holds s.name j s p.live p.schema))
        other n k w f b (inr q) =
            let name = Stands-same c.schema_arena k w (λ s. s.name) n q (h.schemas n k f) in
            Holds-other w p (λ e. clash ((list_beq_iff n s.name).1 (sym name ∙ e)) b)
              (h.holds n k w f q)

  -- What a reference by name leads to.
  pub table_ref-Placed :
      (c : Catalog V) (old : QualifiedName) (i : ArenaIdx) (t : CatalogTable V)
      → IsNamed c
      → table_ref c old ≡ ok i
      → get c.table_arena i ≡ some t
      → (j : ArenaIdx) × (s : CatalogSchema) × (Placed c j s i t) × (t.name ≡ old)
  table_ref-Placed c old i t h r g =
      let (j, s, a, b, e) = table_ref-found c old i r in
      let name =
        Stands-same c.schema_arena j s (λ s. s.name) old.schema b (h.schemas old.schema j a) in
      let holds = h.holds old.schema j s a b in
      let table =
        Stands-same c.table_arena i t (λ t. t.name) (qualified s.name old.name) g
          (holds.tables old.name i e) in
      let last = ap (λ (m : QualifiedName). m.name) table in
      (
        j,
        s,
        record {
          live = ap (Dict.get c.schemas) name ∙ a;
          schema = b;
          entry = ap (Dict.get s.tables) last ∙ e;
          table = g;
          named = table ∙ ap (qualified s.name) (sym last);
        },
        table ∙ ap (λ n. qualified n old.name) name,
      )

  -- Renaming the table that a name leads to.
  pub rename-IsNamed :
      (old : QualifiedName) (i : ArenaIdx) (new : Text) (c : Catalog V)
      → table_ref c old ≡ ok i
      → IsNamed c
      → IsNamed ((rename i new c).1)
  unfolding rename write_schema
  rename-IsNamed old i new c r h = elim (Result-split (inner_table c i)) [
    | inr (x, e) ↦ rw e h
    | inl (t, e) ↦
        let (j, s, p, name) = table_ref-Placed c old i t h r (inner_table-found c i t e) in
        let f : schema_ref c t.name.schema ≡ ok j =
          ap (λ (m : QualifiedName). schema_ref c m.schema) p.named
          ∙ schema_ref-there c s.name j p.live in
        let g = inner_schema-there c j s p.schema in
        elim (Bool-cases (is_some (Dict.get s.tables new))) [
          | inl b ↦ rw (e, f, g, b) h
          | inr b ↦ elim (Bool-cases (is_some (Dict.get s.views new))) [
            | inl v ↦ rw (e, f, g, b, v) h
            | inr v ↦
                rw (e, f, g, b, v, p.entry, g)
                  (renamed-IsNamed c j s i t new p (is_some-false _ v) h)
          ]
        ]
  ]
    where
      is_some-false : {A : Type 0} (o : Option A) → is_some o ≡ false → o ≡ none
      is_some-false none e = refl
      is_some-false (some a) e = cc

  -- An update of a table that keeps its name.
  pub on_table-IsNamed :
      {A : Type 0} (i : ArenaIdx) (f : CatalogTable V → Result (A × CatalogTable V)) (c : Catalog V)
      → ((t u : CatalogTable V) (a : A) → f t ≡ ok (a, u) → u.name ≡ t.name)
      → IsNamed c
      → IsNamed ((on_table i f c).1)
  unfolding on_table updated set_table
  on_table-IsNamed i f c k h = elim (Result-split (inner_table c i)) [
    | inr (x, e) ↦ rw e h
    | inl (t, e) ↦ elim (Result-split (f t)) [
      | inr (x, g) ↦ rw (e, g) h
      | inl ((a, u), g) ↦
          rw (e, g)
            (IsNamed-Keeps c _ refl refl
              (record {
                tables = λ l n s.
                    Stands-set c.table_arena i u t (λ t. t.name) l n (inner_table-found c i t e)
                      (k t u a g) s;
                views = λ l n s. s;
                macros = λ l n s. s;
              })
              h)
    ]
  ]
