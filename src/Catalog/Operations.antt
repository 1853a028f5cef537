-- ===== src/Catalog/Operations.antt =====
-- crates/ducklake/src/catalog/mod.rs and the mutations of catalog/views: operations on the catalog, which
-- keep what they did before an error.
pub mod Named
use ducklake_sdk.Common.{
  ℕ, Bool, true, false, List, [], ◌∷◌, ◌++◌, map, ◌&&◌, not, Option, none, some, if◌then◌else◌,
  list_eq, nat_eq, pair_eq,
}
use ducklake_sdk.Common.Dict
use ducklake_sdk.Common.Run.{Run, return, raise, lift, look, modify, ◌>>=◌, ◌>>◌}
use ducklake_sdk.Common.Int.{ℤ}
use ducklake_sdk.Common.Text.{Text, codes}
use ducklake_sdk.Common.Error.{
  Result, ok, err, DucklakeError, is_ok, ok_or, transpose, unwrap, already_exists, invalid_changes,
  panicked,
}
use ducklake_sdk.Typedefs.Names.{QualifiedName, display_qualified_name}
use ducklake_sdk.Typedefs.Tags.{Tags}
use ducklake_sdk.Typedefs.Schema.{Column}
use ducklake_sdk.Typedefs.Layout.{
  DucklakePath, PartitionColumn, SortExpression, MacroType, MacroImplementation, macro_type_eq,
}
use ducklake_sdk.Catalog.Arena
use ducklake_sdk.Catalog.Entities.{
  Catalog, ArenaIdx, CatalogSchema, CatalogTable, CatalogView, CatalogMacro, ColumnRef,
  CatalogTablePartition,
}
use ducklake_sdk.Catalog.Lookup.{
  to_ascii_lowercase, inner_schema, inner_table, inner_view, inner_macro, set_schema, set_table,
  schema_ref, table_ref, view_ref, macro_ref, refuse,
}
use ducklake_sdk.Catalog.Layout.{from_partition, from_sort_info}
use ducklake_sdk.Catalog.Columns.{root_column_indices}
use ducklake_sdk.Catalog.Columns.Add.{from_schema}

-- `TableInfo`. The schema is its columns, in order.
pub record TableInfo (V : Type 0) : Type 0 where
  pub name : QualifiedName
  pub schema : List (Column V)
  pub partitioning : Option (List PartitionColumn)
  pub sort_info : Option (List SortExpression)
  pub tags : Tags

-- `ViewInfo`.
pub record ViewInfo : Type 0 where
  pub name : QualifiedName
  pub sql : Text
  pub dialect : Text
  pub column_aliases : Option (List Text)
  pub tags : Tags

-- `MacroInfo`.
pub record MacroInfo : Type 0 where
  pub name : QualifiedName
  pub macro_type : MacroType
  pub implementations : List MacroImplementation

abbrev is_nil : {A : Type 0} → List A → Bool
is_nil [] = true
is_nil (x ∷ xs) = false

abbrev pub refs_of : ArenaIdx → List ArenaIdx → List ColumnRef
refs_of table = map (λ idx. record { table_ref = table; column_idx = idx })

-- `p.columns.iter().map(|col| (table_idx, col.column).into()).collect()`.
abbrev pub partition_refs : ArenaIdx → Option CatalogTablePartition → Option (List ColumnRef)
partition_refs table none = none
partition_refs table (some p) = some (refs_of table (map (λ col. col.column) p.columns))

module _ {V : Type 0} where
  -- Entities that are pushed to their arena.
  abbrev push_schema : CatalogSchema → Run (Catalog V) ArenaIdx
  unfolding Arena.push
  push_schema s c =
      let (arena, idx) = Arena.push c.schema_arena s none in
      (ok idx, record c { schema_arena = arena })

  abbrev push_table : CatalogTable V → Run (Catalog V) ArenaIdx
  unfolding Arena.push
  push_table t c =
      let (arena, idx) = Arena.push c.table_arena t none in
      (ok idx, record c { table_arena = arena })

  abbrev push_view : CatalogView → Run (Catalog V) ArenaIdx
  unfolding Arena.push
  push_view v c =
      let (arena, idx) = Arena.push c.view_arena v none in (ok idx, record c { view_arena = arena })

  abbrev push_macro : CatalogMacro → Run (Catalog V) ArenaIdx
  unfolding Arena.push
  push_macro m c =
      let (arena, idx) = Arena.push c.macro_arena m none in
      (ok idx, record c { macro_arena = arena })

  -- A write to a schema.
  abbrev pub write_schema : ArenaIdx → (CatalogSchema → CatalogSchema) → Run (Catalog V) (Unit {0})
  unfolding inner_schema set_schema
  write_schema idx f = look (λ c. inner_schema c idx) >>= λ s. modify (set_schema idx (f s))

  -- `Catalog::add_schema`.
  unfoldable pub add_schema : Text → DucklakePath → Run (Catalog V) ArenaIdx
  unfolding push_schema schema_ref Dict.insert
  add_schema name path = do
    look (λ c.
        if is_ok (schema_ref c name) then err (already_exists (codes "schema") name) else ok tt)
    idx ←
        push_schema
          (record { id = none; name = name; tables = []; views = []; macros = []; path = path })
    modify (λ c. record c { schemas = Dict.insert c.schemas name idx })
    return idx

  -- `Catalog::add_macro`.
  unfoldable pub add_macro : MacroInfo → Run (Catalog V) (ArenaIdx × ArenaIdx)
  unfolding push_macro write_schema schema_ref macro_ref inner_macro to_ascii_lowercase Dict.insert
  add_macro m = do
    look (λ c.
        refuse (macro_ref c m.name m.macro_type) (λ idx. inner_macro c idx) (λ found. found.name)
          (codes "macro"))
    idx ← push_macro (record {
      id = none;
      name = m.name;
      macro_type = m.macro_type;
      implementations = m.implementations;
    })
    s ← look (λ c. schema_ref c m.name.schema)
    write_schema s (λ schema. record schema {
      macros = Dict.insert schema.macros (to_ascii_lowercase m.name.name, m.macro_type) idx;
    })
    return (s, idx)

  -- `Catalog::add_table`.
  unfoldable pub add_table :
      TableInfo V
      → DucklakePath
      → Option ℤ
      → Run (Catalog V) (ArenaIdx × ArenaIdx × List (List ColumnRef) × Option (List ColumnRef))
  unfolding push_table write_schema schema_ref table_ref view_ref inner_table inner_view Dict.insert
      from_schema from_partition from_sort_info root_column_indices
  add_table info path next_column_id = do
    look (λ c.
        refuse (table_ref c info.name) (λ idx. inner_table c idx) (λ found. found.name)
          (codes "table"))
    look (λ c.
        refuse (view_ref c info.name) (λ idx. inner_view c idx) (λ found. found.name)
          (codes "view"))
    columns ← lift (from_schema info.schema next_column_id)
    partition ← lift (transpose (from_partition columns) info.partitioning)
    sort_info ← lift (transpose (from_sort_info columns) info.sort_info)
    column_idxs ← lift (root_column_indices columns)
    idx ← push_table (record {
      id = none;
      name = info.name;
      columns = columns;
      partition = partition;
      sort_info = sort_info;
      tags = info.tags;
      path = path;
    })
    s ← look (λ c. schema_ref c info.name.schema)
    write_schema s
        (λ schema. record schema { tables = Dict.insert schema.tables info.name.name idx })
    return (s, idx, map (refs_of idx) column_idxs, partition_refs idx partition)

  -- `Catalog::add_view`.
  unfoldable pub add_view : ViewInfo → Run (Catalog V) (ArenaIdx × ArenaIdx)
  unfolding push_view write_schema schema_ref table_ref view_ref inner_table inner_view Dict.insert
  add_view info = do
    look (λ c.
        refuse (view_ref c info.name) (λ idx. inner_view c idx) (λ found. found.name)
          (codes "view"))
    look (λ c.
        refuse (table_ref c info.name) (λ idx. inner_table c idx) (λ found. found.name)
          (codes "table"))
    idx ← push_view (record {
      id = none;
      name = info.name;
      sql = info.sql;
      dialect = info.dialect;
      column_aliases = info.column_aliases;
      tags = info.tags;
    })
    s ← look (λ c. schema_ref c info.name.schema)
    write_schema s (λ schema. record schema { views = Dict.insert schema.views info.name.name idx })
    return (s, idx)

  -- `SchemaViewMut::delete`.
  unfoldable pub remove_schema : ArenaIdx → Run (Catalog V) (Unit {0})
  unfolding inner_schema Dict.remove
  remove_schema idx = do
    s ← look (λ c. inner_schema c idx)
    look (λ c.
        if is_nil s.tables && is_nil s.views && is_nil s.macros
        then ok tt
        else err (
            invalid_changes
              (codes "cannot delete schema " ++ s.name ++ codes " which is not empty")))
    modify (λ c. record c { schemas = Dict.remove c.schemas s.name })

  -- `TableViewMut::rename`. The table is taken out of the names of its schema by its old name.
  unfoldable pub rename : ArenaIdx → Text → Run (Catalog V) (Unit {0})
  unfolding write_schema inner_table inner_schema schema_ref set_table Dict.get Dict.insert
      Dict.remove
  rename idx new_name = do
    t ← look (λ c. inner_table c idx)
    s ← look (λ c. schema_ref c t.name.schema)
    schema ← look (λ c. inner_schema c s)
    let renamed : QualifiedName = record { schema = t.name.schema; name = new_name }
    lift (
        if Dict.contains_key schema.tables new_name
        then err (already_exists (codes "table") (display_qualified_name renamed))
        else if Dict.contains_key schema.views new_name
        then err (already_exists (codes "view") (display_qualified_name renamed))
        else ok tt)
    at ← lift (ok_or (Dict.get schema.tables t.name.name) panicked)
    write_schema s (λ schema. record schema {
      tables = Dict.insert (Dict.remove schema.tables t.name.name) new_name at;
    })
    modify (set_table idx (record t { name = renamed }))

  -- `TableViewMut::delete`.
  unfoldable pub remove_table : ArenaIdx → Run (Catalog V) (Unit {0})
  unfolding write_schema inner_table schema_ref Dict.remove
  remove_table idx = do
    t ← look (λ c. inner_table c idx)
    s ← look (λ c. unwrap (schema_ref c t.name.schema))
    write_schema s (λ schema. record schema { tables = Dict.remove schema.tables t.name.name })

  -- `ViewViewMut::delete`.
  unfoldable pub remove_view : ArenaIdx → Run (Catalog V) (Unit {0})
  unfolding write_schema inner_view schema_ref Dict.remove
  remove_view idx = do
    v ← look (λ c. inner_view c idx)
    s ← look (λ c. unwrap (schema_ref c v.name.schema))
    write_schema s (λ schema. record schema { views = Dict.remove schema.views v.name.name })

  -- `MacroViewMut::delete`.
  unfoldable pub remove_macro : ArenaIdx → Run (Catalog V) (Unit {0})
  unfolding write_schema inner_macro schema_ref to_ascii_lowercase Dict.remove
  remove_macro idx = do
    m ← look (λ c. inner_macro c idx)
    s ← look (λ c. unwrap (schema_ref c m.name.schema))
    write_schema s (λ schema. record schema {
      macros = Dict.remove schema.macros (to_ascii_lowercase m.name.name, m.macro_type);
    })

  -- What an update of a table makes of the catalog, which is kept as it is on an error.
  abbrev updated : {A : Type 0} → ArenaIdx → Result (A × CatalogTable V) → Run (Catalog V) A
  unfolding set_table
  updated idx (ok (a, t)) c = (ok a, set_table idx t c)
  updated idx (err e) c = (err e, c)

  -- An update of the table at a reference.
  unfoldable pub on_table :
      {A : Type 0} → ArenaIdx → (CatalogTable V → Result (A × CatalogTable V)) → Run (Catalog V) A
  unfolding inner_table updated
  on_table idx f = look (λ c. inner_table c idx) >>= λ t. updated idx (f t)
