-- ===== src/Transaction/Handles/Schemas.antt =====
-- crates/ducklake/src/transaction/schema.rs and view.rs, and `delete_macro` of macro_.rs.
use ducklake_sdk.Common.{
  Bool, false, List, [], Option, none, some, if◌then◌else◌, list_eq, nat_eq, pair_eq,
}
use ducklake_sdk.Common.Run.{Run, return, lift, each, ◌>>=◌, ◌>>◌}
use ducklake_sdk.Common.Text.{Text, codes}
use ducklake_sdk.Common.Error.{Result, ok, err}
use ducklake_sdk.Typedefs.Names.{QualifiedName}
use ducklake_sdk.Typedefs.Tags.{Tags}
use ducklake_sdk.Typedefs.Layout.{DucklakePath, MacroType}
use ducklake_sdk.Typedefs.Path.{UrlLibrary, UrlParser, parse_path, ensure_directory}
use ducklake_sdk.Catalog.Lookup.{schema_ref, table_ref, view_ref, macro_ref}
use ducklake_sdk.Catalog.Listing.{list_tables, list_views, list_macros}
use ducklake_sdk.Catalog.Operations.{
  add_schema, add_view, remove_schema, remove_table, remove_view, remove_macro,
}
use ducklake_sdk.Transaction.Change.{Change}
use ducklake_sdk.Transaction.Handles.{
  Transaction, IfExistsStrategy, fail, on_catalog, look_catalog, record_change, unless_there,
  if_there,
}
use ducklake_sdk.View.Sql.{SqlParser, parse_select_query}

abbrev pub or_else : {A : Type 0} → Option A → A → A
or_else none a = a
or_else (some b) a = b

-- What the handles need of the libraries that parse URLs and SQL.
pub record Parsers (S : Type 0) : Type 0 where
  pub urls : UrlLibrary
  pub paths : UrlParser
  pub sql : SqlParser S

-- The path of a schema or a table: what the user gave or the name, as a directory.
unfoldable pub directory_of : {S : Type 0} → Parsers S → Option Text → Text → Result DucklakePath
unfolding parse_path ensure_directory
directory_of p path name = elim (parse_path p.paths (or_else path name)) [
  | ok parsed ↦ ok (ensure_directory p.urls parsed)
  | err e ↦ err e
]

module _ {V B : Type 0} where
  -- `Transaction::delete_view`.
  unfoldable pub delete_view : QualifiedName → IfExistsStrategy → Run (Transaction V B) (Unit {0})
  unfolding view_ref remove_view
  delete_view name strategy =
      if_there strategy (λ c. view_ref c name)
        (look_catalog (λ c. view_ref c name) >>= λ idx.
          on_catalog (remove_view idx) >> record_change (Change.delete_view idx))

  -- `Transaction::delete_macro`.
  unfoldable pub delete_macro :
      QualifiedName → MacroType → IfExistsStrategy → Run (Transaction V B) (Unit {0})
  unfolding macro_ref remove_macro
  delete_macro name kind strategy =
      if_there strategy (λ c. macro_ref c name kind)
        (look_catalog (λ c. macro_ref c name kind) >>= λ idx.
          on_catalog (remove_macro idx) >> record_change (Change.delete_macro idx kind))

  -- `Transaction::delete_table_inner`.
  unfoldable pub delete_table_inner : QualifiedName → Bool → Run (Transaction V B) (Unit {0})
  unfolding table_ref remove_table
  delete_table_inner name detach_files = look_catalog (λ c. table_ref c name) >>= λ idx.
      on_catalog (remove_table idx) >> record_change (Change.delete_table idx detach_files)

  -- `Transaction::delete_table`.
  unfoldable pub delete_table : QualifiedName → IfExistsStrategy → Run (Transaction V B) (Unit {0})
  unfolding table_ref delete_table_inner
  delete_table name strategy =
      if_there strategy (λ c. table_ref c name) (delete_table_inner name false)

  -- What `delete_schema` deletes first when it cascades.
  unfoldable pub delete_contents : Text → Run (Transaction V B) (Unit {0})
  unfolding list_tables list_views list_macros delete_table delete_view delete_macro
  delete_contents name = do
    tables ← look_catalog (list_tables name)
    each (λ n. delete_table n fail) tables
    views ← look_catalog (list_views name)
    each (λ n. delete_view n fail) views
    macros ← look_catalog (list_macros name)
    each (λ (m : QualifiedName × MacroType). delete_macro m.0 m.1 fail) macros

  -- `Transaction::delete_schema`.
  unfoldable pub delete_schema : Text → Bool → IfExistsStrategy → Run (Transaction V B) (Unit {0})
  unfolding schema_ref delete_contents remove_schema
  delete_schema name cascade strategy =
      if_there strategy (λ c. schema_ref c name)
        ((if cascade then delete_contents name else return tt)
          >> (look_catalog (λ c. schema_ref c name) >>= λ idx.
              on_catalog (remove_schema idx) >> record_change (Change.delete_schema idx)))

module _ {S V B : Type 0} (p : Parsers S) where
  -- `Transaction::create_schema`.
  unfoldable pub create_schema :
      Text → Option Text → IfExistsStrategy → Run (Transaction V B) (Unit {0})
  unfolding schema_ref add_schema directory_of
  create_schema name path strategy =
      unless_there strategy (λ c. schema_ref c name)
        (lift (directory_of p path name) >>= λ parsed.
          on_catalog (add_schema name parsed) >>= λ idx.
          record_change (Change.create_schema idx name parsed))

  -- `Transaction::create_view`.
  unfoldable pub create_view :
      QualifiedName
      → Text
      → Option (List Text)
      → Option Tags
      → IfExistsStrategy
      → Run (Transaction V B) (Unit {0})
  unfolding view_ref add_view parse_select_query
  create_view name sql column_aliases tags strategy =
      unless_there strategy (λ c. view_ref c name)
        (lift (parse_select_query p.sql sql (codes "duckdb")) >>= λ statement.
          on_catalog (
            add_view (record {
              name = name;
              sql = p.sql.print statement;
              dialect = codes "duckdb";
              column_aliases = column_aliases;
              tags = or_else tags [];
            }))
          >>= λ refs. record_change (
              Change.create_view refs.0 refs.1 (record {
                name = name;
                sql = p.sql.print statement;
                dialect = codes "duckdb";
                column_aliases = column_aliases;
                tags = or_else tags [];
              })))
