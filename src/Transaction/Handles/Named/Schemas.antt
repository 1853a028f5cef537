-- ===== src/Transaction/Handles/Named/Schemas.antt =====
-- Creating and deleting schemas, views and macros, and deleting tables, keep the names of the catalog of
-- a transaction (crates/ducklake/src/transaction/schema.rs, view.rs, macro_.rs and table.rs).
use ducklake_sdk.Common.{Bool, false, List, [], Option, if◌then◌else◌, list_eq, nat_eq, pair_eq}
use ducklake_sdk.Common.Run.{return, each}
use ducklake_sdk.Common.Text.{Text, codes}
use ducklake_sdk.Typedefs.Names.{QualifiedName}
use ducklake_sdk.Typedefs.Tags.{Tags}
use ducklake_sdk.Typedefs.Layout.{MacroType}
use ducklake_sdk.Catalog.Lookup.{schema_ref, table_ref, view_ref, macro_ref}
use ducklake_sdk.Catalog.Listing.{list_tables, list_views, list_macros}
use ducklake_sdk.Catalog.Operations.{
  add_schema, add_view, ViewInfo, remove_schema, remove_table, remove_view, remove_macro,
}
use ducklake_sdk.Catalog.Operations.Named.Schemas.{add_schema-IsNamed, remove_schema-IsNamed}
use ducklake_sdk.Catalog.Operations.Named.Remove.{
  remove_table-IsNamed, remove_view-IsNamed, remove_macro-IsNamed,
}
use ducklake_sdk.Catalog.Operations.Named.Add.{add_view-IsNamed}
use ducklake_sdk.View.Sql.{parse_select_query}
use ducklake_sdk.Transaction.Change.{Change}
use ducklake_sdk.Transaction.Handles.{IfExistsStrategy, fail, record_change}
use ducklake_sdk.Transaction.Handles.Schemas.{
  Parsers, directory_of, or_else, delete_table_inner, delete_table, delete_view, delete_macro,
  delete_contents, delete_schema, create_schema, create_view,
}
use ducklake_sdk.Transaction.Handles.Named.{
  Keeping, bind-Keeping, look-Keeping, lift-Keeping, on_catalog-Keeping, record_change-Keeping,
  unless_there-Keeping, if_there-Keeping, if-Keeping, each-Keeping,
}

module _ {V B : Type 0} where
  pub delete_table_inner-Keeping :
      (name : QualifiedName) (detach : Bool)
      → Keeping {V = V} {B = B} (delete_table_inner name detach)
  unfolding delete_table_inner
  delete_table_inner-Keeping name detach =
      look-Keeping (λ c. table_ref c name) _
        (λ idx tx e h.
          on_catalog-Keeping (remove_table idx)
            (λ u. record_change (Change.delete_table idx detach)) tx
            (remove_table-IsNamed idx tx.catalog h)
            (λ u. record_change-Keeping (Change.delete_table idx detach)))

  pub delete_table-Keeping :
      (name : QualifiedName) (strategy : IfExistsStrategy)
      → Keeping {V = V} {B = B} (delete_table name strategy)
  unfolding delete_table
  delete_table-Keeping name strategy =
      if_there-Keeping strategy (λ c. table_ref c name) (delete_table_inner name false)
        (delete_table_inner-Keeping name false)

  pub delete_view-Keeping :
      (name : QualifiedName) (strategy : IfExistsStrategy)
      → Keeping {V = V} {B = B} (delete_view name strategy)
  unfolding delete_view
  delete_view-Keeping name strategy =
      if_there-Keeping strategy (λ c. view_ref c name) _
        (look-Keeping (λ c. view_ref c name) _
          (λ idx tx e h.
            on_catalog-Keeping (remove_view idx) (λ u. record_change (Change.delete_view idx)) tx
              (remove_view-IsNamed idx tx.catalog h)
              (λ u. record_change-Keeping (Change.delete_view idx))))

  pub delete_macro-Keeping :
      (name : QualifiedName) (kind : MacroType) (strategy : IfExistsStrategy)
      → Keeping {V = V} {B = B} (delete_macro name kind strategy)
  unfolding delete_macro
  delete_macro-Keeping name kind strategy =
      if_there-Keeping strategy (λ c. macro_ref c name kind) _
        (look-Keeping (λ c. macro_ref c name kind) _
          (λ idx tx e h.
            on_catalog-Keeping (remove_macro idx)
              (λ u. record_change (Change.delete_macro idx kind)) tx
              (remove_macro-IsNamed idx tx.catalog h)
              (λ u. record_change-Keeping (Change.delete_macro idx kind))))

  delete_contents-Keeping : (name : Text) → Keeping {V = V} {B = B} (delete_contents name)
  unfolding delete_contents
  delete_contents-Keeping name = look-Keeping (list_tables name) _ (λ tables tx e.
      bind-Keeping (each (λ n. delete_table n fail) tables) _
        (each-Keeping (λ n. delete_table n fail) tables (λ n. delete_table-Keeping n fail))
        (λ u. look-Keeping (list_views name) _ (λ views tx e.
          bind-Keeping (each (λ n. delete_view n fail) views) _
            (each-Keeping (λ n. delete_view n fail) views (λ n. delete_view-Keeping n fail))
            (λ u. look-Keeping (list_macros name) _ (λ macros tx e.
              each-Keeping (λ (m : QualifiedName × MacroType). delete_macro m.0 m.1 fail) macros
                (λ m. delete_macro-Keeping m.0 m.1 fail) tx))
            tx))
        tx)

  pub delete_schema-Keeping :
      (name : Text) (cascade : Bool) (strategy : IfExistsStrategy)
      → Keeping {V = V} {B = B} (delete_schema name cascade strategy)
  unfolding delete_schema
  delete_schema-Keeping name cascade strategy =
      if_there-Keeping strategy (λ c. schema_ref c name) _
        (bind-Keeping (if cascade then delete_contents name else return tt) _
          (if-Keeping cascade (delete_contents name) (return tt) (delete_contents-Keeping name)
            (λ tx h. h))
          (λ u.
            look-Keeping (λ c. schema_ref c name) _
              (λ idx tx e h.
                on_catalog-Keeping (remove_schema idx)
                  (λ u. record_change (Change.delete_schema idx)) tx
                  (remove_schema-IsNamed idx tx.catalog h)
                  (λ u. record_change-Keeping (Change.delete_schema idx)))))

module _ {S V B : Type 0} (p : Parsers S) where
  pub create_schema-Keeping :
      (name : Text) (path : Option Text) (strategy : IfExistsStrategy)
      → Keeping {V = V} {B = B} (create_schema p name path strategy)
  unfolding create_schema
  create_schema-Keeping name path strategy =
      unless_there-Keeping strategy (λ c. schema_ref c name) _
        (lift-Keeping (directory_of p path name) _ (λ parsed tx h.
          on_catalog-Keeping (add_schema name parsed)
            (λ idx. record_change (Change.create_schema idx name parsed)) tx
            (add_schema-IsNamed name parsed tx.catalog h)
            (λ idx. record_change-Keeping (Change.create_schema idx name parsed))))

  pub create_view-Keeping :
      (name : QualifiedName) (sql : Text) (aliases : Option (List Text)) (tags : Option Tags)
      (strategy : IfExistsStrategy)
      → Keeping {V = V} {B = B} (create_view p name sql aliases tags strategy)
  unfolding create_view
  create_view-Keeping name sql aliases tags strategy =
      unless_there-Keeping strategy (λ c. view_ref c name) _
        (lift-Keeping (parse_select_query p.sql sql (codes "duckdb")) _ (λ statement tx h.
          let info : ViewInfo = record {
            name = name;
            sql = p.sql.print statement;
            dialect = codes "duckdb";
            column_aliases = aliases;
            tags = or_else tags [];
          } in
          on_catalog-Keeping (add_view info) _ tx (add_view-IsNamed info tx.catalog h)
            (λ refs tx h. h)))
