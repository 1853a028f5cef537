-- ===== src/Tests/Sessions.antt =====
-- Sessions of a transaction: schemas and tables that are created, renamed and deleted.
use ducklake_sdk.Common.{
  ◌≡◌, refl, Bool, true, false, ℕ, List, [], ◌∷◌, none, some, if◌then◌else◌, list_eq, nat_eq,
}
use ducklake_sdk.Common.Dict
use ducklake_sdk.Common.Int.{pos, add_i64}
use ducklake_sdk.Common.Unique.{contains}
use ducklake_sdk.Common.Text.{Text, codes}
use ducklake_sdk.Common.Error.{ok, err, panicked, not_found, invalid_cast}
use ducklake_sdk.Typedefs.Names.{QualifiedName, qualified_name_beq, display_qualified_name}
use ducklake_sdk.Typedefs.Path.{relative_url_without_base}
use ducklake_sdk.Typedefs.Schema.{DataType, Column, column, literal, int64, varchar}
use ducklake_sdk.View.Sql.{parsed, select_query}
use ducklake_sdk.Catalog.Entities.{Catalog}
use ducklake_sdk.Catalog.Lookup.{table_ref, view_ref}
use ducklake_sdk.Catalog.Operations.{remove_table, rename}
use ducklake_sdk.Catalog.Operations.Named.{Stands, qualified}
use ducklake_sdk.Catalog.Operations.Named.Lookup.{no_table}
use ducklake_sdk.Catalog.Operations.Named.Effect.{remove_table-lookup, rename-lookup}
use ducklake_sdk.Transaction.Handles.{Transaction, fail}
use ducklake_sdk.Transaction.Handles.Schemas.{Parsers}
use ducklake_sdk.Transaction.Handles.Tables.{TableRequest}
use ducklake_sdk.Transaction.Handles.Columns.{
  ColumnServices, update_table_schema, update_table_column_nullability,
}
use ducklake_sdk.Transaction.Handles.Rollback.{update_table_schema-AllOrNothing}
use ducklake_sdk.Transaction.Handles.Named.{Sound}
use ducklake_sdk.Transaction.Handles.Session.{Operation, session, session-Sound}

-- Every path is relative, and every SQL text is one query.
abbrev parsers : Parsers Text
parsers = record {
  urls = record { join = λ a b. none; path = λ a. a; set_path = λ a b. b };
  paths = record {
    is_absolute = λ s. false;
    from_file_path = λ s. none;
    parse_url = λ s. relative_url_without_base;
  };
  sql = record {
    dialect_from_str = λ d. true;
    parse_sql = λ d s. parsed (s ∷ []);
    kind = λ s. select_query;
    print = λ s. s;
  };
}

abbrev both_int64 : DataType ℕ → DataType ℕ → Bool
both_int64 int64 int64 = true
both_int64 _ _ = false

abbrev services : ColumnServices ℕ
services = record {
  same_dtype = both_int64;
  table_stats = ok [];
  load_next_column_id = λ id. ok (pos 7);
}

abbrev empty : Transaction ℕ Text
empty = record {
  catalog = record {
    schema_arena = record { arena = []; by_id = [] };
    table_arena = record { arena = []; by_id = [] };
    view_arena = record { arena = []; by_id = [] };
    macro_arena = record { arena = []; by_id = [] };
    schemas = [];
  };
  changes = [];
}

no_entry : {A : Type 0} (a : A) → none ≡ some a → ⊥
no_entry a h = cc

empty-Sound : Sound empty
unfolding Dict.get
empty-Sound = record {
  schemas = λ n i h. absurd (no_entry i h);
  holds = λ n i s h g. absurd (no_entry i h);
}

abbrev amount : Column ℕ
amount = column int64 (record {
  name = codes "amount";
  nullable = true;
  tags = [];
  initial_default = none;
  default_value = literal none;
  field_id = none;
})

abbrev request : TableRequest ℕ
request = record {
  columns = amount ∷ [];
  partition_columns = none;
  sort_info = none;
  path = none;
  tags = none;
}

abbrev sales : QualifiedName
sales = qualified (codes "main") (codes "sales")

-- A schema, a table in it, and two calls that fail: a table without a schema, and a view of that name.
abbrev calls : List (Operation ℕ)
calls =
    Operation.create_schema (codes "main") none fail
    ∷ Operation.create_table sales request fail
    ∷ Operation.create_table (qualified (codes "other") (codes "sales")) request fail
    ∷ Operation.create_view sales (codes "SELECT 1") none none fail
    ∷ []

session-Sound_example : Sound (session parsers services calls empty)
session-Sound_example = session-Sound parsers services calls empty empty-Sound

abbrev after_calls : Transaction ℕ Text
unfolding session
after_calls = session parsers services calls empty

after_calls-Sound : Sound after_calls
unfolding after_calls
after_calls-Sound = session-Sound parsers services calls empty empty-Sound

found : table_ref after_calls.catalog sales ≡ ok 0
unfolding after_calls table_ref contains
found = refl

remove_table-lookup_example :
    (d : Catalog ℕ) × (remove_table 0 after_calls.catalog ≡ (ok tt, d))
    × ((m : QualifiedName)
        → table_ref d m
          ≡ (if qualified_name_beq sales m then no_table m else table_ref after_calls.catalog m))
    × ((m : QualifiedName) → view_ref d m ≡ view_ref after_calls.catalog m)
remove_table-lookup_example =
    remove_table-lookup sales 0 after_calls.catalog after_calls-Sound found

abbrev orders : QualifiedName
orders = qualified (codes "main") (codes "orders")

no_orders : table_ref after_calls.catalog orders ≡ no_table orders
unfolding after_calls table_ref contains
no_orders = refl

no_view :
    view_ref after_calls.catalog orders
    ≡ err (not_found (codes "view") (display_qualified_name orders))
unfolding after_calls view_ref contains
no_view = refl

rename-lookup_example :
    (d : Catalog ℕ) × (rename 0 (codes "orders") after_calls.catalog ≡ (ok tt, d))
    × ((m : QualifiedName)
        → table_ref d m ≡ (
            if qualified_name_beq orders m
            then ok 0
            else if qualified_name_beq sales m
            then no_table m
            else table_ref after_calls.catalog m))
    × ((m : QualifiedName) → view_ref d m ≡ view_ref after_calls.catalog m)
    × Stands d.table_arena (λ t. t.name) 0 orders
rename-lookup_example =
    rename-lookup sales (codes "orders") 0
      (not_found (codes "table") (display_qualified_name orders))
      (not_found (codes "view") (display_qualified_name orders)) after_calls.catalog
      after_calls-Sound found no_orders no_view

-- A new column and one that cannot be: the type of the column is changed back.
abbrev price : Text → DataType ℕ → Column ℕ
price name d = column d (record {
  name = name;
  nullable = true;
  tags = [];
  initial_default = none;
  default_value = literal none;
  field_id = none;
})

rolled_back :
    update_table_schema services sales (price (codes "amount") varchar ∷ []) after_calls
    ≡ (err invalid_cast, after_calls)
unfolding after_calls update_table_schema contains
rolled_back = refl

update_table_schema-AllOrNothing_example : after_calls ≡ after_calls
update_table_schema-AllOrNothing_example =
    update_table_schema-AllOrNothing services sales (price (codes "amount") varchar ∷ [])
      after_calls after_calls invalid_cast rolled_back

-- A change of nullability of a new table, which has no ID yet: the operation panics.
new_table_panics :
    update_table_column_nullability services sales (codes "amount" ∷ []) false after_calls
    ≡ (err panicked, after_calls)
unfolding after_calls update_table_column_nullability contains add_i64
new_table_panics = refl
