-- ===== src/Catalog/Entities.antt =====
-- crates/ducklake/src/catalog/typedefs and catalog/refs.rs: the entities that the catalog's arenas
-- hold, and the references to them. A reference is the index in its arena. Maps are association
-- lists. `V` is the type of literal values.
use native.Mathlib.Decide.{ℕ_discrete}
use ducklake_sdk.Common.{ℕ, Bool, List, Option}
use ducklake_sdk.Common.Int.{ℤ}
use ducklake_sdk.Common.Text.{Text}
use ducklake_sdk.Typedefs.Names.{QualifiedName}
use ducklake_sdk.Typedefs.Tags.{Tags}
use ducklake_sdk.Typedefs.Schema.{DataType, ColumnDefault}
use ducklake_sdk.Typedefs.Layout.{
  DucklakePath, PartitionTransform, SortDirection, NullOrder, MacroType, MacroImplementation,
}
use ducklake_sdk.Catalog.Arena.{Arena, Index}

-- `ArenaIdx`, `SchemaRef`, `TableRef`, `ViewRef` and `MacroRef`.
abbrev pub ArenaIdx : Type 0
ArenaIdx = ℕ

-- `ColumnRef`.
pub record ColumnRef : Type 0 where
  pub table_ref : ℕ
  pub column_idx : ℕ

pub ColumnRef-discrete : Discrete ColumnRef
ColumnRef-discrete = hlevel ℕ_discrete

-- `CatalogDataType`.
pub data CatalogDataType (V : Type 0) : Type 0 where
  primitive : DataType V → CatalogDataType V
  list : ArenaIdx → CatalogDataType V
  struct : List (Text × ArenaIdx) → CatalogDataType V
  map : ArenaIdx → ArenaIdx → CatalogDataType V

-- `CatalogColumn`.
pub record CatalogColumn (V : Type 0) : Type 0 where
  pub id : ℤ
  pub name : Text
  pub dtype : CatalogDataType V
  pub parent_column : Option ArenaIdx
  pub nullable : Bool
  pub tags : Tags
  pub initial_default : Option V
  pub default_value : ColumnDefault V

-- `CatalogColumns`.
pub record CatalogColumns (V : Type 0) : Type 0 where
  pub arena : List (CatalogColumn V)
  pub by_id : Index
  pub root_columns : List (Text × ArenaIdx)
  pub next_column_id : Option ℤ

-- `CatalogPartitionColumn` and `CatalogTablePartition`.
pub record CatalogPartitionColumn : Type 0 where
  pub column : ArenaIdx
  pub transform : PartitionTransform

pub record CatalogTablePartition : Type 0 where
  pub id : Option ℤ
  pub columns : List CatalogPartitionColumn

-- `CatalogSortColumn`; `CatalogTableSortInfo` is a list of them.
pub record CatalogSortColumn : Type 0 where
  pub column : ArenaIdx
  pub dialect : Text
  pub direction : SortDirection
  pub null_order : NullOrder

-- `CatalogTable`.
pub record CatalogTable (V : Type 0) : Type 0 where
  pub id : Option ℤ
  pub name : QualifiedName
  pub columns : CatalogColumns V
  pub partition : Option CatalogTablePartition
  pub sort_info : Option (List CatalogSortColumn)
  pub tags : Tags
  pub path : DucklakePath

-- `CatalogView`.
pub record CatalogView : Type 0 where
  pub id : Option ℤ
  pub name : QualifiedName
  pub sql : Text
  pub dialect : Text
  pub column_aliases : Option (List Text)
  pub tags : Tags

-- `CatalogMacro`.
pub record CatalogMacro : Type 0 where
  pub id : Option ℤ
  pub name : QualifiedName
  pub macro_type : MacroType
  pub implementations : List MacroImplementation

-- `CatalogSchema`.
pub record CatalogSchema : Type 0 where
  pub id : Option ℤ
  pub name : Text
  pub tables : List (Text × ArenaIdx)
  pub views : List (Text × ArenaIdx)
  pub macros : List ((Text × MacroType) × ArenaIdx)
  pub path : DucklakePath

-- `Catalog`.
pub record Catalog (V : Type 0) : Type 0 where
  pub schema_arena : Arena CatalogSchema
  pub table_arena : Arena (CatalogTable V)
  pub view_arena : Arena CatalogView
  pub macro_arena : Arena CatalogMacro
  pub schemas : List (Text × ArenaIdx)
