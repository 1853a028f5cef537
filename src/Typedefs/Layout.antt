-- ===== src/Typedefs/Layout.antt =====
-- crates/ducklake/src/typedefs/partition.rs, sort.rs and macro_.rs, and the path type of
-- io/path.rs: how tables are laid out, and what macros hold.
use ducklake_sdk.Common.{ℕ, List, Option, Eq, discrete_eq}
use ducklake_sdk.Common.Text.{Text}

-- `DucklakePath`. A URL is its serialisation, which decides its equality.
pub data DucklakePath : Type 0 where
  absolute relative : Text → DucklakePath

-- `PartitionTransform`.
pub data PartitionTransform : Type 0 where
  identity : PartitionTransform
  bucket : ℕ → PartitionTransform
  year month day hour : PartitionTransform

-- `PartitionColumn`.
pub record PartitionColumn : Type 0 where
  pub column : Text
  pub transform : PartitionTransform

-- `SortDirection`.
pub data SortDirection : Type 0 where
  ascending descending : SortDirection

-- `NullOrder`.
pub data NullOrder : Type 0 where
  nulls_first nulls_last : NullOrder

-- `SortExpression`.
pub record SortExpression : Type 0 where
  pub expression : Text
  pub dialect : Text
  pub direction : SortDirection
  pub null_order : NullOrder

-- `MacroType`.
pub data MacroType : Type 0 where
  scalar table : MacroType

pub MacroType-discrete : Discrete MacroType
MacroType-discrete = hlevel

instance abbrev pub macro_type_eq : Eq MacroType
macro_type_eq = discrete_eq MacroType-discrete

-- `MacroParameter`.
pub record MacroParameter : Type 0 where
  pub name : Text
  pub data_type : Text
  pub default_value : Option Text
  pub default_value_type : Text

-- `MacroImplementation`.
pub record MacroImplementation : Type 0 where
  pub dialect : Text
  pub sql : Text
  pub parameters : List MacroParameter
