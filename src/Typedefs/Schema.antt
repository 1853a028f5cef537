-- ===== src/Typedefs/Schema.antt =====
-- crates/ducklake/src/typedefs/schema/dtype.rs and column.rs: data types and columns. `V` is the
-- type of literal values, which schemas hold and never look into.
use ducklake_sdk.Common.{ℕ, Bool, List, [], ◌∷◌, ◌++◌, Option, none, some, length}
use ducklake_sdk.Common.Int.{ℤ}
use ducklake_sdk.Common.Text.{Text}
use ducklake_sdk.Typedefs.Tags.{Tags}

-- `TimestampPrecision`.
pub data TimestampPrecision : Type 0 where
  seconds milliseconds microseconds nanoseconds : TimestampPrecision

-- `ColumnDefault`.
pub data ColumnDefault (V : Type 0) : Type 0 where
  literal : Option V → ColumnDefault V
  expression : Text → Text → ColumnDefault V

-- What a column holds beside its type: name, nullability, tags, defaults and field ID.
pub record ColumnInfo (V : Type 0) : Type 0 where
  pub name : Text
  pub nullable : Bool
  pub tags : Tags
  pub initial_default : Option V
  pub default_value : ColumnDefault V
  pub field_id : Option ℤ

mutual
  -- `DataType`.
  pub data DataType (V : Type 0) : Type 0 where
    boolean int8 int16 int32 int64 int128 : DataType V
    uint8 uint16 uint32 uint64 uint128 : DataType V
    float32 float64 : DataType V
    decimal : ℕ → ℕ → DataType V
    time time_tz date : DataType V
    timestamp : TimestampPrecision → DataType V
    timestamp_tz interval varchar blob json variant geometry uuid : DataType V
    list : Column V → DataType V
    struct : Columns V → DataType V
    map : Column V → Column V → DataType V

  -- `Column`: its data type and the rest.
  pub data Column (V : Type 0) : Type 0 where
    column : DataType V → ColumnInfo V → Column V

  -- `Vec<Column>`.
  pub data Columns (V : Type 0) : Type 0 where
    nil : Columns V
    cons : Column V → Columns V → Columns V

-- `FlattenedColumn`: a column and the index of its parent.
pub record FlattenedColumn (V : Type 0) : Type 0 where
  pub column : Column V
  pub parent_index : Option ℕ

-- `Column::flatten_into`, which appends a column and then its children to `flattened`.
unfoldable mutual
  pub flatten_into :
      {V : Type 0} → Column V → Option ℕ → List (FlattenedColumn V) → List (FlattenedColumn V)
  flatten_into (column d info) parent flattened =
      flatten_children d (length flattened)
        (flattened ++ (record { column = column d info; parent_index = parent } ∷ []))

  pub flatten_children :
      {V : Type 0} → DataType V → ℕ → List (FlattenedColumn V) → List (FlattenedColumn V)
  flatten_children (list inner) idx flattened = flatten_into inner (some idx) flattened
  flatten_children (struct fields) idx flattened = flatten_fields fields idx flattened
  flatten_children (map key value) idx flattened =
      flatten_into value (some idx) (flatten_into key (some idx) flattened)
  flatten_children _ idx flattened = flattened

  pub flatten_fields :
      {V : Type 0} → Columns V → ℕ → List (FlattenedColumn V) → List (FlattenedColumn V)
  flatten_fields nil idx flattened = flattened
  flatten_fields (cons field fields) idx flattened =
      flatten_fields fields idx (flatten_into field (some idx) flattened)

-- `Column::flatten`.
unfoldable pub flatten : {V : Type 0} → Column V → List (FlattenedColumn V)
unfolding flatten_into
flatten c = flatten_into c none []
