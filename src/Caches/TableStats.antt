-- ===== src/Caches/TableStats.antt =====
-- crates/ducklake/src/caches/table_stats.rs: the statistics of a table and their evolution. `V` is
-- the type of literal values, compared by `partial_cmp`.
use ducklake_sdk.Common.{Bool, true, false, ◌||◌, [], Option, none, some}
use ducklake_sdk.Common.Int.{ℤ, pos, add_i64}
use ducklake_sdk.Common.IntMap.{IntMap, or_default, insert}

-- `std::cmp::Ordering`.
pub data Ordering : Type 0 where
  less equal greater : Ordering

-- `ColumnStats`.
pub record ColumnStats (V : Type 0) : Type 0 where
  pub contains_null : Option Bool
  pub contains_nan : Option Bool
  pub min_value : Option V
  pub max_value : Option V
  pub is_persisted : Bool

-- `TableStats`.
pub record TableStats (V : Type 0) : Type 0 where
  pub next_row_id : ℤ
  pub record_count : Option ℤ
  pub file_size_bytes : Option ℤ
  pub column_stats : IntMap (ColumnStats V)
  pub is_persisted : Bool

-- `Option::unwrap_or_default` on `i64`.
abbrev pub unwrap_or_zero : Option ℤ → ℤ
unwrap_or_zero none = pos 0
unwrap_or_zero (some n) = n

-- `Option::or`.
abbrev pub or : {A : Type 0} → Option A → Option A → Option A
or none b = b
or (some a) b = some a

-- The merge of two flags that may be unknown.
unfoldable pub merge_flag : Option Bool → Option Bool → Option Bool
merge_flag (some old) (some fresh) = some (old || fresh)
merge_flag none (some true) = some true
merge_flag (some true) none = some true
merge_flag _ _ = none

module _ {V : Type 0} where
  -- `Default for ColumnStats` and `Default for TableStats`.
  unfoldable pub default_column : ColumnStats V
  default_column = record {
    contains_null = some false;
    contains_nan = some false;
    min_value = none;
    max_value = none;
    is_persisted = false;
  }

  unfoldable pub default_table : TableStats V
  default_table = record {
    next_row_id = pos 0;
    record_count = some (pos 0);
    file_size_bytes = some (pos 0);
    column_stats = [];
    is_persisted = false;
  }

  -- `TableStats::advance_row_id`.
  unfoldable pub advance_row_id : TableStats V → ℤ → TableStats V
  advance_row_id s n = record s { next_row_id = add_i64 s.next_row_id n }

  -- `TableStats::add_record_count`.
  unfoldable pub add_record_count : TableStats V → ℤ → TableStats V
  add_record_count s n = record s {
    record_count = some (add_i64 (unwrap_or_zero s.record_count) n);
  }

  -- `TableStats::add_file_size_bytes`.
  unfoldable pub add_file_size_bytes : TableStats V → Option ℤ → TableStats V
  add_file_size_bytes s none = s
  add_file_size_bytes s (some n) = record s {
    file_size_bytes = some (add_i64 (unwrap_or_zero s.file_size_bytes) n);
  }

  -- A write through `TableStats::column_stats_mut`.
  unfoldable pub update_column : TableStats V → ℤ → (ColumnStats V → ColumnStats V) → TableStats V
  unfolding default_column
  update_column s id f = record s {
    column_stats = insert s.column_stats id (f (or_default default_column s.column_stats id));
  }

  -- `ColumnStats::update_contains_null` and `ColumnStats::update_contains_nan`.
  unfoldable pub update_contains_null : ColumnStats V → Option Bool → ColumnStats V
  unfolding merge_flag
  update_contains_null s b = record s { contains_null = merge_flag s.contains_null b }

  unfoldable pub update_contains_nan : ColumnStats V → Option Bool → ColumnStats V
  unfolding merge_flag
  update_contains_nan s b = record s { contains_nan = merge_flag s.contains_nan b }

module _ {V : Type 0} where
  -- `old.partial_cmp(new).map(|ord| if ord.is_gt() { new } else { old })`, and with `is_lt`.
  abbrev pub lower_of : V → V → Option Ordering → Option V
  lower_of old fresh none = none
  lower_of old fresh (some greater) = some fresh
  lower_of old fresh (some other) = some old

  abbrev pub upper_of : V → V → Option Ordering → Option V
  upper_of old fresh none = none
  upper_of old fresh (some less) = some fresh
  upper_of old fresh (some other) = some old

module _ {V : Type 0} (partial_cmp : V → V → Option Ordering) where
  abbrev pub min_of : Option V → Option V → Option V
  min_of (some old) (some fresh) = lower_of old fresh (partial_cmp old fresh)
  min_of old fresh = or old fresh

  abbrev pub max_of : Option V → Option V → Option V
  max_of (some old) (some fresh) = upper_of old fresh (partial_cmp old fresh)
  max_of old fresh = or old fresh

  -- `ColumnStats::update_min_value` and `ColumnStats::update_max_value`.
  unfoldable pub update_min_value : ColumnStats V → Option V → ColumnStats V
  update_min_value s v = record s { min_value = min_of s.min_value v }

  unfoldable pub update_max_value : ColumnStats V → Option V → ColumnStats V
  update_max_value s v = record s { max_value = max_of s.max_value v }
