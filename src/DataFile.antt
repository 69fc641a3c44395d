-- ===== src/DataFile.antt =====
-- The data files that a write reports: `DeltaPartition`, `DeltaColumnStats` and `DeltaDataFile`
-- (src/include/storage/delta_insert.hpp).
use duckdb_delta.Prelude.{ℕ, Bool, Option, List}
use duckdb_delta.Prelude.Bytes.{Text}
use duckdb_delta.Types.{LogicalType}

pub record DeltaPartition : Type 0 where
  pub partition_column : Text
  pub partition_value : Option Text

pub record DeltaColumnStats : Type 0 where
  pub min : Text
  pub max : Text
  pub null_count : ℕ
  pub num_values : ℕ
  pub column_size_bytes : ℕ
  pub contains_nan : Bool
  pub has_null_count : Bool
  pub has_num_values : Bool
  pub has_min : Bool
  pub has_max : Bool
  pub any_valid : Bool
  pub has_contains_nan : Bool
  pub root_type : LogicalType

pub record DeltaDataFile : Type 0 where
  pub file_name : Text
  pub row_count : ℕ
  pub file_size_bytes : ℕ
  pub footer_size : ℕ
  pub partition_values : List DeltaPartition
  pub last_modified_time : ℕ
  pub column_stats : List (List Text × DeltaColumnStats)
