-- ===== src/Types.antt =====
-- DuckDB's logical types, as far as the extension tells them apart. `other` stands for every type
-- id that no branch of the extension names.
use duckdb_delta.Prelude.{ℕ}
use duckdb_delta.Prelude.Bytes.{Text}

mutual
  pub data LogicalType : Type 0 where
    boolean tinyint smallint integer bigint float double varchar blob date timestamp timestamp_tz
          variant :
        LogicalType
    decimal : ℕ → ℕ → LogicalType
    struct : Fields → LogicalType
    list : LogicalType → LogicalType
    array : LogicalType → ℕ → LogicalType
    map_type : LogicalType → LogicalType → LogicalType
    other : ℕ → LogicalType

  -- The children of a struct, in order.
  pub data Fields : Type 0 where
    end : Fields
    field : Text → LogicalType → Fields → Fields
