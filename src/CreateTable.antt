-- ===== src/CreateTable.antt =====
-- The partition columns of CREATE TABLE and COPY (src/storage/delta_create_table.cpp):
-- `ThrowIfPartitionTypeUnwritable` and `ResolvePartitionColumns`.
pub mod Partitions
use duckdb_delta.Prelude.{
  Bool, true, false, ◌||◌, Option, none, some, List, [], ◌∷◌, ◌++◌, Result, ok, err, error, binder,
  not_implemented, if◌then◌else◌, ◌>>=◌, ◌>>◌,
}
use duckdb_delta.Prelude.Bytes.{Text, text_eq}
use duckdb_delta.Types.{LogicalType, Fields, blob, end, field}

unfoldable pub throw_if_partition_type_unwritable : LogicalType → Result (Unit {0})
throw_if_partition_type_unwritable blob =
    err (error not_implemented "%s does not support partitioning on column '%s' of type BLOB")
throw_if_partition_type_unwritable type = ok tt

-- `std::find(result.begin(), result.end(), name) != result.end()`
unfoldable pub contains : Text → List Text → Bool
contains name [] = false
contains name (x ∷ xs) = text_eq x name || contains name xs

-- `StringUtil::CIEquals` is DuckDB's.
module _ (ci_equals : Text → Text → Bool) where
  -- The first column that a key names.
  unfoldable pub find_column : Text → Fields → Option (Text × LogicalType)
  find_column key end = none
  find_column key (field name type rest) =
      if ci_equals name key then some (name, type) else find_column key rest

  abbrev pub append_key : List Text → Option (Text × LogicalType) → Result (List Text)
  append_key result none =
      err (error binder "%s: %s names column '%s', which the table does not have")
  append_key result (some (name, type)) =
      throw_if_partition_type_unwritable type
      >> (if contains name result
          then err (error binder "%s: %s names column '%s' twice")
          else ok (result ++ name ∷ []))

  -- The loop over the keys, with the names found so far.
  unfoldable pub resolve_keys : Fields → List Text → List Text → Result (List Text)
  unfolding find_column contains throw_if_partition_type_unwritable
  resolve_keys columns [] result = ok result
  resolve_keys columns (key ∷ keys) result =
      append_key result (find_column key columns) >>= λ result'. resolve_keys columns keys result'

  unfoldable pub resolve_partition_columns : Fields → List Text → Result (List Text)
  unfolding resolve_keys
  resolve_partition_columns columns keys = resolve_keys columns keys []
