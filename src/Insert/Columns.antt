-- ===== src/Insert/Columns.antt =====
-- A column of the scan's schema, `DeltaMultiFileColumnDefinition`, and the names and types that the
-- copy writes it under: `WrittenName`, `WrittenType`, `WrittenPath`, `UnnamedType`,
-- `StatsPathIsRecordable` and `FindWrittenColumn` (src/storage/delta_insert.cpp).
use duckdb_delta.Prelude.{
  Bool, true, false, not, Option, none, some, List, [], ◌∷◌, is_empty, drop, Result, ok, err, error,
  internal, if◌then◌else◌, ◌>>=◌,
}
use duckdb_delta.Prelude.Bytes.{Text, text_eq}
use duckdb_delta.Types.{LogicalType, Fields, struct, list, map_type, end, field}
use duckdb_delta.Columns.{
  DeltaColumn, column, DeltaColumns, no_columns, columns, column_name, column_children,
}

unfoldable pub written_name : DeltaColumn → Text
written_name
      (column name type nullable physical_name field_id resolved_by char_varchar_type children) =
    if is_empty physical_name then name else physical_name

-- A list's element and a map's key and value are the children at 0 and 1, which a vector refuses to
-- give where there is none.
unfoldable mutual
  unfolding written_name

  pub written_type : DeltaColumn → Result LogicalType
  written_type
        (column name
          (struct fields)
          nullable
          physical_name
          field_id
          resolved_by
          char_varchar_type
          children) =
      written_fields children >>= λ fs. ok (struct fs)
  written_type
        (column name
          (list element)
          nullable
          physical_name
          field_id
          resolved_by
          char_varchar_type
          children) =
      first_written_type children >>= λ t. ok (list t)
  written_type
        (column name
          (map_type key value)
          nullable
          physical_name
          field_id
          resolved_by
          char_varchar_type
          children) =
      first_written_type children >>= λ k. second_written_type children >>= λ v. ok (map_type k v)
  written_type
        (column name type nullable physical_name field_id resolved_by char_varchar_type children) =
      ok type

  pub written_fields : DeltaColumns → Result Fields
  written_fields no_columns = ok end
  written_fields (columns col rest) =
      written_type col >>= λ t. written_fields rest >>= λ fs. ok (field (written_name col) t fs)

  pub first_written_type : DeltaColumns → Result LogicalType
  first_written_type no_columns =
      err (error internal "Attempted to access index 0 within vector of size 0")
  first_written_type (columns col rest) = written_type col

  pub second_written_type : DeltaColumns → Result LogicalType
  second_written_type no_columns =
      err (error internal "Attempted to access index 1 within vector of size 0")
  second_written_type (columns col rest) = first_written_type rest

-- Every struct without its names, as a tuple.
unfoldable mutual
  pub unnamed_type : LogicalType → LogicalType
  unnamed_type (struct fields) = struct (unnamed_fields fields)
  unnamed_type (list element) = list (unnamed_type element)
  unnamed_type (map_type key value) = map_type (unnamed_type key) (unnamed_type value)
  unnamed_type type = type

  pub unnamed_fields : Fields → Fields
  unnamed_fields end = end
  unnamed_fields (field name type rest) = field [] (unnamed_type type) (unnamed_fields rest)

unfoldable pub find_child : Text → DeltaColumns → Option DeltaColumn
find_child name no_columns = none
find_child name (columns col rest) =
    if text_eq (column_name col) name then some col else find_child name rest

-- The loop of `WrittenPath`, below the column that it has reached.
unfoldable pub written_steps : DeltaColumn → List Text → Result (List Text)
unfolding find_child written_name
written_steps current [] = ok []
written_steps current (name ∷ names) = elim (find_child name (column_children current)) [
  | none ↦ err (error internal "Delta column \"%s\" has no field \"%s\"")
  | some next ↦ written_steps next names >>= λ rest. ok (written_name next ∷ rest)
]

unfoldable pub written_path : DeltaColumn → List Text → Result (List Text)
unfolding written_steps written_name
written_path col logical_path =
    written_steps col (drop 1 logical_path) >>= λ rest. ok (written_name col ∷ rest)

unfoldable pub find_written_column : Bool → Text → DeltaColumns → Option DeltaColumn
unfolding written_name
find_written_column column_mapped name no_columns = none
find_written_column column_mapped name (columns col rest) =
    if text_eq (if column_mapped then written_name col else column_name col) name
    then some col
    else find_written_column column_mapped name rest

-- DuckDB's comparison of an identifier with a string, and its `LogicalType::IsNested`.
module _ (identifier_eq : Text → Text → Bool) (is_nested : LogicalType → Bool) where
  unfoldable pub find_field : Text → Fields → Option LogicalType
  find_field name end = none
  find_field name (field key type rest) =
      if identifier_eq key name then some type else find_field name rest

  abbrev pub struct_fields : LogicalType → Option Fields
  struct_fields (struct fields) = some fields
  struct_fields type = none

  -- The loop of `StatsPathIsRecordable` over the rest of the path.
  unfoldable pub recordable_from : LogicalType → List Text → Bool
  unfolding find_field
  recordable_from current [] = not (is_nested current)
  recordable_from current (name ∷ names) = elim (struct_fields current) [
    | none ↦ false
    | some fields ↦ elim (find_field name fields) [
      | none ↦ true
      | some type ↦ recordable_from type names
    ]
  ]

  unfoldable pub stats_path_is_recordable : LogicalType → List Text → Bool
  unfolding recordable_from
  stats_path_is_recordable column_type path = recordable_from column_type (drop 1 path)
