-- ===== src/Columns/FieldIds.antt =====
-- The field ids of a schema and of a file's columns: `ContainerChildFieldId`,
-- `FillContainerChildIds`, `HasFieldIdsRecursive`, `ResolveByFieldId`, `UseNameIdentifiers`,
-- `AllHaveFieldIds` and `CoveredByNames` (src/include/delta_utils.hpp), and
-- `ResolveFileWithoutFieldIds` (src/functions/delta_scan/delta_multi_file_reader.cpp).
use duckdb_delta.Prelude.{
  ℕ, zero, suc, Bool, true, false, ◌&&◌, Option, none, some, Result, ok, err, error, internal,
  invalid_input, if◌then◌else◌, ◌>>=◌, ◌>>◌,
}
use duckdb_delta.Prelude.Bytes.{Text}
use duckdb_delta.Kernel.{ℤ, pos, negsuc}
use duckdb_delta.Types.{struct, list, map_type}
use duckdb_delta.Columns.{
  Identifier, no_identifier, field_identifier, name_identifier, DeltaColumn, DeltaColumns, column,
  no_columns, columns, column_identifier,
}

-- `~p` of a signed number.
abbrev pub complement : ℤ → ℤ
complement (pos n) = negsuc n
complement (negsuc n) = pos n

unfoldable pub container_child_field_id : ℤ → ℕ → ℤ
container_child_field_id parent_id zero = parent_id
container_child_field_id parent_id (suc position) = complement parent_id

-- The identifier of entry `position` of a container.
abbrev pub entry_identifier : ℤ → ℕ → Identifier → Identifier
entry_identifier parent_id position no_identifier =
    field_identifier (container_child_field_id parent_id position)
entry_identifier parent_id position (field_identifier id) = field_identifier id
entry_identifier parent_id position (name_identifier name) = name_identifier name

-- `to_int32` is DuckDB's cast of a VARCHAR, `GetValue<int32_t>`.
module _ (to_int32 : Text → Result ℤ) where
  abbrev pub parent_id : Identifier → Option (Result ℤ)
  parent_id no_identifier = none
  parent_id (field_identifier id) = some (ok id)
  parent_id (name_identifier name) = some (to_int32 name)

  -- A column with the identifier that it is to have. A map with one child holds its entries one
  -- level down.
  unfoldable mutual
    unfolding container_child_field_id

    pub fill_as : Identifier → DeltaColumn → Result DeltaColumn
    fill_as by (column name (struct fields) nullable physical_name id old varchar_type children) =
        fill_fields children >>= λ cs.
        ok (column name (struct fields) nullable physical_name id by varchar_type cs)
    fill_as by (column name (list element) nullable physical_name id old varchar_type children) =
        elim (parent_id by) [
          | none ↦
              ok (column name (list element) nullable physical_name id by varchar_type children)
          | some parent ↦ fill_first parent children >>= λ cs.
              ok (column name (list element) nullable physical_name id by varchar_type cs)
        ]
    fill_as by
          (column name (map_type key value) nullable physical_name id old varchar_type children) =
        elim (parent_id by) [
          | none ↦
              ok (
                column name (map_type key value) nullable physical_name id by varchar_type children)
          | some parent ↦ parent >>= λ p. fill_map p children >>= λ cs.
              ok (column name (map_type key value) nullable physical_name id by varchar_type cs)
        ]
    fill_as by (column name type nullable physical_name id old varchar_type children) =
        ok (column name type nullable physical_name id by varchar_type children)

    pub fill_fields : DeltaColumns → Result DeltaColumns
    fill_fields no_columns = ok no_columns
    fill_fields (columns col rest) =
        fill_as (column_identifier col) col >>= λ c. fill_fields rest >>= λ cs. ok (columns c cs)

    pub fill_first : Result ℤ → DeltaColumns → Result DeltaColumns
    fill_first parent no_columns =
        err (error internal "Attempted to access index 0 within vector of size 0")
    fill_first parent (columns col rest) = parent >>= λ p.
        fill_as (entry_identifier p 0 (column_identifier col)) col >>= λ c. ok (columns c rest)

    pub fill_entries : ℤ → ℕ → DeltaColumns → Result DeltaColumns
    fill_entries p position no_columns = ok no_columns
    fill_entries p position (columns col rest) =
        fill_as (entry_identifier p position (column_identifier col)) col >>= λ c.
        fill_entries p (suc position) rest >>= λ cs. ok (columns c cs)

    pub fill_map : ℤ → DeltaColumns → Result DeltaColumns
    fill_map p no_columns = ok no_columns
    fill_map p
          (columns (column name type nullable physical_name id by varchar_type kv) no_columns) =
        fill_entries p 0 kv >>= λ entries.
        ok (columns (column name type nullable physical_name id by varchar_type entries) no_columns)
    fill_map p (columns first (columns second rest)) =
        fill_as (entry_identifier p 0 (column_identifier first)) first >>= λ c.
        fill_as (entry_identifier p 1 (column_identifier second)) second >>= λ d.
        fill_entries p 2 rest >>= λ cs. ok (columns c (columns d cs))

  unfoldable pub fill_container_child_ids : DeltaColumn → Result DeltaColumn
  unfolding fill_as
  fill_container_child_ids col = fill_as (column_identifier col) col

abbrev pub is_field_id : Identifier → Bool
is_field_id no_identifier = false
is_field_id (field_identifier id) = true
is_field_id (name_identifier name) = false

unfoldable mutual
  pub has_field_ids_recursive : DeltaColumn → Bool
  has_field_ids_recursive (column name type nullable physical_name id by varchar_type children) =
      is_field_id by && all_have_ids_recursive children

  pub all_have_ids_recursive : DeltaColumns → Bool
  all_have_ids_recursive no_columns = true
  all_have_ids_recursive (columns col rest) =
      has_field_ids_recursive col && all_have_ids_recursive rest

pub data DeltaColumnMappingMode : Type 0 where
  no_mapping id_mapping name_mapping : DeltaColumnMappingMode

unfoldable pub check_field_ids : DeltaColumns → Result (Unit {0})
unfolding has_field_ids_recursive
check_field_ids no_columns = ok tt
check_field_ids (columns col rest) =
    if has_field_ids_recursive col
    then check_field_ids rest
    else err (error invalid_input "Column '%s' has no column mapping id, which id mode requires")

unfoldable pub resolve_by_field_id : DeltaColumnMappingMode → DeltaColumns → Result Bool
unfolding check_field_ids
resolve_by_field_id no_mapping schema = ok false
resolve_by_field_id name_mapping schema = ok false
resolve_by_field_id id_mapping schema = check_field_ids schema >> ok true
