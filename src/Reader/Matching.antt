-- ===== src/Reader/Matching.antt =====
-- How the columns of a file are matched to those of the table in id mode: `AllHaveFieldIds`,
-- `CoveredByNames`, `UseNameIdentifiers` (src/include/delta_utils.hpp), `ReadColumnMappingPolicy`,
-- `ResolveFileWithoutFieldIds` and the choice that `InitializeReader` makes
-- (src/functions/delta_scan/delta_multi_file_reader.cpp). Log lines are left out.
use duckdb_delta.Prelude.{
  Bool, true, false, ◌&&◌, ◌||◌, [], ◌∷◌, Result, ok, err, error, invalid_input, if◌then◌else◌,
  ◌>>=◌, ◌>>◌,
}
use duckdb_delta.Prelude.Bytes.{Text, bytes, text_eq}
use duckdb_delta.Kernel.{ℤ}
use duckdb_delta.Columns.{
  Identifier, no_identifier, name_identifier, DeltaColumn, DeltaColumns, column, no_columns,
  columns, column_name, column_physical_name, column_identifier,
}
use duckdb_delta.Columns.FieldIds.{is_field_id, fill_fields, fill_as}

unfoldable pub all_have_field_ids : DeltaColumns → Bool
all_have_field_ids no_columns = true
all_have_field_ids (columns col rest) =
    is_field_id (column_identifier col) && all_have_field_ids rest

-- The name of a physical column, if it has one that counts.
abbrev pub name_identifier_of : Bool → Text → Identifier
name_identifier_of true [] = no_identifier
name_identifier_of true (c ∷ cs) = name_identifier (c ∷ cs)
name_identifier_of false physical_name = no_identifier

unfoldable mutual
  pub use_name_identifiers : Bool → DeltaColumn → DeltaColumn
  use_name_identifiers physical
        (column name type nullable physical_name id by varchar_type children) =
      column name type nullable physical_name id (name_identifier_of physical physical_name)
        varchar_type (use_names_below physical children)

  pub use_names_below : Bool → DeltaColumns → DeltaColumns
  use_names_below physical no_columns = no_columns
  use_names_below physical (columns col rest) =
      columns (use_name_identifiers physical col) (use_names_below physical rest)

pub data DeltaColumnMappingPolicy : Type 0 where
  strict lenient : DeltaColumnMappingPolicy

-- `lower` is `StringUtil::Lower`.
unfoldable pub read_column_mapping_policy : (Text → Text) → Text → Result DeltaColumnMappingPolicy
read_column_mapping_policy lower setting =
    let policy = lower setting in
    if text_eq policy (bytes "strict")
    then ok strict
    else if text_eq policy (bytes "lenient")
    then ok lenient
    else err
        (error invalid_input "delta_column_mapping_policy must be 'strict' or 'lenient', not '%s'")

pub data Matched : Type 0 where
  by_field_id by_name : DeltaColumns → Matched

-- `ci_equals` is the order of a `case_insensitive_set_t`, `to_int32` the cast of a VARCHAR.
module _ (ci_equals : Text → Text → Bool) (to_int32 : Text → Result ℤ) where
  abbrev pub matched_name : Bool → DeltaColumn → Text
  matched_name physical col = if physical then column_physical_name col else column_name col

  unfoldable pub names_hold : Bool → Text → DeltaColumns → Bool
  names_hold physical name no_columns = false
  names_hold physical name (columns col rest) =
      ci_equals name (matched_name physical col) || names_hold physical name rest

  unfoldable pub covered_by_names : Bool → DeltaColumns → DeltaColumns → Bool
  unfolding names_hold
  covered_by_names physical schema no_columns = true
  covered_by_names physical schema (columns col rest) =
      names_hold physical (column_name col) schema && covered_by_names physical schema rest

  -- The two rungs: physical names first.
  unfoldable pub match_by_names : DeltaColumns → DeltaColumns → Result DeltaColumns
  unfolding covered_by_names use_name_identifiers
  match_by_names scan_columns file_columns =
      if covered_by_names true scan_columns file_columns
      then ok (use_names_below true scan_columns)
      else if covered_by_names false scan_columns file_columns
      then ok (use_names_below false scan_columns)
      else err (
          error invalid_input
            "File '%s' has no parquet field ids, and its column names match neither the physical nor the logical names of the table's schema")

  abbrev pub refuse_strict : DeltaColumnMappingPolicy → Result (Unit {0})
  refuse_strict strict = err (
      error invalid_input
        "File '%s' has no parquet field ids, which the table's column mapping mode 'id' requires. Set delta_column_mapping_policy = 'lenient' to match its columns by name instead")
  refuse_strict lenient = ok tt

  unfoldable pub resolve_file_without_field_ids :
      (Text → Text) → Text → DeltaColumns → DeltaColumns → Result DeltaColumns
  unfolding read_column_mapping_policy match_by_names
  resolve_file_without_field_ids lower setting scan_columns file_columns =
      read_column_mapping_policy lower setting >>= λ policy.
      refuse_strict policy >> match_by_names scan_columns file_columns

  -- With the table resolved by field id: the file's columns with their ids filled in, or the
  -- table's columns under names.
  unfoldable pub match_file : (Text → Text) → Text → DeltaColumns → DeltaColumns → Result Matched
  unfolding all_have_field_ids fill_as resolve_file_without_field_ids
  match_file lower setting scan_columns file_columns =
      if all_have_field_ids file_columns
      then (fill_fields to_int32 file_columns >>= λ filled. ok (by_field_id filled))
      else (resolve_file_without_field_ids lower setting scan_columns file_columns >>= λ cols.
          ok (by_name cols))
