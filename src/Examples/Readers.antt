-- ===== src/Examples/Readers.antt =====
-- The columns and the options of a scan at concrete schemas (src/include/delta_utils.hpp,
-- src/functions/delta_scan/delta_multi_file_reader.cpp).
use duckdb_delta.Prelude.{
  ℕ, ◌≡◌, ◌≢◌, ◌⊎◌, refl, Bool, true, false, none, some, List, [], ◌∷◌, Result, ok, err, error,
  invalid, ◌>>=◌,
}
use duckdb_delta.Prelude.Bytes.{Text, bytes, text_eq}
use duckdb_delta.Kernel.{ℤ, pos, negsuc}
use duckdb_delta.Types.{integer, list, map_type}
use duckdb_delta.TimeTravel.{
  invalid_index, DeltaTimeTravelSpec, latest, from_version, from_timestamp, Timestamp,
  timestamp_to_epoch_ms,
}
use duckdb_delta.Columns.{
  no_identifier, field_identifier, DeltaColumn, DeltaColumns, column, no_columns, columns,
}
use duckdb_delta.Columns.FieldIds.{
  fill_container_child_ids, fill_fields, resolve_by_field_id, id_mapping,
}
use duckdb_delta.Columns.Derived.{IsShaped, file_column, fill_container_child_ids-file_column}
use duckdb_delta.Columns.Complete.{FieldsCarry, resolve_by_field_id-fill_fields}
use duckdb_delta.Reader.Matching.{by_name, match_file, use_names_below}
use duckdb_delta.Reader.Covered.{IsWhole, match_file-IsWhole}
use duckdb_delta.FileList.Snapshot.{SnapshotList, initialize_snapshot}
use duckdb_delta.FileList.Versions.{Loaded, ResolvedAt}
use duckdb_delta.Reader.Options.{ScanValue, ScanOptions, parse_options, bind_requested, new_list}
use duckdb_delta.Reader.Requested.{AsksNothing, AsksOnce, bind_requested-Loaded}
use duckdb_delta.Examples.Reading.{versions}

to_int32 : Text → Result ℤ
to_int32 t = err (error invalid "")

abbrev same_text : Text → Text
same_text t = t

-- A map of integers to lists of integers, with the field id 5.
abbrev plain : Text → DeltaColumn
plain name = column name integer true [] none no_identifier [] no_columns

abbrev list_of_integers : DeltaColumn
list_of_integers =
    column (bytes "value") (list integer) true [] none no_identifier []
      (columns (plain (bytes "list")) no_columns)

abbrev a_map : DeltaColumn
a_map =
    column (bytes "m") (map_type integer (list integer)) true (bytes "c5") (some 5)
      (field_identifier (pos 5)) []
      (columns (plain (bytes "key")) (columns list_of_integers no_columns))

fill_container_child_ids-file_column_example :
    fill_container_child_ids to_int32 (file_column a_map)
    ≡ (fill_container_child_ids to_int32 a_map >>= λ c. ok (file_column c))
unfolding IsShaped
fill_container_child_ids-file_column_example =
    fill_container_child_ids-file_column to_int32 a_map (tt, ((tt, tt), tt))

-- The key takes the map's id, the value its complement, and the value's element that again.
filled_map :
    fill_container_child_ids to_int32 a_map
    ≡ ok (
        column
          (bytes "m")
          (map_type integer (list integer))
          true
          (bytes "c5")
          (some 5)
          (field_identifier (pos 5))
          []
          (columns
            (column (bytes "key") integer true [] none (field_identifier (pos 5)) [] no_columns)
            (columns
              (column (bytes "value") (list integer) true [] none (field_identifier (negsuc 5)) [] (
                columns
                  (column
                    (bytes "list")
                    integer
                    true
                    []
                    none
                    (field_identifier (negsuc 5))
                    []
                    no_columns)
                  no_columns))
              no_columns)))
unfolding fill_container_child_ids
filled_map = refl

resolve_by_field_id-fill_fields_example :
    (filled : DeltaColumns) × (fill_fields to_int32 (columns a_map no_columns) ≡ ok filled)
    × (resolve_by_field_id id_mapping filled ≡ ok true)
unfolding FieldsCarry
resolve_by_field_id-fill_fields_example =
    resolve_by_field_id-fill_fields to_int32 (columns a_map no_columns)
      (refl, ((tt, tt), (tt, (tt, tt))), tt)

-- A file with a column under its physical name.
abbrev file : DeltaColumns
file = columns (column (bytes "c5") integer true [] none no_identifier [] no_columns) no_columns

abbrev scan_columns : DeltaColumns
scan_columns =
    columns
      (column (bytes "m") integer true (bytes "c5") (some 5) (field_identifier (pos 5)) []
        no_columns)
      no_columns

empty_text : (t : Text) → text_eq t [] ≡ true → t ≡ []
empty_text [] h = refl
empty_text (c ∷ cs) h = cc

matched :
    match_file text_eq to_int32 same_text (bytes "lenient") scan_columns file
    ≡ ok (by_name (use_names_below true scan_columns))
unfolding match_file
matched = refl

match_file-IsWhole_example :
    IsWhole text_eq to_int32 same_text
      (bytes "lenient")
      file
      (by_name (use_names_below true scan_columns))
match_file-IsWhole_example =
    match_file-IsWhole text_eq to_int32 same_text (bytes "lenient") scan_columns file
      (by_name (use_names_below true scan_columns)) empty_text ((λ e. cc e), tt) matched

abbrev version_three : ScanValue ℕ
version_three = record {
  as_ubigint = ok 3;
  as_bigint = ok (pos 3);
  as_timestamp_tz = err (error invalid "");
  as_log_tail = err (error invalid "");
}

abbrev options : List (Text × ScanValue ℕ)
options = (bytes "version", version_three) ∷ []

abbrev asked_for : DeltaTimeTravelSpec → ScanOptions versions (pos 9) text_eq
asked_for spec = record {
  requested = spec;
  partition_info_option = none;
  filters_option = none;
  log_tail_option = none;
  max_catalog_version_option = none;
}

abbrev core : Text → ScanValue ℕ → Result Bool
core key value = ok false

abbrev bound : SnapshotList versions (pos 9)
bound =
    (bind_requested versions (pos 9) text_eq (λ ms. ms) false (asked_for (from_version 3))
      (new_list versions (pos 9) text_eq (bytes "/t/"))).0

abbrev scanning : SnapshotList versions (pos 9)
scanning = (initialize_snapshot versions (pos 9) 7 bound).0

bind_requested-Loaded_example :
    ((AsksNothing versions (pos 9) text_eq options × (from_version 3 ≡ latest))
      ⊎ AsksOnce versions (pos 9) text_eq options (from_version 3))
    × Loaded versions (pos 9) scanning
    × ((v : ℕ) → from_version 3 ≡ from_version v → v ≢ invalid_index → scanning.version ≡ v)
    × ((t : Timestamp)
        → from_version 3 ≡ from_timestamp t
        → (ms : ℤ) × (v : ℕ) × (timestamp_to_epoch_ms (λ ms. ms) t ≡ ok ms)
          × ResolvedAt versions (pos 9) 7 ms bound v
          × (v ≢ invalid_index → scanning.version ≡ v))
unfolding parse_options bind_requested initialize_snapshot
bind_requested-Loaded_example =
    bind_requested-Loaded versions (pos 9) text_eq core (λ ms. ms) options (bytes "/t/") 7
      (asked_for latest) (asked_for (from_version 3)) bound scanning refl refl refl refl
