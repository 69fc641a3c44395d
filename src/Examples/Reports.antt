-- ===== src/Examples/Reports.antt =====
-- The report of a write into a column-mapped table with a constraint on a struct field
-- (src/storage/delta_insert.cpp).
use mathlib.Core.List.{Memᴰ}
use duckdb_delta.Prelude.{
  ℕ, ◌≡◌, ◌≢◌, List, inl, inr, arith, refl, Bool, true, false, none, some, [], ◌∷◌, ◌++◌, map,
  Result, ok,
}
use duckdb_delta.Prelude.Bytes.{Text, bytes, text_eq}
use duckdb_delta.DataFile.{DeltaDataFile}
use duckdb_delta.Kernel.{ℤ, pos}
use duckdb_delta.Types.{LogicalType, struct, field, end, integer}
use duckdb_delta.Insert.QuotedList.{parse_quoted_list}
use duckdb_delta.Columns.{DeltaColumn, column, columns, no_columns, column_type, no_identifier}
use duckdb_delta.Insert.Columns.{find_written_column, written_type, unnamed_type}
use duckdb_delta.Insert.WrittenTypes.{Describes, written_type-unnamed_type}
use duckdb_delta.Insert.WrittenFiles.{
  CopyRow, ReportReader, InsertState, constraints_of, add_written_files,
}
use duckdb_delta.Insert.FieldPaths.{path_of}
use duckdb_delta.Insert.Upheld.{InFile, add_written_files-Upheld}

abbrev unary : Text → Result ℕ
unary s = ok 1

abbrev never_nested : LogicalType → Bool
never_nested (struct fields) = true
never_nested type = false

abbrev reader : ReportReader
reader = record {
  Instant = ℤ;
  to_unsigned = unary;
  ci_equals = text_eq;
  identifier_eq = text_eq;
  is_nested = never_nested;
  try_convert_timestamp_tz = λ s. some (pos 2000);
  is_finite = λ i. true;
  year = λ i. i;
  format_utc = λ i. bytes "2000-01-01T00:00:00.000000Z";
  cast_naive = λ t s. ok (pos 2000);
}

-- `s STRUCT(f INTEGER NOT NULL, g INTEGER)`, written as `c1` with the fields `c2` and `c3`.
abbrev mapped_column : DeltaColumn
mapped_column =
    column (bytes "s") (struct (field (bytes "f") integer (field (bytes "g") integer end))) true
      (bytes "c1") (some 1) no_identifier []
      (columns (column (bytes "f") integer false (bytes "c2") (some 2) no_identifier [] no_columns)
        (columns (column (bytes "g") integer true (bytes "c3") (some 3) no_identifier [] no_columns)
          no_columns))

abbrev inserting : InsertState
inserting = record {
  schema = columns mapped_column no_columns;
  column_mapped = true;
  not_null_constraints = (bytes "s", bytes "\"s\".\"f\"" ∷ []) ∷ [];
  written_files = [];
  insert_count = 0;
}

-- The other field holds a NULL.
abbrev reported : CopyRow
reported = record {
  file_name = bytes "x.parquet";
  row_count = 1;
  file_size_bytes = 100;
  footer_size = 10;
  column_stats = (bytes "\"c1\".\"c3\"", (bytes "null_count", bytes "1") ∷ []) ∷ [];
  partition_info = none;
}

abbrev inserted : InsertState
inserted = (add_written_files reader inserting (reported ∷ [])).0

add_written_files-Upheld_example :
    ◌≢◌ {A = List Text} (bytes "c3" ∷ []) []
    × ¬ (
        (fields : List Text) × Memᴰ (path_of [] (bytes "s" ∷ fields)) (bytes "\"s\".\"f\"" ∷ [])
        × InFile true fields mapped_column (bytes "c3" ∷ []))
    × (map (λ (f : DeltaDataFile). f.file_name) inserted.written_files
        ≡ map (λ (f : DeltaDataFile). f.file_name) inserting.written_files
          ++ map (λ (r : CopyRow). r.file_name) (reported ∷ []))
unfolding add_written_files parse_quoted_list find_written_column constraints_of
add_written_files-Upheld_example =
    add_written_files-Upheld reader (reported ∷ []) inserting inserted reported
      (bytes "\"c1\".\"c3\"") ((bytes "null_count", bytes "1") ∷ []) (bytes "c1") (bytes "c3" ∷ [])
      mapped_column 1 (bytes "\"s\".\"f\"" ∷ []) refl (Memᴰ.head refl) (Memᴰ.head refl) refl
      (inr (refl, refl, tt)) (omega arith) (inl (refl, refl)) refl

mapped_column-Describes : Describes mapped_column
unfolding Describes
mapped_column-Describes = (_, refl, tt, (_, refl, tt, refl))

written_type-unnamed_type_example :
    (w : LogicalType) × (written_type mapped_column ≡ ok w)
    × (unnamed_type w ≡ unnamed_type (column_type mapped_column))
written_type-unnamed_type_example = written_type-unnamed_type mapped_column mapped_column-Describes
