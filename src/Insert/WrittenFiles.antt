-- ===== src/Insert/WrittenFiles.antt =====
-- `ParseColumnStats`, the checks of partition values and `AddWrittenFiles`
-- (src/storage/delta_insert.cpp): what the copy reports of the files it wrote.
use duckdb_delta.Prelude.{
  ℕ, ◌+◌, ◌%◌, ◌^◌, Bool, true, false, not, ◌&&◌, ◌||◌, Option, none, some, List, [], ◌∷◌, ◌++◌,
  length, ltb, ◌==◌, Result, ok, err, error, invalid_input, internal, not_implemented, constraint,
  undefined, if◌then◌else◌, ◌>>=◌, ◌>>◌,
}
use duckdb_delta.Prelude.Bytes.{Text, bytes, text_eq}
use duckdb_delta.Types.{LogicalType, boolean, date, timestamp, timestamp_tz}
use duckdb_delta.DataFile.{DeltaPartition, DeltaColumnStats, DeltaDataFile}
use duckdb_delta.Kernel.{ℤ, pos}
use duckdb_delta.TimeTravel.{ltb_ℤ}
use duckdb_delta.Insert.QuotedList.{parse_quoted_list}
use duckdb_delta.Columns.{DeltaColumn, DeltaColumns, column_name, column_type}
use duckdb_delta.Insert.Columns.{
  written_type, written_path, find_written_column, stats_path_is_recordable,
}

-- A row of the copy's report.
pub record CopyRow : Type 0 where
  pub file_name : Text
  pub row_count : ℕ
  pub file_size_bytes : ℕ
  pub footer_size : ℕ
  pub column_stats : List (Text × List (Text × Text))
  pub partition_info : Option (List (Text × Option Text))

-- DuckDB's functions that the report is read with. An instant is finite or not, and has a year.
pub record ReportReader : Type 1 where
  pub Instant : Type 0
  pub to_unsigned : Text → Result ℕ
  -- the order of a `case_insensitive_map_t`
  pub ci_equals : Text → Text → Bool
  pub identifier_eq : Text → Text → Bool
  pub is_nested : LogicalType → Bool
  -- `TryConvertTimestampTZ`, with success and no zone
  pub try_convert_timestamp_tz : Text → Option Instant
  pub is_finite : Instant → Bool
  pub year : Instant → ℤ
  pub format_utc : Instant → Text
  -- the cast to DATE or TIMESTAMP
  pub cast_naive : LogicalType → Text → Result Instant

-- `DeltaInsertGlobalState`, as far as the report reads and writes it.
pub record InsertState : Type 0 where
  pub schema : DeltaColumns
  pub column_mapped : Bool
  pub not_null_constraints : List (Text × List Text)
  pub written_files : List DeltaDataFile
  pub insert_count : ℕ

abbrev pub no_stats : DeltaColumnStats
no_stats = record {
  min = [];
  max = [];
  null_count = 0;
  num_values = 0;
  column_size_bytes = 0;
  contains_nan = false;
  has_null_count = false;
  has_num_values = false;
  has_min = false;
  has_max = false;
  any_valid = true;
  has_contains_nan = false;
  root_type = boolean;
}

module _ (D : ReportReader) where
  unfoldable pub parse_stat : Text → Text → DeltaColumnStats → Result DeltaColumnStats
  parse_stat name value stats =
      if text_eq name (bytes "min")
      then ok (record stats { min = value; has_min = true })
      else if text_eq name (bytes "max")
      then ok (record stats { max = value; has_max = true })
      else if text_eq name (bytes "null_count")
      then (D.to_unsigned value >>= λ n.
          ok (record stats { has_null_count = true; null_count = n }))
      else if text_eq name (bytes "column_size_bytes")
      then (D.to_unsigned value >>= λ n. ok (record stats { column_size_bytes = n }))
      else if text_eq name (bytes "has_nan")
      then ok
          (record stats { has_contains_nan = true; contains_nan = text_eq value (bytes "true") })
      else if text_eq name (bytes "num_values")
      then (D.to_unsigned value >>= λ n.
          ok (record stats { has_num_values = true; num_values = n }))
      else if text_eq name (bytes "min_is_exact") || text_eq name (bytes "max_is_exact")
      then ok stats
      else if text_eq name (bytes "nan_count")
      then ok stats
      else if text_eq name (bytes "variant_type")
      then ok stats
      else err (error not_implemented "Unsupported stats type \"%s\" in DeltaInsert::Sink()")

  unfoldable pub parse_stats : List (Text × Text) → DeltaColumnStats → Result DeltaColumnStats
  unfolding parse_stat
  parse_stats [] stats = ok stats
  parse_stats ((name, value) ∷ rest) stats = parse_stat name value stats >>= λ s. parse_stats rest s

  unfoldable pub parse_column_stats : List (Text × Text) → Result DeltaColumnStats
  unfolding parse_stats
  parse_column_stats col_stats = parse_stats col_stats no_stats

  -- The loop of `ParseQuotedList` ends on every input, so that the last case never stands.
  abbrev pub read_list : Option (Result (List Text)) → Result (List Text)
  read_list (some r) = r
  read_list none = err undefined

  abbrev pub first_name : List Text → Result Text
  first_name [] = err (error internal "Attempted to access index 0 within vector of size 0")
  first_name (name ∷ names) = ok name

  abbrev pub find_written : InsertState → Text → Result DeltaColumn
  find_written s name = elim (find_written_column s.column_mapped name s.schema) [
    | none ↦ err (error internal "Column %s not found in table %s")
    | some col ↦ ok col
  ]

  abbrev pub texts_eq : List Text → List Text → Bool
  texts_eq [] [] = true
  texts_eq [] (y ∷ ys) = false
  texts_eq (x ∷ xs) [] = false
  texts_eq (x ∷ xs) (y ∷ ys) = text_eq x y && texts_eq xs ys

  unfoldable pub constraints_of : Text → List (Text × List Text) → Option (List Text)
  constraints_of name [] = none
  constraints_of name ((key, paths) ∷ rest) =
      if D.ci_equals key name then some paths else constraints_of name rest

  -- The path of a constraint as the file names it.
  unfoldable pub constraint_path : Bool → DeltaColumn → Text → Result (List Text)
  unfolding written_path
  constraint_path column_mapped col path =
      read_list (parse_quoted_list path b'.') >>= λ logical_path.
      if column_mapped then written_path col logical_path else ok logical_path

  -- The loop over the constraints below a column.
  unfoldable pub check_paths : Bool → DeltaColumn → List Text → List Text → Result (Unit {0})
  unfolding constraint_path
  check_paths column_mapped col column_names [] = ok tt
  check_paths column_mapped col column_names (path ∷ paths) =
      constraint_path column_mapped col path >>= λ written.
      if texts_eq column_names written
      then err (error constraint "NOT NULL constraint failed: %s.%s")
      else check_paths column_mapped col column_names paths

  unfoldable pub check_constraint :
      Bool → DeltaColumn → List Text → Option (List Text) → Result (Unit {0})
  unfolding check_paths
  check_constraint column_mapped col column_names none = ok tt
  check_constraint column_mapped col column_names (some paths) =
      if length column_names == 1
      then err (error constraint "NOT NULL constraint failed: %s.%s")
      else check_paths column_mapped col column_names paths

  abbrev pub holds_null : DeltaColumnStats → Bool
  holds_null stats = stats.has_null_count && ltb 0 stats.null_count

  unfoldable pub check_not_null :
      InsertState → DeltaColumn → List Text → DeltaColumnStats → Result (Unit {0})
  unfolding check_constraint constraints_of
  check_not_null s col column_names stats =
      if holds_null stats
      then check_constraint s.column_mapped col column_names
          (constraints_of (column_name col) s.not_null_constraints)
      else ok tt

  abbrev pub StatsEntry : Type 0
  StatsEntry = List Text × DeltaColumnStats

  -- The statistics of one column, if the log can record them.
  unfoldable pub column_entry : InsertState → Text × List (Text × Text) → Result (List StatsEntry)
  unfolding parse_column_stats check_not_null written_type stats_path_is_recordable
  column_entry s (col_name, col_stats) =
      read_list (parse_quoted_list col_name b'.') >>= λ column_names.
      parse_column_stats col_stats >>= λ stats. first_name column_names >>= λ name.
      find_written s name >>= λ col.
      (if s.column_mapped then written_type col else ok (column_type col)) >>= λ coltype.
      check_not_null s col column_names stats
      >> ok (
          if stats_path_is_recordable D.identifier_eq D.is_nested coltype column_names
          then (column_names, record stats { root_type = coltype }) ∷ []
          else [])

  unfoldable pub column_entries :
      InsertState → List (Text × List (Text × Text)) → Result (List StatsEntry)
  unfolding column_entry
  column_entries s [] = ok []
  column_entries s (c ∷ cs) =
      column_entry s c >>= λ entry. column_entries s cs >>= λ rest. ok (entry ++ rest)

  unfoldable pub throw_if_partition_value_out_of_range : D.Instant → Result (Unit {0})
  throw_if_partition_value_out_of_range instant =
      if not (D.is_finite instant)
      then err (
          error invalid_input
            "Delta partition column '%s' cannot hold the value '%s': it must be finite")
      else if ltb_ℤ (D.year instant) (pos 1) || ltb_ℤ (pos 9999) (D.year instant)
      then err (
          error invalid_input
            "Delta partition column '%s' cannot hold the value '%s': years 0001 to 9999")
      else ok tt

  unfoldable pub delta_timestamp_partition_value : Text → Result Text
  unfolding throw_if_partition_value_out_of_range
  delta_timestamp_partition_value copy_value = elim (D.try_convert_timestamp_tz copy_value) [
    | none ↦
        err
          (error internal "Delta partition column '%s': cannot read back the partition value '%s'")
    | some instant ↦ throw_if_partition_value_out_of_range instant >> ok (D.format_utc instant)
  ]

  abbrev pub partition_text : LogicalType → Text → Result Text
  partition_text timestamp_tz value = delta_timestamp_partition_value value
  partition_text date value = D.cast_naive date value >>= λ instant.
      throw_if_partition_value_out_of_range instant >> ok value
  partition_text timestamp value = D.cast_naive timestamp value >>= λ instant.
      throw_if_partition_value_out_of_range instant >> ok value
  partition_text type value = ok value

  unfoldable pub partition_entry : InsertState → Text × Option Text → Result DeltaPartition
  unfolding delta_timestamp_partition_value
  partition_entry s (name, none) = ok (record { partition_column = name; partition_value = none })
  partition_entry s (name, some value) = find_written s name >>= λ col.
      partition_text (column_type col) value >>= λ text.
      ok (record { partition_column = name; partition_value = some text })

  unfoldable pub partition_entries :
      InsertState → List (Text × Option Text) → Result (List DeltaPartition)
  unfolding partition_entry
  partition_entries s [] = ok []
  partition_entries s (p ∷ ps) =
      partition_entry s p >>= λ entry. partition_entries s ps >>= λ rest. ok (entry ∷ rest)

  abbrev pub partitions_of :
      InsertState → Option (List (Text × Option Text)) → Result (List DeltaPartition)
  partitions_of s none = ok []
  partitions_of s (some partitions) = partition_entries s partitions

  unfoldable pub written_file : InsertState → CopyRow → Result DeltaDataFile
  unfolding column_entries partition_entries
  written_file s row = column_entries s row.column_stats >>= λ stats.
      partitions_of s row.partition_info >>= λ partitions. ok (record {
        file_name = row.file_name;
        row_count = row.row_count;
        file_size_bytes = row.file_size_bytes;
        footer_size = row.footer_size;
        partition_values = partitions;
        last_modified_time = 0;
        column_stats = stats;
      })

  -- An exception leaves the files and the count of the rows before it.
  unfoldable pub add_written_files : InsertState → List CopyRow → InsertState × Result (Unit {0})
  unfolding written_file
  add_written_files s [] = (s, ok tt)
  add_written_files s (row ∷ rows) =
      let counted = record s { insert_count = (s.insert_count + row.row_count) % 2 ^ 64 } in
      elim (written_file counted row) [
        | err e ↦ (counted, err e)
        | ok file ↦
            add_written_files (record counted { written_files = s.written_files ++ file ∷ [] }) rows
      ]
