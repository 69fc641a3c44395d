-- ===== src/Examples/Files.antt =====
-- A table of two files and one partition column, listed lazily (src/functions/delta_scan/).
use duckdb_delta.Prelude.{
  ℕ, ◌≡◌, refl, inr, Bool, true, false, Option, none, some, List, [], ◌∷◌, ◌++◌, map, ok, err,
  error, invalid, Result, ◌==◌, arith, if◌then◌else◌,
}
use duckdb_delta.Prelude.Bytes.{Text, bytes, text_eq}
use duckdb_delta.Kernel.{pos, negsuc}
use duckdb_delta.TimeTravel.{invalid_index}
use duckdb_delta.Uri.{resolved_file}
use duckdb_delta.Examples.Reading.{versions}
use duckdb_delta.FileList.Transform.{
  Values, NamedColumn, Transform, PartitionValues, find_partition_values, value_at, kernel_name,
}
use duckdb_delta.FileList.Patches.{Constants, visit_struct_patch_expression}
use duckdb_delta.FileList.Layout.{
  Constant, Group, constant_at, group_columns, group_values, insertions, field_patches, run_columns,
  run_values,
}
use duckdb_delta.FileList.Placed.{Apart, find_partition_values-placed}
use duckdb_delta.FileList.Scan.{ScanKernel, ScanRow, FileList, DeltaFileMetaData}
use duckdb_delta.FileList.Files.{
  get_file_internal, get_all_files, get_total_file_count, statistics_of,
}
use duckdb_delta.FileList.Appended.{Readable}
use duckdb_delta.FileList.Expanded.{Lists, at_end, batch, Finds}
use duckdb_delta.FileList.Lazy.{get_file_internal-Finds}
use duckdb_delta.FileList.Counts.{get_all_files-returns}
use duckdb_delta.FileList.Cardinality.{statistics_of-total, known_total, any_known}

-- Values that are texts, truth values and NULL.
data Simple : Type 0 where
  nothing : Simple
  truth : Bool → Simple
  text : Text → Simple

is_nothing : Simple → Bool
is_nothing nothing = true
is_nothing (truth b) = false
is_nothing (text t) = false

text_of : Simple → Text
text_of nothing = []
text_of (truth b) = []
text_of (text t) = t

truth_of : Simple → Result Bool
truth_of nothing = err (error invalid "")
truth_of (truth b) = ok b
truth_of (text t) = err (error invalid "")

abbrev simple : Values
simple = record {
  Value = Simple;
  null = nothing;
  is_null = is_nothing;
  to_string = text_of;
  to_bool = truth_of;
  ci_equals = text_eq;
}

to_bool-truth : (b : Bool) → truth_of (truth b) ≡ ok b
unfolding truth_of
to_bool-truth b = refl

to_string-text : (t : Text) → text_of (text t) ≡ t
unfolding text_of
to_string-text t = refl

is_null-text : (t : Text) → is_nothing (text t) ≡ false
unfolding is_nothing
is_null-text t = refl

is_null-nothing : is_nothing nothing ≡ true
unfolding is_nothing
is_null-nothing = refl

abbrev simple_constants : Constants simple
simple_constants = record {
  boolean = truth;
  string = text;
  to_bool-boolean = to_bool-truth;
  to_string-string = to_string-text;
  is_null-string = is_null-text;
  is_null-null = is_null-nothing;
}

abbrev column_of : Text → NamedColumn
column_of name = record { name = name; physical_name = [] }

-- The table (day, a, b, country), partitioned by day and country.
abbrev groups : List (Group simple simple_constants)
groups =
    (column_of (bytes "a"), [])
    ∷ (column_of (bytes "b"), (column_of (bytes "country"), text (bytes "NL")) ∷ [])
    ∷ []

abbrev leading : List (Constant simple simple_constants)
leading = (column_of (bytes "day"), text (bytes "1")) ∷ []

apart : Apart simple simple_constants false (run_columns simple simple_constants leading) groups
unfolding kernel_name
apart = ((refl, tt), refl, ((refl, (refl, tt)), refl, tt))

find_partition_values-placed_example :
    (transform : Transform simple) × (res : PartitionValues simple) × (visit_struct_patch_expression
        simple simple_constants
        (insertions simple simple_constants (run_values simple simple_constants leading))
        (field_patches simple simple_constants false groups)
        []
        []
      ≡ ok transform)
    × (find_partition_values simple transform
          (run_columns simple simple_constants leading
            ++ group_columns simple simple_constants groups)
          false
        ≡ ok res)
    × ((i : ℕ)
        → value_at simple res i
          ≡ constant_at simple simple_constants
              (map some (run_values simple simple_constants leading)
                ++ group_values simple simple_constants groups)
              i)
find_partition_values-placed_example =
    find_partition_values-placed simple simple_constants false leading groups apart

abbrev row_of : Text → ScanRow (List Bool) (List (Transform simple))
row_of path = record { path = path; num_records = some 5; dv_info = none; transform = none }

abbrev two_rows : List (ScanRow (List Bool) (List (Transform simple)))
two_rows = row_of (bytes "a.parquet") ∷ row_of (bytes "b.parquet") ∷ []

-- One batch of two files.
next_of :
    ℕ
    → ℕ × Option (List (ScanRow (List Bool) (List (Transform simple))) × Result Bool) × Result Bool
next_of it = if it == 0 then (1, some (two_rows, ok true), ok true) else (it, none, ok false)

abbrev batches : ScanKernel versions simple
batches = record {
  Filters = Unit {0};
  Scan = Unit {0};
  Iterator = ℕ;
  Dv = List Bool;
  Expression = List (Transform simple);
  Schema = Unit {0};
  scan_hex = λ t. 0;
  reads_column_mapping = λ s. false;
  scan = λ w s cols filters. (ok tt, none);
  scan_table_root = λ s. bytes "/t/";
  scan_metadata_iter_init = λ w s. ok 0;
  get_partition_columns = λ s. [];
  identifier_eq = text_eq;
  to_column_definitions = λ w s. ok tt;
  resolve_by_field_id = λ s. ok false;
  scan_metadata_next = λ w it. next_of it;
  selection_vector_from_dv = λ w dv root. ok (some dv);
  to_parsed_expression = λ e. some e;
}

abbrev table_path : Text
table_path = bytes "/t/"

abbrev scanned : FileList versions (pos 9) simple batches
scanned = record {
  snapshots = record {
    path = table_path;
    old_snapshot = none;
    delta_log_path = none;
    max_catalog_version = negsuc 0;
    version = 3;
    has_requested_timestamp = false;
    requested_timestamp_ms = pos 0;
    snapshot = some 3;
    initialized_snapshot = true;
  };
  global_columns = column_of (bytes "a") ∷ [];
  table_filters = tt;
  column_mapped = false;
  scan_data_iterator = some 0;
  root_path = table_path;
  partitions = [];
  partition_ids = [];
  lazy_loaded_schema = none;
  resolves_by_field_id = false;
  initialized_scan = true;
  files_exhausted = false;
  metadata = [];
  resolved_files = [];
}

abbrev both_files : List Text
both_files = bytes "/t/a.parquet" ∷ bytes "/t/b.parquet" ∷ []

scanned-Lists : Lists versions (pos 9) simple batches 7 1 scanned both_files
unfolding next_of resolved_file
scanned-Lists = record {
  snapshot_ready = refl;
  scan_ready = refl;
  rest = two_rows;
  readable = (row-Readable (bytes "a.parquet"), (row-Readable (bytes "b.parquet"), tt));
  ahead = inr (0, refl, refl, batch 1 two_rows [] true refl (at_end 1 refl) refl);
  listed = refl;
}
  where
    row-Readable : (path : Text) → Readable versions (pos 9) simple batches 7 scanned (row_of path)
    row-Readable path = record {
      vector = λ dv e. cc e;
      unpartitioned = λ e. refl;
      constants = λ t e. cc e;
    }

get_file_internal-Finds_example :
    Finds versions
      (pos 9)
      simple
      batches
      7
      1
      1
      both_files
      (get_file_internal versions (pos 9) simple batches 2 7 1 scanned)
get_file_internal-Finds_example =
    get_file_internal-Finds versions (pos 9) simple batches 2 1 1 7 scanned both_files scanned-Lists
      (omega arith)

get_all_files-returns_example :
    (s' : FileList versions (pos 9) simple batches) × (get_all_files versions
        (pos 9)
        simple
        batches
        3
        2
        7
        scanned
      ≡ some (s', ok both_files))
    × (get_total_file_count versions (pos 9) simple batches 3 2 7 scanned ≡ some (s', ok 2))
    × (s'.resolved_files ≡ both_files)
get_all_files-returns_example =
    get_all_files-returns versions (pos 9) simple batches 3 2 1 7 scanned both_files scanned-Lists
      ((λ e. cc e), ((λ e. cc e), tt)) (omega arith) (omega arith)

abbrev metadata_of : ℕ → DeltaFileMetaData versions (pos 9) simple batches
metadata_of cardinality = record {
  delta_snapshot_version = 3;
  file_number = 0;
  cardinality = cardinality;
  selection_vector = none;
  partition_map = [];
  transform_of_file = none;
}

abbrev three_sizes : List (DeltaFileMetaData versions (pos 9) simple batches)
three_sizes = metadata_of 5 ∷ metadata_of invalid_index ∷ metadata_of 7 ∷ []

statistics_of-total_example : statistics_of versions (pos 9) simple batches 3 three_sizes ≡ (
    if 3 == 0
    then some 0
    else if any_known versions (pos 9) simple batches three_sizes
    then some (known_total versions (pos 9) simple batches three_sizes)
    else none)
statistics_of-total_example =
    statistics_of-total versions (pos 9) simple batches 3 three_sizes (omega arith)

cardinality_twelve : statistics_of versions (pos 9) simple batches 3 three_sizes ≡ some 12
unfolding statistics_of
cardinality_twelve = refl
