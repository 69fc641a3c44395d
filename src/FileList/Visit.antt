-- ===== src/FileList/Visit.antt =====
-- The callbacks of `ScanDataCallBack` (src/functions/delta_scan/delta_multi_file_list.cpp), which
-- add the files of a batch to a list.
use duckdb_delta.Prelude.{
  ℕ, Bool, Option, none, some, List, [], ◌∷◌, ◌++◌, length, is_empty, Result, ok, err, Error, error,
  io, internal, and_then, if◌then◌else◌, ◌>>=◌,
}
use duckdb_delta.Prelude.Bytes.{Text}
use duckdb_delta.Kernel.{ℤ}
use duckdb_delta.TimeTravel.{invalid_index}
use duckdb_delta.Uri.{resolved_file}
use duckdb_delta.FileList.Snapshot.{SnapshotKernel}
use duckdb_delta.FileList.Transform.{
  Values, Transform, transform_expression, PartitionValues, find_partition_values, value_at,
}
use duckdb_delta.FileList.Scan.{ScanKernel, FileList, FileStep, DeltaFileMetaData, Row}

module _ (K : SnapshotKernel) (now_ms : ℤ) (D : Values) (S : ScanKernel K D) where
  open K use {World}

  abbrev Files : Type 0
  Files = FileList K now_ms D S

  abbrev Step : Type 0 → Type 0
  Step = FileStep K now_ms D S

  abbrev pub MetaData : Type 0
  MetaData = DeltaFileMetaData K now_ms D S

  abbrev cardinality_of : Option ℕ → ℕ
  cardinality_of none = invalid_index
  cardinality_of (some num_records) = num_records

  -- The file and its metadata, as they are before the deletion vector and the transform are read.
  unfoldable pub append_file : Row K now_ms D S → Files → Files
  append_file row s = record s {
    resolved_files = s.resolved_files ++ resolved_file S.scan_hex s.snapshots.path row.path ∷ [];
    metadata =
        s.metadata
        ++ record {
          delta_snapshot_version = s.snapshots.version;
          file_number = length s.resolved_files;
          cardinality = cardinality_of row.num_records;
          selection_vector = none;
          partition_map = [];
          transform_of_file = none;
        }
          ∷ [];
  }

  -- A change of `metadata.back()`.
  unfoldable pub change_last : (MetaData → MetaData) → List MetaData → List MetaData
  change_last f [] = []
  change_last f (m ∷ []) = f m ∷ []
  change_last f (m ∷ n ∷ ms) = m ∷ change_last f (n ∷ ms)

  abbrev set_selection_vector : Option (List Bool) → Files → Step (Unit {0})
  set_selection_vector none s = (s, ok tt)
  set_selection_vector (some dv) s = (
    record s {
      metadata = change_last (λ (m : MetaData). record m { selection_vector = some dv }) s.metadata;
    },
    ok tt,
  )

  unfoldable pub read_deletion_vector : World → Option S.Dv → Files → Step (Unit {0})
  unfolding change_last
  read_deletion_vector w none s = (s, ok tt)
  read_deletion_vector w (some dv_info) s =
      and_then (s, S.selection_vector_from_dv w dv_info s.root_path)
        (λ s₁ dv. set_selection_vector dv s₁)

  -- The one function expression that a transform is parsed to.
  unfoldable pub single_function : List (Transform D) → Result (Transform D)
  single_function (transform_expression name ops ∷ []) = ok (transform_expression name ops)
  single_function parsed = err (
      error io
        "Failed to fetch partitions from delta kernel transform: Transform is unknown expression")

  -- `partition_ids[i]` is refused past the end.
  unfoldable pub constant_map :
      PartitionValues D → List Text → List ℕ → Result (List (Text × D.Value))
  constant_map values [] ids = ok []
  constant_map values (partition ∷ partitions) [] =
      err (error internal "Attempted to access index within vector past its end")
  constant_map values (partition ∷ partitions) (id ∷ ids) =
      constant_map values partitions ids >>= λ rest. ok ((partition, value_at D values id) ∷ rest)

  unfoldable pub partition_constants : List (Transform D) → Files → Result (List (Text × D.Value))
  unfolding single_function constant_map find_partition_values value_at
  partition_constants parsed s = single_function parsed >>= λ transform.
      find_partition_values D transform s.global_columns s.column_mapped >>= λ values.
      constant_map values s.partitions s.partition_ids

  abbrev parse_transform : Option (List (Transform D)) → Files → Step (Unit {0})
  parse_transform none s = (
    s,
    err (error io "Failed to parse transformation expression from delta kernel: null returned"),
  )
  parse_transform (some parsed) s =
      and_then (s, partition_constants parsed s)
        (λ s₁ constants. (
          record s₁ {
            metadata =
                change_last
                  (λ (m : MetaData). record m {
                    partition_map = constants;
                    transform_of_file = some parsed;
                  })
                  s₁.metadata;
          },
          ok tt,
        ))

  unfoldable pub read_transform : Option S.Expression → Files → Step (Unit {0})
  unfolding partition_constants change_last
  read_transform none s = (
    s,
    (if is_empty s.partitions
        then ok tt
        else err (
            error io "Failed to fetch partitions from delta kernel transform! Transform is empty")),
  )
  read_transform (some transform) s = parse_transform (S.to_parsed_expression transform) s

  -- `VisitCallbackInternal`: an exception and an error of the context are one to the caller.
  unfoldable pub visit_file : World → Row K now_ms D S → Files → Step (Unit {0})
  unfolding append_file read_deletion_vector read_transform
  visit_file w row s =
      and_then (read_deletion_vector w row.dv_info (append_file row s))
        (λ s₁ done. read_transform row.transform s₁)

  -- `VisitCallback`, called for every row of a batch: the latest error stays in the context.
  abbrev pub latest_error : Option Error → Files × Result (Unit {0}) → Files × Option Error
  latest_error before (s, ok done) = (s, before)
  latest_error before (s, err e) = (s, some e)

  unfoldable pub visit_rows :
      World → List (Row K now_ms D S) → Files × Option Error → Files × Option Error
  unfolding visit_file
  visit_rows w [] context = context
  visit_rows w (row ∷ rows) (s, before) =
      visit_rows w rows (latest_error before (visit_file w row s))

  abbrev pub add_visit_error : Result Bool → Files × Option Error → Files × Option Error
  add_visit_error (ok more) context = context
  add_visit_error (err e) (s, before) = (s, some e)

  -- `VisitData`, if the iterator has called it.
  unfoldable pub visit_data :
      World
      → Option (List (Row K now_ms D S) × Result Bool)
      → Files × Option Error
      → Files × Option Error
  unfolding visit_rows
  visit_data w none context = context
  visit_data w (some (rows, visited)) context = add_visit_error visited (visit_rows w rows context)
