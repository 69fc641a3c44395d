-- ===== src/FileList/Scan.antt =====
-- The scan of a file list: `InitializeScan`, `EnsureScanInitialized`, the callbacks of
-- `ScanDataCallBack`, and `GetFileInternal`
-- (src/functions/delta_scan/delta_multi_file_list.cpp), under the list's lock.
use duckdb_delta.Prelude.{
  ℕ, suc, Bool, true, false, Option, none, some, List, [], ◌∷◌, ◌++◌, ◌==◌, length, Result, ok, err,
  Error, error, io, undefined, and_then, if◌then◌else◌,
}
use duckdb_delta.Prelude.Bytes.{Text}
use duckdb_delta.Kernel.{ℤ}
use duckdb_delta.FileList.Snapshot.{SnapshotKernel, SnapshotList, ensure_snapshot_initialized}
use duckdb_delta.FileList.Transform.{Values, NamedColumn, Transform}

-- What the kernel hands over for one file: its add path, the number of records of its statistics,
-- its deletion vector and its transform.
pub record ScanRow (Dv : Type 0) (Expression : Type 0) : Type 0 where
  pub path : Text
  pub num_records : Option ℕ
  pub dv_info : Option Dv
  pub transform : Option Expression

-- The kernel's scan of a snapshot. `D` is DuckDB's values.
pub record ScanKernel (K : SnapshotKernel) (D : Values) : Type 1 where
  pub Filters : Type 0
  pub Scan : Type 0
  pub Iterator : Type 0
  pub Dv : Type 0
  pub Expression : Type 0
  pub Schema : Type 0
  -- `sscanf(s, "%x", &ii)`
  pub scan_hex : Text → ℕ
  -- the mode that the snapshot is read with, and whether it is not `NONE`
  pub reads_column_mapping : K.Snapshot → Bool
  -- the scan, and the error of the visitor of its predicate
  pub scan : K.World → K.Snapshot → List NamedColumn → Filters → Result Scan × Option Error
  pub scan_table_root : Scan → Text
  pub scan_metadata_iter_init : K.World → Scan → Result Iterator
  pub get_partition_columns : K.Snapshot → List Text
  -- the comparison of a string with an `Identifier`
  pub identifier_eq : Text → Text → Bool
  pub to_column_definitions : K.World → Scan → Result Schema
  -- it throws in id mode where a field has no id
  pub resolve_by_field_id : Schema → Result Bool
  -- The rows of the next batch, if the callback is called for one; and what the call returns, after
  -- what the visit of the rows has returned.
  pub scan_metadata_next :
      K.World
      → Iterator
      → Iterator × Option (List (ScanRow Dv Expression) × Result Bool) × Result Bool
  pub selection_vector_from_dv : K.World → Dv → Text → Result (Option (List Bool))
  -- `KernelExpressionVisitor::ToParsedExpression`
  pub to_parsed_expression : Expression → Option (List (Transform D))

module _ (K : SnapshotKernel) (now_ms : ℤ) (D : Values) (S : ScanKernel K D) where
  open K use {World}

  abbrev pub Row : Type 0
  Row = ScanRow S.Dv S.Expression

  pub record DeltaFileMetaData : Type 0 where
    pub delta_snapshot_version : ℕ
    pub file_number : ℕ
    pub cardinality : ℕ
    pub selection_vector : Option (List Bool)
    pub partition_map : List (Text × D.Value)
    pub transform_of_file : Option (List (Transform D))

  -- The fields of `DeltaMultiFileList` that its files depend on.
  pub record FileList : Type 0 where
    pub snapshots : SnapshotList K now_ms
    pub global_columns : List NamedColumn
    pub table_filters : S.Filters
    pub column_mapped : Bool
    pub scan_data_iterator : Option S.Iterator
    pub root_path : Text
    pub partitions : List Text
    pub partition_ids : List ℕ
    pub lazy_loaded_schema : Option S.Schema
    pub resolves_by_field_id : Bool
    pub initialized_scan : Bool
    pub files_exhausted : Bool
    pub metadata : List DeltaFileMetaData
    pub resolved_files : List Text

  abbrev pub FileStep : Type 0 → Type 0
  FileStep A = FileList × Result A

  -- The first column of the name, from index `i`.
  unfoldable pub partition_index : Text → ℕ → List NamedColumn → Option ℕ
  partition_index partition i [] = none
  partition_index partition i (col ∷ cols) =
      if S.identifier_eq partition col.name then some i else partition_index partition (suc i) cols

  unfoldable pub partition_indices : List NamedColumn → List Text → List ℕ
  unfolding partition_index
  partition_indices cols [] = []
  partition_indices cols (partition ∷ rest) = elim (partition_index partition 0 cols) [
    | none ↦ partition_indices cols rest
    | some i ↦ i ∷ partition_indices cols rest
  ]

  -- The indices are pushed behind those that are there.
  unfoldable pub load_partitions : List Text → FileList → FileStep (Unit {0})
  unfolding partition_indices
  load_partitions [] s = (s, ok tt)
  load_partitions (name ∷ names) s =
      let partitions = name ∷ names in
      let ids = s.partition_ids ++ partition_indices s.global_columns partitions in
      (
        record s { partitions = partitions; partition_ids = ids },
        (if length partitions == length ids
            then ok tt
            else err (error io "Failed to map partitions to columns")),
      )

  unfoldable pub throw_visitor_error : Result S.Scan × Option Error → Result S.Scan
  throw_visitor_error (err e, visited) = err e
  throw_visitor_error (ok scan, some e) = err (error io "Failed to initialize Scan for Delta table")
  throw_visitor_error (ok scan, none) = ok scan

  unfoldable pub start_iterator : World → S.Scan → FileList → FileStep (Unit {0})
  start_iterator w scan s =
      and_then (record s { root_path = S.scan_table_root scan }, S.scan_metadata_iter_init w scan)
        (λ s₁ it. (record s₁ { scan_data_iterator = some it }, ok tt))

  unfoldable pub load_schema : World → S.Scan → FileList → FileStep (Unit {0})
  load_schema w scan s =
      and_then (s, S.to_column_definitions w scan)
        (λ s₁ schema.
          and_then (record s₁ { lazy_loaded_schema = some schema }, S.resolve_by_field_id schema)
            (λ s₂ by_field_id.
              (record s₂ { resolves_by_field_id = by_field_id; initialized_scan = true }, ok tt)))

  abbrev pub scan_of_snapshot : World → Option K.Snapshot → FileList → FileStep (Unit {0})
  scan_of_snapshot w none s = (s, err undefined)
  scan_of_snapshot w (some snapshot) s =
      and_then (s, throw_visitor_error (S.scan w snapshot s.global_columns s.table_filters))
        (λ s₁ scan. and_then (start_iterator w scan s₁) (λ s₂ started.
          and_then (load_partitions (S.get_partition_columns snapshot) s₂)
            (λ s₃ mapped. load_schema w scan s₃)))

  unfoldable pub initialize_scan : World → FileList → FileStep (Unit {0})
  unfolding throw_visitor_error start_iterator load_partitions load_schema
  initialize_scan w s = scan_of_snapshot w s.snapshots.snapshot s

  abbrev pub read_mapping : Option K.Snapshot → Bool
  read_mapping none = false
  read_mapping (some snapshot) = S.reads_column_mapping snapshot

  abbrev pub keep_snapshots :
      SnapshotList K now_ms × Result (Unit {0}) → FileList → FileStep (Unit {0})
  keep_snapshots (snapshots, err e) s = (record s { snapshots = snapshots }, err e)
  keep_snapshots (snapshots, ok done) s =
      (record s { snapshots = snapshots; column_mapped = read_mapping snapshots.snapshot }, ok tt)

  -- `EnsureSnapshotInitialized`, with the column mapping mode that `InitializeSnapshot` reads last.
  unfoldable pub ensure_snapshot : World → FileList → FileStep (Unit {0})
  unfolding ensure_snapshot_initialized
  ensure_snapshot w s =
      if s.snapshots.initialized_snapshot
      then (s, ok tt)
      else keep_snapshots (ensure_snapshot_initialized K now_ms w s.snapshots) s

  unfoldable pub ensure_scan_initialized : World → FileList → FileStep (Unit {0})
  unfolding ensure_snapshot initialize_scan
  ensure_scan_initialized w s =
      and_then (ensure_snapshot w s)
        (λ s₁ done. if s₁.initialized_scan then (s₁, ok tt) else initialize_scan w s₁)
