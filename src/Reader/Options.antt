-- ===== src/Reader/Options.antt =====
-- The options of `delta_scan` and what the list of a scan takes of them: `ParseOption`,
-- `CreateFileList` and the first part of `Bind`
-- (src/functions/delta_scan/delta_multi_file_reader.cpp).
use duckdb_delta.Prelude.{
  ℕ, Bool, true, false, Option, none, some, List, [], ◌∷◌, Result, ok, err, error, invalid_input,
  binder, and_then, if◌then◌else◌, ◌>>=◌,
}
use duckdb_delta.Prelude.Bytes.{Text, bytes}
use duckdb_delta.Kernel.{ℤ, negsuc}
use duckdb_delta.TimeTravel.{
  invalid_index, Timestamp, DeltaTimeTravelSpec, latest, from_version, from_timestamp,
}
use duckdb_delta.FileList.Snapshot.{SnapshotKernel, SnapshotList, Step, pin}

-- The options that `ParseOption` tells apart.
pub data ScanOption : Type 0 where
  pushdown_partition_info pushdown_filters version timestamp log_tail max_catalog_version :
      ScanOption
  of_core : ScanOption

-- DuckDB's casts of an option's value, and the log tail that `DeltaLogPathArray` makes of it.
pub record ScanValue (LogTail : Type 0) : Type 0 where
  pub as_ubigint : Result ℕ
  pub as_bigint : Result ℤ
  pub as_timestamp_tz : Result Timestamp
  pub as_log_tail : Result LogTail

module _ (K : SnapshotKernel) (now_ms : ℤ) (identifier_eq : Text → Text → Bool) where
  abbrev pub Value : Type 0
  Value = ScanValue K.LogTail

  unfoldable pub option_of_key : Text → ScanOption
  option_of_key key =
      if identifier_eq key (bytes "pushdown_partition_info")
      then pushdown_partition_info
      else if identifier_eq key (bytes "pushdown_filters")
      then pushdown_filters
      else if identifier_eq key (bytes "version")
      then version
      else if identifier_eq key (bytes "timestamp")
      then timestamp
      else if identifier_eq key (bytes "log_tail")
      then log_tail
      else if identifier_eq key (bytes "max_catalog_version")
      then max_catalog_version
      else of_core

  -- The reader's `requested`, and the custom options.
  pub record ScanOptions : Type 0 where
    pub requested : DeltaTimeTravelSpec
    pub partition_info_option : Option Value
    pub filters_option : Option Value
    pub log_tail_option : Option Value
    pub max_catalog_version_option : Option Value

  abbrev pub require_latest :
      DeltaTimeTravelSpec → Result DeltaTimeTravelSpec → Result DeltaTimeTravelSpec
  require_latest latest spec = spec
  require_latest (from_version v) spec =
      err (error invalid_input "delta_scan: 'version' and 'timestamp' are mutually exclusive")
  require_latest (from_timestamp t) spec =
      err (error invalid_input "delta_scan: 'version' and 'timestamp' are mutually exclusive")

  abbrev pub set_requested : ScanOptions → Result DeltaTimeTravelSpec → Result (ScanOptions × Bool)
  set_requested s spec =
      require_latest s.requested spec >>= λ named. ok (record s { requested = named }, true)

  -- `core` is `MultiFileReader::ParseOption`, whether it knows the option.
  unfoldable pub parse_scan_option :
      ScanOption → Result Bool → Value → ScanOptions → Result (ScanOptions × Bool)
  parse_scan_option pushdown_partition_info core value s =
      ok (record s { partition_info_option = some value }, true)
  parse_scan_option pushdown_filters core value s =
      ok (record s { filters_option = some value }, true)
  parse_scan_option version core value s =
      set_requested s (value.as_ubigint >>= λ v. ok (from_version v))
  parse_scan_option timestamp core value s =
      set_requested s (value.as_timestamp_tz >>= λ t. ok (from_timestamp t))
  parse_scan_option log_tail core value s = ok (record s { log_tail_option = some value }, true)
  parse_scan_option max_catalog_version core value s =
      ok (record s { max_catalog_version_option = some value }, true)
  parse_scan_option of_core core value s = core >>= λ known. ok (s, known)

  unfoldable pub parse_option :
      (Text → Value → Result Bool) → Text → Value → ScanOptions → Result (ScanOptions × Bool)
  unfolding option_of_key parse_scan_option
  parse_option core key value s = parse_scan_option (option_of_key key) (core key value) value s

  -- The options of a call, one after the other.
  unfoldable pub parse_options :
      (Text → Value → Result Bool) → List (Text × Value) → ScanOptions → Result ScanOptions
  unfolding parse_option
  parse_options core [] s = ok s
  parse_options core ((key, value) ∷ rest) s =
      parse_option core key value s >>= λ parsed. parse_options core rest parsed.0

  -- A list that is new, `DeltaMultiFileList(context, path, INVALID_INDEX)`. `delta_path` is
  -- `ToDeltaPath` of the path.
  abbrev pub new_list : Text → SnapshotList K now_ms
  new_list delta_path = record {
    path = delta_path;
    old_snapshot = none;
    delta_log_path = none;
    max_catalog_version = negsuc 0;
    version = invalid_index;
    has_requested_timestamp = false;
    requested_timestamp_ms = ℤ.pos 0;
    snapshot = none;
    initialized_snapshot = false;
  }

  -- With a snapshot that the catalog has injected, or without one.
  unfoldable pub create_file_list :
      Option (SnapshotList K now_ms) → List Text → Result (SnapshotList K now_ms)
  create_file_list injected [] =
      err (error binder "'delta_scan' only supports single path as input")
  create_file_list (some list) (path ∷ []) = ok list
  create_file_list none (path ∷ []) = ok (new_list path)
  create_file_list injected (path ∷ another ∷ rest) =
      err (error binder "'delta_scan' only supports single path as input")

  abbrev pub pin_requested :
      (ℤ → ℤ) → DeltaTimeTravelSpec → SnapshotList K now_ms → Step K now_ms (Unit {0})
  pin_requested get_epoch_ms latest s = (s, ok tt)
  pin_requested get_epoch_ms (from_version v) s = pin K now_ms get_epoch_ms (from_version v) s
  pin_requested get_epoch_ms (from_timestamp t) s = pin K now_ms get_epoch_ms (from_timestamp t) s

  abbrev pub set_log_tail : Option Value → SnapshotList K now_ms → Step K now_ms (Unit {0})
  set_log_tail none s = (s, ok tt)
  set_log_tail (some value) s =
      and_then (s, value.as_log_tail) (λ s₁ tail. (record s₁ { delta_log_path = some tail }, ok tt))

  abbrev pub set_max_catalog_version :
      Option Value → SnapshotList K now_ms → Step K now_ms (Unit {0})
  set_max_catalog_version none s = (s, ok tt)
  set_max_catalog_version (some value) s =
      and_then (s, value.as_bigint) (λ s₁ v. (record s₁ { max_catalog_version = v }, ok tt))

  -- `Bind` up to the bind of the list. An injected snapshot carries its own coordinates.
  unfoldable pub bind_requested :
      (ℤ → ℤ) → Bool → ScanOptions → SnapshotList K now_ms → Step K now_ms (Unit {0})
  unfolding pin
  bind_requested get_epoch_ms injected options s =
      if injected
      then (s, ok tt)
      else and_then (pin_requested get_epoch_ms options.requested s) (λ s₁ pinned.
        and_then (set_log_tail options.log_tail_option s₁)
          (λ s₂ tail. set_max_catalog_version options.max_catalog_version_option s₂))
