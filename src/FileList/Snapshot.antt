-- ===== src/FileList/Snapshot.antt =====
-- `BuildSnapshot`, `CreateSnapshotBuilder`, `VersionAsOf`, `ResolveTimestamp`,
-- `ResolveTimestampWithin`, `InitializeSnapshot`, `GetVersion` and `Pin`
-- (src/functions/delta_scan/delta_multi_file_list.cpp), under the list's lock. Log lines are left out.
use duckdb_delta.Prelude.{
  ℕ, Bool, true, false, ◌||◌, Option, none, some, Result, ok, err, Error, error, undefined,
  invalid_input, internal, and_then, if◌then◌else◌, ◌>>=◌, ◌>>◌, leb, ◌==◌,
}
use duckdb_delta.Prelude.Bytes.{Text}
use duckdb_delta.Kernel.{ℤ, pos, negsuc}
use duckdb_delta.TimeTravel.{
  invalid_index, DeltaTimeTravelSpec, latest, from_version, from_timestamp, timestamp_to_epoch_ms,
  reject_future_timestamp, Timestamp,
}

-- The kernel's snapshots and their builders, and the engine.
pub record SnapshotKernel : Type 1 where
  pub World : Type 0
  pub Snapshot : Type 0
  pub Builder : Type 0
  pub LogTail : Type 0
  pub create_delta_engine : World → Text → Result (Unit {0})
  pub get_snapshot_builder : World → Text → Result Builder
  pub get_snapshot_builder_from : World → Snapshot → Result Builder
  pub with_version : Builder → ℕ → Builder
  pub with_log_tail : Builder → LogTail → Result Builder
  pub with_max_catalog_version : Builder → ℕ → Builder
  pub build : World → Builder → Result Snapshot
  pub is_missing_max_catalog_version : Error → Bool
  pub version : Snapshot → ℕ
  pub latest_version_as_of : World → Snapshot → ℤ → Result ℕ

module _ (K : SnapshotKernel) (now_ms : ℤ) where
  open K use {World, Builder, LogTail}

  -- The fields of `DeltaMultiFileList` that its snapshot depends on.
  pub record SnapshotList : Type 0 where
    pub path : Text
    pub old_snapshot : Option K.Snapshot
    pub delta_log_path : Option LogTail
    pub max_catalog_version : ℤ
    pub version : ℕ
    pub has_requested_timestamp : Bool
    pub requested_timestamp_ms : ℤ
    pub snapshot : Option K.Snapshot
    pub initialized_snapshot : Bool

  abbrev pub Step : Type 0 → Type 0
  Step A = SnapshotList × Result A

  unfoldable pub rephrase : Result K.Snapshot → Result K.Snapshot
  rephrase (ok built) = ok built
  rephrase (err e) = err (
      if K.is_missing_max_catalog_version e
      then error invalid_input "a catalog-managed Delta table: attach the catalog that owns it"
      else e)

  unfoldable pub build_snapshot : World → Builder → Result K.Snapshot
  unfolding rephrase
  build_snapshot w builder = rephrase (K.build w builder)

  -- An old snapshot is a hint only for its own version and later ones.
  unfoldable pub first_builder : World → Text → ℕ → Option K.Snapshot → Result Builder
  first_builder w path target_version (some old) =
      if (target_version == invalid_index) || leb (K.version old) target_version
      then K.get_snapshot_builder_from w old
      else K.get_snapshot_builder w path
  first_builder w path target_version none = K.get_snapshot_builder w path

  abbrev pub with_target : ℕ → Builder → Builder
  with_target target_version b =
      if target_version == invalid_index then b else K.with_version b target_version

  abbrev pub with_tail : Option LogTail → Builder → Result Builder
  with_tail none b = ok b
  with_tail (some tail) b = K.with_log_tail b tail

  abbrev pub with_catalog_version : ℤ → Builder → Builder
  with_catalog_version (pos n) b = K.with_max_catalog_version b n
  with_catalog_version (negsuc n) b = b

  unfoldable pub create_snapshot_builder : World → ℕ → SnapshotList → Result Builder
  unfolding first_builder
  create_snapshot_builder w target_version s =
      first_builder w s.path target_version s.old_snapshot >>= λ b.
      with_tail s.delta_log_path (with_target target_version b) >>= λ b.
      ok (with_catalog_version s.max_catalog_version b)

  unfoldable pub version_as_of : World → K.Snapshot → ℤ → Result ℕ
  unfolding reject_future_timestamp
  version_as_of w head timestamp_ms =
      reject_future_timestamp now_ms timestamp_ms >> K.latest_version_as_of w head timestamp_ms

  -- The head is kept as the list's snapshot if the timestamp resolves to it.
  abbrev pub keep_head : K.Snapshot → Result ℕ → SnapshotList → Step ℕ
  keep_head head (err e) s = (s, err e)
  keep_head head (ok resolved) s =
      ((if resolved == K.version head then record s { snapshot = some head } else s), ok resolved)

  abbrev pub resolve_from_head : World → ℤ → Result K.Snapshot → SnapshotList → Step ℕ
  resolve_from_head w timestamp_ms (err e) s = (s, err e)
  resolve_from_head w timestamp_ms (ok head) s =
      keep_head head (version_as_of w head timestamp_ms) s

  unfoldable pub resolve_timestamp : World → ℤ → SnapshotList → Step ℕ
  unfolding reject_future_timestamp create_snapshot_builder build_snapshot version_as_of
  resolve_timestamp w timestamp_ms s =
      resolve_from_head w timestamp_ms
        (reject_future_timestamp now_ms timestamp_ms
          >> (create_snapshot_builder w invalid_index s >>= build_snapshot w))
        s

  -- The version that a timestamp stands for replaces the list's.
  unfoldable pub fix_version : World → SnapshotList → Step (Unit {0})
  unfolding resolve_timestamp
  fix_version w s =
      if s.has_requested_timestamp
      then and_then (resolve_timestamp w s.requested_timestamp_ms s)
          (λ s' v. (record s' { version = v }, ok tt))
      else (s, ok tt)

  -- The snapshot is assigned before its version is compared.
  abbrev pub check_version : K.Snapshot → SnapshotList → Step (Unit {0})
  check_version built s =
      if s.version == invalid_index
      then (record s { snapshot = some built; version = K.version built }, ok tt)
      else if K.version built == s.version
      then (record s { snapshot = some built }, ok tt)
      else (
        record s { snapshot = some built },
        err (error invalid_input "Snapshot version does not match requested version"),
      )

  abbrev pub take_built : Result K.Snapshot → SnapshotList → Step (Unit {0})
  take_built (err e) s = (s, err e)
  take_built (ok built) s = check_version built s

  unfoldable pub load_snapshot : World → Option K.Snapshot → SnapshotList → Step (Unit {0})
  unfolding create_snapshot_builder build_snapshot
  load_snapshot w (some loaded) s = (s, ok tt)
  load_snapshot w none s = take_built (create_snapshot_builder w s.version s >>= build_snapshot w) s

  unfoldable pub fix_unless_loaded : World → Option K.Snapshot → SnapshotList → Step (Unit {0})
  unfolding fix_version
  fix_unless_loaded w (some loaded) s = (s, ok tt)
  fix_unless_loaded w none s = fix_version w s

  -- Up to the column mapping mode, which the schema's reader uses.
  unfoldable pub initialize_snapshot : World → SnapshotList → Step (Unit {0})
  unfolding fix_unless_loaded load_snapshot
  initialize_snapshot w s =
      and_then (s, K.create_delta_engine w s.path)
        (λ s₁ engine. and_then (fix_unless_loaded w s₁.snapshot s₁) (λ s₂ fixed.
          and_then (load_snapshot w s₂.snapshot s₂)
            (λ s₃ loaded. (record s₃ { initialized_snapshot = true }, ok tt))))

  unfoldable pub ensure_snapshot_initialized : World → SnapshotList → Step (Unit {0})
  unfolding initialize_snapshot
  ensure_snapshot_initialized w s =
      if s.initialized_snapshot then (s, ok tt) else initialize_snapshot w s

  unfoldable pub get_version : World → SnapshotList → Step ℕ
  unfolding ensure_snapshot_initialized
  get_version w s = and_then (ensure_snapshot_initialized w s) (λ s' done. (s', ok s'.version))

  abbrev pub within : World → Option K.Snapshot → ℤ → Result ℕ
  within w none timestamp_ms = err undefined
  within w (some head) timestamp_ms = version_as_of w head timestamp_ms

  -- `get_epoch_ms` is DuckDB's `Timestamp::GetEpochMs`.
  unfoldable pub resolve_timestamp_within : (ℤ → ℤ) → World → Timestamp → SnapshotList → Step ℕ
  unfolding ensure_snapshot_initialized version_as_of timestamp_to_epoch_ms
  resolve_timestamp_within get_epoch_ms w t s =
      and_then (ensure_snapshot_initialized w s)
        (λ s' done. (s', timestamp_to_epoch_ms get_epoch_ms t >>= within w s'.snapshot))

  abbrev pub pin_timestamp : Result ℤ → SnapshotList → Step (Unit {0})
  pin_timestamp (err e) s =
      (record s { version = invalid_index; has_requested_timestamp = true }, err e)
  pin_timestamp (ok ms) s = (
    record s {
      version = invalid_index;
      has_requested_timestamp = true;
      requested_timestamp_ms = ms;
    },
    ok tt,
  )

  abbrev pub pin_spec : (ℤ → ℤ) → DeltaTimeTravelSpec → SnapshotList → Step (Unit {0})
  pin_spec get_epoch_ms latest s = (s, ok tt)
  pin_spec get_epoch_ms (from_version v) s =
      (record s { version = v; has_requested_timestamp = false }, ok tt)
  pin_spec get_epoch_ms (from_timestamp t) s =
      pin_timestamp (timestamp_to_epoch_ms get_epoch_ms t) s

  unfoldable pub pin : (ℤ → ℤ) → DeltaTimeTravelSpec → SnapshotList → Step (Unit {0})
  unfolding timestamp_to_epoch_ms
  pin get_epoch_ms spec s =
      if s.initialized_snapshot
      then (
        s,
        err (error internal "DeltaMultiFileList::Pin called after the snapshot was initialized"),
      )
      else pin_spec get_epoch_ms spec s
