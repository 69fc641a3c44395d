-- ===== src/Examples/Reading.antt =====
-- A snapshot that is loaded, and a deletion vector (src/functions/delta_scan/).
use duckdb_delta.Prelude.{
  ℕ, ◌≤◌, ◌≡◌, ◌≢◌, refl, Bool, true, false, none, some, List, [], ◌∷◌, arith, ok, length,
  get_elem?,
}
use duckdb_delta.Prelude.Bytes.{bytes}
use duckdb_delta.Kernel.{pos}
use duckdb_delta.TimeTravel.{invalid_index}
use duckdb_delta.FileList.Snapshot.{SnapshotKernel, SnapshotList, initialize_snapshot}
use duckdb_delta.FileList.Versions.{initialize_snapshot-Loaded, Loaded}
use duckdb_delta.DeleteFilter.{filter}
use duckdb_delta.DeleteFilter.Selection.{filter-keeps, kept_rows}

-- A kernel whose snapshots and builders are versions: the world is the latest one.
abbrev pub versions : SnapshotKernel
versions = record {
  World = ℕ;
  Snapshot = ℕ;
  Builder = ℕ;
  LogTail = ℕ;
  create_delta_engine = λ w path. ok tt;
  get_snapshot_builder = λ w path. ok w;
  get_snapshot_builder_from = λ w s. ok w;
  with_version = λ b v. v;
  with_log_tail = λ b t. ok b;
  with_max_catalog_version = λ b v. b;
  build = λ w b. ok b;
  is_missing_max_catalog_version = λ e. false;
  version = λ s. s;
  latest_version_as_of = λ w s ms. ok 3;
}

abbrev unread : SnapshotList versions (pos 9)
unread = record {
  path = bytes "/t/";
  old_snapshot = some 2;
  delta_log_path = none;
  max_catalog_version = pos 0;
  version = invalid_index;
  has_requested_timestamp = true;
  requested_timestamp_ms = pos 5;
  snapshot = none;
  initialized_snapshot = false;
}

abbrev loaded : SnapshotList versions (pos 9)
loaded = (initialize_snapshot versions (pos 9) 7 unread).0

initialize_snapshot-Loaded_example :
    Loaded versions (pos 9) loaded
    × (true ≡ false → invalid_index ≢ invalid_index → loaded.version ≡ invalid_index)
unfolding initialize_snapshot
initialize_snapshot-Loaded_example =
    initialize_snapshot-Loaded versions (pos 9) 7 unread loaded refl refl

abbrev deletions : List Bool
deletions = true ∷ false ∷ true ∷ []

abbrev untouched : ℕ → ℕ
untouched j = 0

filter-keeps_example :
    let r = filter deletions 1 4 untouched in
    (r.0 ≡ length (kept_rows deletions 1 0 4))
    × ((j v : ℕ) → get_elem? (kept_rows deletions 1 0 4) j ≡ some v → r.1 j ≡ v)
    × ((j : ℕ) → 4 ≤ j → r.1 j ≡ untouched j)
filter-keeps_example = filter-keeps deletions 1 4 untouched (omega arith)

filter_three : (filter deletions 1 4 untouched).0 ≡ 3
unfolding filter
filter_three = refl
