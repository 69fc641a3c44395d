-- ===== src/FileList/Files.antt =====
-- The files of a list: `GetFileInternal`, `GetTotalFileCountInternal`, `GetAllFiles`,
-- `GetCardinality` and `GetMetaData` (src/functions/delta_scan/delta_multi_file_list.cpp), under the
-- list's lock. The loops take fuel, and `none` means that it ran out.
use duckdb_delta.Prelude.{
  ℕ, zero, suc, ◌+◌, ◌%◌, ◌^◌, Bool, true, false, Option, none, some, List, [], ◌∷◌, ◌==◌, length,
  get_elem?, Result, ok, err, Error, error, io, internal, undefined, if◌then◌else◌,
}
use duckdb_delta.Prelude.Bytes.{Text}
use duckdb_delta.Kernel.{ℤ}
use duckdb_delta.TimeTravel.{invalid_index}
use duckdb_delta.FileList.Snapshot.{SnapshotKernel}
use duckdb_delta.FileList.Transform.{Values}
use duckdb_delta.FileList.Scan.{
  ScanKernel, FileList, FileStep, DeltaFileMetaData, Row, ensure_scan_initialized,
}
use duckdb_delta.FileList.Visit.{visit_data}

module _ (K : SnapshotKernel) (now_ms : ℤ) (D : Values) (S : ScanKernel K D) where
  open K use {World}

  abbrev Files : Type 0
  Files = FileList K now_ms D S

  abbrev Step : Type 0 → Type 0
  Step = FileStep K now_ms D S

  abbrev pub Run : Type 0 → Type 0
  Run A = Option (Step A)

  -- An exception ends the method.
  abbrev pub after : {A B : Type 0} → Step A → (Files → A → Run B) → Run B
  after (s, ok a) f = f s a
  after (s, err e) f = some (s, err e)

  abbrev pub after_run : {A B : Type 0} → Run A → (Files → A → Run B) → Run B
  after_run none f = none
  after_run (some step) f = after step f

  -- The callback's error is thrown before the result of the call is looked at.
  abbrev pub unpack_scan_data : Result Bool → Files × Option Error → Step Bool
  unpack_scan_data result (s, some e) = (s, err e)
  unpack_scan_data (err e) (s, none) =
      (s, err (error io "Failed to unpack scan data from kernel: %s"))
  unpack_scan_data (ok have_scan_data) (s, none) = (s, ok have_scan_data)

  abbrev pub visit_batch :
      World
      → Files
      → S.Iterator × Option (List (Row K now_ms D S) × Result Bool) × Result Bool
      → Step Bool
  visit_batch w s (it, visited, result) =
      unpack_scan_data result
        (visit_data K now_ms D S w visited (record s { scan_data_iterator = some it }, none))

  unfoldable pub next_batch : World → Option S.Iterator → Files → Step Bool
  unfolding visit_data
  next_batch w none s = (s, err undefined)
  next_batch w (some it) s = visit_batch w s (S.scan_metadata_next w it)

  -- After a round: the loop goes on, or the kernel has no more data. The file that is not there has
  -- an empty path.
  abbrev pub continue : (Files → Run Text) → Files → Bool → Run Text
  continue loop s true = loop s
  continue loop s false = some (record s { files_exhausted = true }, ok [])

  abbrev pub file_or : (Files → Run Text) → Files → Option Text → Run Text
  file_or otherwise s (some path) = some (s, ok path)
  file_or otherwise s none = otherwise s

  -- The loop tests `i >= resolved_files.size()` before each round and reads `resolved_files[i]` at
  -- its end.
  unfoldable pub file_loop : ℕ → World → ℕ → Files → Run Text
  unfolding next_batch
  file_loop zero w i s = none
  file_loop (suc fuel) w i s =
      file_or (λ s. after (next_batch w s.scan_data_iterator s) (continue (file_loop fuel w i))) s
        (get_elem? s.resolved_files i)

  abbrev pub unless_exhausted : (Files → Run Text) → Files → Run Text
  unless_exhausted loop s = if s.files_exhausted then some (s, ok []) else loop s

  unfoldable pub get_file_internal : ℕ → World → ℕ → Files → Run Text
  unfolding ensure_scan_initialized file_loop
  get_file_internal fuel w i s = after (ensure_scan_initialized K now_ms D S w s) (λ s₁ done.
      file_or (unless_exhausted (file_loop fuel w i)) s₁ (get_elem? s₁.resolved_files i))

  -- The loop of `GetTotalFileCountInternal` and `GetAllFiles`, from file `i`; `fuel` bounds the
  -- files, `batches` the rounds of `GetFileInternal`.
  abbrev pub until_empty : (Files → Run (Unit {0})) → Files → Text → Run (Unit {0})
  until_empty loop s [] = some (s, ok tt)
  until_empty loop s (c ∷ cs) = loop s

  unfoldable pub expand_from : ℕ → ℕ → World → ℕ → Files → Run (Unit {0})
  unfolding get_file_internal
  expand_from zero batches w i s = none
  expand_from (suc fuel) batches w i s =
      after_run (get_file_internal batches w i s) (until_empty (expand_from fuel batches w (suc i)))

  unfoldable pub get_all_files : ℕ → ℕ → World → Files → Run (List Text)
  unfolding expand_from
  get_all_files fuel batches w s =
      after_run (expand_from fuel batches w (length s.resolved_files) s)
        (λ s₁ done. some (s₁, ok s₁.resolved_files))

  unfoldable pub get_total_file_count : ℕ → ℕ → World → Files → Run ℕ
  unfolding expand_from
  get_total_file_count fuel batches w s =
      after_run (expand_from fuel batches w (length s.resolved_files) s)
        (λ s₁ done. some (s₁, ok (length s₁.resolved_files)))

  -- The sum of the cardinalities that are known, on 64 bits, and whether any is.
  unfoldable pub sum_cardinalities : List (DeltaFileMetaData K now_ms D S) → ℕ → Bool → ℕ × Bool
  sum_cardinalities [] total_tuple_count have_any_stats = (total_tuple_count, have_any_stats)
  sum_cardinalities (m ∷ ms) total_tuple_count have_any_stats =
      let unknown = m.cardinality == invalid_index in
      sum_cardinalities ms
        (if unknown then total_tuple_count else (total_tuple_count + m.cardinality) % 2 ^ 64)
        (if unknown then have_any_stats else true)

  abbrev pub known_statistics : ℕ × Bool → Option ℕ
  known_statistics (total_tuple_count, true) = some total_tuple_count
  known_statistics (total_tuple_count, false) = none

  unfoldable pub statistics_of : ℕ → List (DeltaFileMetaData K now_ms D S) → Option ℕ
  unfolding sum_cardinalities
  statistics_of total_file_count metadata =
      if total_file_count == 0
      then some 0
      else known_statistics (sum_cardinalities metadata 0 false)

  -- `NodeStatistics` has the estimate for its maximum too.
  unfoldable pub get_cardinality : ℕ → ℕ → World → Files → Run (Option ℕ)
  unfolding get_total_file_count statistics_of
  get_cardinality fuel batches w s =
      after_run (get_total_file_count fuel batches w s)
        (λ s₁ total. some (s₁, ok (statistics_of total s₁.metadata)))

  unfoldable pub get_meta_data : ℕ → Files → Result (DeltaFileMetaData K now_ms D S)
  get_meta_data index s = elim (get_elem? s.metadata index) [
    | none ↦
        err
          (error internal "Attempted to fetch metadata for nonexistent file in DeltaMultiFileList")
    | some m ↦ ok m
  ]
