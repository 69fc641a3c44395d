-- ===== src/FileList/Lazy.antt =====
-- What the callers of a file list see (src/functions/delta_scan/delta_multi_file_list.cpp).
use duckdb_delta.Prelude.{
  ℕ, ◌<◌, ◌≡◌, refl, ap, sym, ◌∙◌, inl, inr, true, none, some, List, [], ◌++◌, get_elem?, ok,
  Option-cases, subst, arith, map, if_true, if_false, and_then, if◌then◌else◌,
}
use mathlib.Core.List.{append-nil}
use duckdb_delta.Prelude.Bytes.{Text}
use duckdb_delta.Kernel.{ℤ}
use duckdb_delta.FileList.Snapshot.{SnapshotKernel}
use duckdb_delta.FileList.Transform.{Values}
use duckdb_delta.FileList.Scan.{
  ScanKernel, FileList, FileStep, ensure_scan_initialized, initialize_scan, ensure_snapshot,
}
use duckdb_delta.FileList.Files.{
  Run, after, file_loop, get_file_internal, unless_exhausted, file_or,
}
use duckdb_delta.FileList.Appended.{resolve}
use duckdb_delta.FileList.Expanded.{path_at, Lists, Finds, file_loop-Finds, path_at-found}

path_at-none : (xs : List Text) (i : ℕ) → get_elem? xs i ≡ none → [] ≡ path_at xs i
path_at-none xs i e = rw (e, path_at) refl

module _ (K : SnapshotKernel) (now_ms : ℤ) (D : Values) (S : ScanKernel K D) where
  open K use {World}

  abbrev Files : Type 0
  Files = FileList K now_ms D S

  ensured_snapshot :
      (w : World) (s : Files)
      → s.snapshots.initialized_snapshot ≡ true
      → ensure_snapshot K now_ms D S w s ≡ (s, ok tt)
  unfolding ensure_snapshot
  ensured_snapshot w s a = if_true s.snapshots.initialized_snapshot _ _ a

  -- A list that has its scan starts nothing.
  ensured :
      (w : World) (s : Files)
      → s.snapshots.initialized_snapshot ≡ true
      → s.initialized_scan ≡ true
      → ensure_scan_initialized K now_ms D S w s ≡ (s, ok tt)
  unfolding ensure_scan_initialized
  ensured w s a b =
      ap
        (λ (r : FileStep K now_ms D S (Unit {0})). and_then r (λ (s₁ : Files) done.
          if s₁.initialized_scan then (s₁, ok tt) else initialize_scan K now_ms D S w s₁))
        (ensured_snapshot w s a)
      ∙ if_true s.initialized_scan _ _ b

  -- `GetFileInternal` past the initialization.
  abbrev internal : ℕ → ℕ → World → Files → Run K now_ms D S Text
  internal fuel i w s =
      file_or K now_ms D S (unless_exhausted K now_ms D S (file_loop K now_ms D S fuel w i)) s
        (get_elem? s.resolved_files i)

  get_file_internal-ready :
      (fuel i n : ℕ) (w : World) (s : Files) (files : List Text)
      → Lists K now_ms D S w n s files
      → get_file_internal K now_ms D S fuel w i s ≡ internal fuel i w s
  unfolding get_file_internal
  get_file_internal-ready fuel i n w s files l =
      ap
        (λ (r : FileStep K now_ms D S (Unit {0})).
          after K now_ms D S r (λ s₁ done. internal fuel i w s₁))
        (ensured w s l.snapshot_ready l.scan_ready)

  internal-found :
      (fuel i : ℕ) (w : World) (s : Files) (p : Text)
      → get_elem? s.resolved_files i ≡ some p
      → internal fuel i w s ≡ some (s, ok p)
  internal-found fuel i w s p e =
      ap (file_or K now_ms D S (unless_exhausted K now_ms D S (file_loop K now_ms D S fuel w i)) s)
        e

  internal-missing :
      (fuel i : ℕ) (w : World) (s : Files)
      → get_elem? s.resolved_files i ≡ none
      → internal fuel i w s ≡ unless_exhausted K now_ms D S (file_loop K now_ms D S fuel w i) s
  internal-missing fuel i w s e =
      ap (file_or K now_ms D S (unless_exhausted K now_ms D S (file_loop K now_ms D S fuel w i)) s)
        e

  -- A list that is expanded has all its files.
  pub expanded :
      (n : ℕ) (w : World) (s : Files) (files : List Text)
      → Lists K now_ms D S w n s files
      → s.files_exhausted ≡ true
      → files ≡ s.resolved_files
  expanded n w s files l done = elim l.ahead [
    | inl (d, none_left) ↦
        l.listed
        ∙ ap (λ rs. s.resolved_files ++ map (resolve K now_ms D S s) rs) none_left
        ∙ append-nil s.resolved_files
    | inr (it, at, more, y) ↦ cc (sym more ∙ done)
  ]

  -- However far the list has been read, asking for file `i` gives the one fixed list's file `i`, and
  -- an empty path past its end; and the list goes on to stand for the same files. Enough fuel is more
  -- than the batches that are left.
  pub get_file_internal-Finds :
      (fuel i n : ℕ) (w : World) (s : Files) (files : List Text)
      → Lists K now_ms D S w n s files
      → n < fuel
      → Finds K now_ms D S w n i files (get_file_internal K now_ms D S fuel w i s)
  get_file_internal-Finds fuel i n w s files l h =
      subst (Finds K now_ms D S w n i files) (sym (get_file_internal-ready fuel i n w s files l))
        (elim (Option-cases (get_elem? s.resolved_files i)) [
          | inr (p, e) ↦ (
            s,
            n,
            internal-found fuel i w s p e
                ∙ ap (λ (t : Text). some (s, ok t))
                    (path_at-found K now_ms D S s.resolved_files
                        (map (resolve K now_ms D S s) l.rest) i p e
                      ∙ ap (λ (fs : List Text). path_at fs i) (sym l.listed)),
            l,
            omega arith,
            λ past. cc (sym past ∙ e),
          )
          | inl e ↦ elim l.ahead [
            | inl (done, none_left) ↦ (
              s,
              n,
              internal-missing fuel i w s e
                  ∙ if_true s.files_exhausted _ _ done
                  ∙ ap (λ (t : Text). some (s, ok t))
                      (path_at-none s.resolved_files i e
                        ∙ ap (λ (fs : List Text). path_at fs i)
                            (sym (expanded n w s files l done))),
              l,
              omega arith,
              λ past. done,
            )
            | inr (it, at, more, y) ↦
                subst (Finds K now_ms D S w n i files)
                  (sym (internal-missing fuel i w s e ∙ if_false s.files_exhausted _ _ more))
                  (file_loop-Finds K now_ms D S fuel i n w s files it l.rest h
                    (record {
                      snapshot_ready = l.snapshot_ready;
                      scan_ready = l.scan_ready;
                      more = more;
                      from = at;
                      yields = y;
                      readable = l.readable;
                      listed = l.listed;
                    })
                    y)
          ]
        ])
