-- ===== src/FileList/Expanded.antt =====
-- A lazily expanded list of files against the list that it stands for: every call of
-- `GetFileInternal` (src/functions/delta_scan/delta_multi_file_list.cpp) reads from one fixed list.
use mathlib.Core.List.{append_assoc, append-nil, map-append}
use duckdb_delta.Prelude.{
  ℕ, zero, suc, ◌≤◌, ◌<◌, ◌≡◌, refl, ap, sym, ◌∙◌, ◌⊎◌, inl, inr, Bool, true, false, Option, none,
  some, List, [], ◌∷◌, ◌++◌, map, get_elem?, All, Result, ok, Error, Option-cases, subst, arith,
}
use duckdb_delta.Prelude.Bytes.{Text}
use duckdb_delta.Kernel.{ℤ}
use duckdb_delta.FileList.Snapshot.{SnapshotKernel}
use duckdb_delta.FileList.Transform.{Values}
use duckdb_delta.FileList.Scan.{ScanKernel, FileList, Row}
use duckdb_delta.FileList.Visit.{visit_rows, visit_data, add_visit_error, partition_constants}
use duckdb_delta.FileList.Files.{
  Run, after, continue, visit_batch, unpack_scan_data, next_batch, file_loop, file_or,
}
use duckdb_delta.FileList.Appended.{resolve, Readable, All-Readable, visit_rows-Adds, visit_rows-ok}

-- The path of file `i`, empty past the end.
abbrev pub path_at : List Text → ℕ → Text
path_at files i = elim (get_elem? files i) [ none ↦ [] | some path ↦ path ]

get_elem?-append_left :
    (xs ys : List Text) (i : ℕ) (p : Text)
    → get_elem? xs i ≡ some p
    → get_elem? (xs ++ ys) i ≡ some p
get_elem?-append_left [] ys i p h = cc
get_elem?-append_left (x ∷ xs) ys zero p h = h
get_elem?-append_left (x ∷ xs) ys (suc i) p h = get_elem?-append_left xs ys i p h

module _ (K : SnapshotKernel) (now_ms : ℤ) (D : Values) (S : ScanKernel K D) where
  open K use {World}

  abbrev Files : Type 0
  Files = FileList K now_ms D S

  abbrev Rows : Type 0
  Rows = List (Row K now_ms D S)

  -- The iterator calls back with `n` batches, which hold the rows, and is then at its end.
  pub data Yields (w : World) : ℕ → S.Iterator → Rows → Type 0 where
    at_end :
        {it : S.Iterator} (end : S.Iterator)
        → S.scan_metadata_next w it ≡ (end, none, ok false)
        → Yields w 0 it []
    batch :
        {n : ℕ} {it : S.Iterator} {all : Rows} (next : S.Iterator) (rows rest : Rows) (more : Bool)
        → S.scan_metadata_next w it ≡ (next, some (rows, ok more), ok true)
        → Yields w n next rest
        → all ≡ rows ++ rest
        → Yields w (suc n) it all

  -- What is left to be read of a list: nothing, or what its iterator yields.
  abbrev Ahead : World → ℕ → Files → Rows → Type 0
  Ahead w n s rest =
      ((s.files_exhausted ≡ true) × (rest ≡ []))
      ⊎ ((it : S.Iterator) × (s.scan_data_iterator ≡ some it)
          × (s.files_exhausted ≡ false)
          × Yields w n it rest)

  -- A list with its scan that stands for `files`: those it has, and those of the rows that its
  -- iterator still yields in `n` batches, each of which can be read.
  pub record Lists (w : World) (n : ℕ) (s : Files) (files : List Text) : Type 0 where
    pub snapshot_ready : s.snapshots.initialized_snapshot ≡ true
    pub scan_ready : s.initialized_scan ≡ true
    pub rest : Rows
    pub readable : All (Readable K now_ms D S w s) rest
    pub ahead : Ahead w n s rest
    pub listed : files ≡ s.resolved_files ++ map (resolve K now_ms D S s) rest

  -- The call gives file `i`, the list still stands for the same files, and it has that file unless
  -- there are no more.
  abbrev pub Finds : World → ℕ → ℕ → List Text → Run K now_ms D S Text → Type 0
  Finds w n i files r =
      (s' : Files) × (m : ℕ) × (r ≡ some (s', ok (path_at files i)))
      × Lists w m s' files
      × (m ≤ n)
      × (get_elem? s'.resolved_files i ≡ none → s'.files_exhausted ≡ true)

  next_batch-end :
      (w : World) (s : Files) (it end : S.Iterator)
      → s.scan_data_iterator ≡ some it
      → S.scan_metadata_next w it ≡ (end, none, ok false)
      → next_batch K now_ms D S w s.scan_data_iterator s
        ≡ (record s { scan_data_iterator = some end }, ok false)
  unfolding next_batch
  next_batch-end w s it end at q =
      ap (λ o. next_batch K now_ms D S w o s) at ∙ ap (visit_batch K now_ms D S w s) q

  unpacked :
      (more : Bool) (context : Files × Option Error)
      → context.1 ≡ none
      → unpack_scan_data K now_ms D S (ok true) (add_visit_error K now_ms D S (ok more) context)
        ≡ (context.0, ok true)
  unpacked more (s, none) h = refl
  unpacked more (s, some e) h = cc

  -- The iterator plays no part in reading a row.
  All-Readable-iterator :
      (w : World) (s : Files) (it : S.Iterator) (rows : Rows)
      → All (Readable K now_ms D S w s) rows
      → All (Readable K now_ms D S w (record s { scan_data_iterator = some it })) rows
  unfolding partition_constants
  All-Readable-iterator w s it [] h = tt
  All-Readable-iterator w s it (row ∷ rows) h = (
    record { vector = h.0.vector; unpartitioned = h.0.unpartitioned; constants = h.0.constants },
    All-Readable-iterator w s it rows h.1,
  )

  -- The state after a batch.
  abbrev batched : World → Files → S.Iterator → Rows → Files
  batched w s next rows =
      (visit_rows K now_ms D S w rows (record s { scan_data_iterator = some next }, none)).0

  next_batch-rows :
      (w : World) (s : Files) (it next : S.Iterator) (rows : Rows) (more : Bool)
      → s.scan_data_iterator ≡ some it
      → S.scan_metadata_next w it ≡ (next, some (rows, ok more), ok true)
      → All (Readable K now_ms D S w s) rows
      → next_batch K now_ms D S w s.scan_data_iterator s ≡ (batched w s next rows, ok true)
  unfolding next_batch visit_data
  next_batch-rows w s it next rows more at q r =
      let s₁ : Files = record s { scan_data_iterator = some next } in
      ap (λ o. next_batch K now_ms D S w o s) at
      ∙ ap (visit_batch K now_ms D S w s) q
      ∙ unpacked more (visit_rows K now_ms D S w rows (s₁, none))
          (visit_rows-ok K now_ms D S w rows s₁ none (All-Readable-iterator w s next rows r))

  file_loop-step :
      (fuel i : ℕ) (w : World) (s : Files)
      → get_elem? s.resolved_files i ≡ none
      → file_loop K now_ms D S (suc fuel) w i s
        ≡ after K now_ms D S
            (next_batch K now_ms D S w s.scan_data_iterator s)
            (continue K now_ms D S (file_loop K now_ms D S fuel w i))
  unfolding file_loop
  file_loop-step fuel i w s e =
      ap
        (file_or K now_ms D S
          (λ s.
            after K now_ms D S (next_batch K now_ms D S w s.scan_data_iterator s)
              (continue K now_ms D S (file_loop K now_ms D S fuel w i)))
          s)
        e

  file_loop-found :
      (fuel i : ℕ) (w : World) (s : Files) (p : Text)
      → get_elem? s.resolved_files i ≡ some p
      → file_loop K now_ms D S (suc fuel) w i s ≡ some (s, ok p)
  unfolding file_loop
  file_loop-found fuel i w s p e =
      ap
        (file_or K now_ms D S
          (λ s.
            after K now_ms D S (next_batch K now_ms D S w s.scan_data_iterator s)
              (continue K now_ms D S (file_loop K now_ms D S fuel w i)))
          s)
        e

  All-split :
      (w : World) (s : Files) (xs ys : Rows)
      → All (Readable K now_ms D S w s) (xs ++ ys)
      → All (Readable K now_ms D S w s) xs × All (Readable K now_ms D S w s) ys
  All-split w s [] ys h = (tt, h)
  All-split w s (x ∷ xs) ys h = let (l, r) = All-split w s xs ys h.1 in ((h.0, l), r)

  pub path_at-found :
      (xs ys : List Text) (i : ℕ) (p : Text) → get_elem? xs i ≡ some p → p ≡ path_at (xs ++ ys) i
  path_at-found xs ys i p e = rw (get_elem?-append_left xs ys i p e, path_at) refl

  -- A list that has its scan and that its iterator goes on from.
  pub record Goes (w : World) (n : ℕ) (s : Files) (it : S.Iterator) (rest : Rows)
      (files : List Text) : Type 0 where
    pub snapshot_ready : s.snapshots.initialized_snapshot ≡ true
    pub scan_ready : s.initialized_scan ≡ true
    pub more : s.files_exhausted ≡ false
    pub from : s.scan_data_iterator ≡ some it
    pub yields : Yields w n it rest
    pub readable : All (Readable K now_ms D S w s) rest
    pub listed : files ≡ s.resolved_files ++ map (resolve K now_ms D S s) rest

  Goes-Lists :
      (w : World) (n : ℕ) (s : Files) (it : S.Iterator) (rest : Rows) (files : List Text)
      → Goes w n s it rest files
      → Lists w n s files
  Goes-Lists w n s it rest files g = record {
    snapshot_ready = g.snapshot_ready;
    scan_ready = g.scan_ready;
    rest = rest;
    readable = g.readable;
    ahead = inr (it, g.from, g.more, g.yields);
    listed = g.listed;
  }

  file_loop-there :
      (fuel i n : ℕ) (w : World) (s : Files) (files : List Text) (it : S.Iterator) (rest : Rows)
      (p : Text)
      → Goes w n s it rest files
      → get_elem? s.resolved_files i ≡ some p
      → Finds w n i files (file_loop K now_ms D S (suc fuel) w i s)
  file_loop-there fuel i n w s files it rest p g e = (
    s,
    n,
    file_loop-found fuel i w s p e
        ∙ ap (λ (t : Text). some (s, ok t))
            (path_at-found s.resolved_files (map (resolve K now_ms D S s) rest) i p e
              ∙ ap (λ (fs : List Text). path_at fs i) (sym g.listed)),
    Goes-Lists w n s it rest files g,
    omega arith,
    λ past. cc (sym past ∙ e),
  )

  path_at-past : (xs : List Text) (i : ℕ) → get_elem? xs i ≡ none → [] ≡ path_at (xs ++ []) i
  path_at-past xs i e = rw (append-nil xs, e, path_at) refl

  -- The kernel has no more data.
  file_loop-end :
      (fuel i : ℕ) (w : World) (s : Files) (files : List Text) (it end : S.Iterator)
      → Goes w 0 s it [] files
      → S.scan_metadata_next w it ≡ (end, none, ok false)
      → get_elem? s.resolved_files i ≡ none
      → Finds w 0 i files (file_loop K now_ms D S (suc fuel) w i s)
  file_loop-end fuel i w s files it end g q e =
      let s₁ : Files = record s { scan_data_iterator = some end; files_exhausted = true } in
      (
        s₁,
        0,
        file_loop-step fuel i w s e
            ∙ ap
                (λ (r : Files × Result Bool).
                  after K now_ms D S r (continue K now_ms D S (file_loop K now_ms D S fuel w i)))
                (next_batch-end w s it end g.from q)
            ∙ ap (λ (t : Text). some (s₁, ok t))
                (path_at-past s.resolved_files i e
                  ∙ ap (λ (fs : List Text). path_at fs i) (sym g.listed)),
        record {
          snapshot_ready = g.snapshot_ready;
          scan_ready = g.scan_ready;
          rest = [];
          readable = tt;
          ahead = inl (refl, refl);
          listed = g.listed;
        },
        omega arith,
        λ past. refl,
      )

  -- After a batch the list stands for the same files.
  batched-Goes :
      (n : ℕ) (w : World) (s : Files) (files : List Text) (it next : S.Iterator)
      (rows rest all : Rows)
      → Goes w (suc n) s it all files
      → Yields w n next rest
      → all ≡ rows ++ rest
      → Goes w n (batched w s next rows) next rest files
  batched-Goes n w s files it next rows rest all g y eq =
      let s₁ : Files = record s { scan_data_iterator = some next } in
      let (kept, added) = visit_rows-Adds K now_ms D S w rows s₁ none in
      let (now, later) =
        All-split w s rows rest (subst (All (Readable K now_ms D S w s)) eq g.readable) in
      record {
        snapshot_ready =
            ap (λ (t : Files). t.snapshots.initialized_snapshot) kept ∙ g.snapshot_ready;
        scan_ready = ap (λ (t : Files). t.initialized_scan) kept ∙ g.scan_ready;
        more = ap (λ (t : Files). t.files_exhausted) kept ∙ g.more;
        from = ap (λ (t : Files). t.scan_data_iterator) kept;
        yields = y;
        readable =
            All-Readable K now_ms D S w rest s₁ (batched w s next rows) kept
              (All-Readable-iterator w s next rest later);
        listed =
            g.listed
            ∙ ap (λ (rs : Rows). s.resolved_files ++ map (resolve K now_ms D S s) rs) eq
            ∙ ap (λ (ps : List Text). s.resolved_files ++ ps)
                (map-append (resolve K now_ms D S s) rows rest)
            ∙ sym (
                append_assoc s.resolved_files (map (resolve K now_ms D S s) rows)
                  (map (resolve K now_ms D S s) rest))
            ∙ ap (λ (ps : List Text). ps ++ map (resolve K now_ms D S s) rest) (sym added)
            ∙ ap
                (λ (t : Files).
                  (batched w s next rows).resolved_files ++ map (resolve K now_ms D S t) rest)
                (sym kept);
      }

  -- The loop, from a list with its iterator.
  pub file_loop-Finds :
      (fuel i n : ℕ) (w : World) (s : Files) (files : List Text) (it : S.Iterator) (rest : Rows)
      → n < fuel
      → Goes w n s it rest files
      → Yields w n it rest
      → Finds w n i files (file_loop K now_ms D S fuel w i s)
  file_loop-Finds zero i n w s files it rest h g y = absurd (omega arith)
  file_loop-Finds (suc fuel) i n w s files it rest h g (at_end end q) =
      elim (Option-cases (get_elem? s.resolved_files i)) [
        | inr (p, e) ↦ file_loop-there fuel i 0 w s files it [] p g e
        | inl e ↦ file_loop-end fuel i w s files it end g q e
      ]
  file_loop-Finds (suc fuel) i n w s files it rest h g (batch {n = k} next rows later more q y eq) =
      elim (Option-cases (get_elem? s.resolved_files i)) [
        | inr (p, e) ↦ file_loop-there fuel i (suc k) w s files it rest p g e
        | inl e ↦
            let now =
              (All-split w s rows later
                (subst (All (Readable K now_ms D S w s)) eq g.readable)).0 in
            let (s', m, found, lists, le, past) =
              file_loop-Finds fuel i k w (batched w s next rows) files next later (omega arith)
                (batched-Goes k w s files it next rows later rest g y eq) y in
            (
              s',
              m,
              file_loop-step fuel i w s e
                  ∙ ap
                      (λ (r : Files × Result Bool).
                        after K now_ms D S r
                          (continue K now_ms D S (file_loop K now_ms D S fuel w i)))
                      (next_batch-rows w s it next rows more g.from q now)
                  ∙ found,
              lists,
              omega arith,
              past,
            )
      ]
