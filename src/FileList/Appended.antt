-- ===== src/FileList/Appended.antt =====
-- What the visit of a file adds to a list (src/functions/delta_scan/delta_multi_file_list.cpp).
use mathlib.Core.List.{append_assoc, append-nil, map-append}
use duckdb_delta.Prelude.{
  ◌≡◌, refl, ap, sym, ◌∙◌, inl, inr, Bool, true, Option, none, some, List, [], ◌∷◌, ◌++◌, map,
  is_empty, All, ok, err, Error, and_then, and_then-keeps, Result-cases, Option-cases, subst,
}
use duckdb_delta.Prelude.Bytes.{Text}
use duckdb_delta.Kernel.{ℤ}
use duckdb_delta.Uri.{resolved_file}
use duckdb_delta.FileList.Snapshot.{SnapshotKernel}
use duckdb_delta.FileList.Transform.{Values, Transform}
use duckdb_delta.FileList.Scan.{ScanKernel, FileList, FileStep, Row}
use duckdb_delta.FileList.Visit.{
  append_file, read_deletion_vector, read_transform, partition_constants, visit_file, visit_rows,
  latest_error,
}

module _ (K : SnapshotKernel) (now_ms : ℤ) (D : Values) (S : ScanKernel K D) where
  open K use {World}

  abbrev Files : Type 0
  Files = FileList K now_ms D S

  abbrev Step : Type 0 → Type 0
  Step = FileStep K now_ms D S

  -- A list without its files: what a visit leaves alone.
  abbrev pub frame : Files → Files
  frame s = record s { resolved_files = []; metadata = [] }

  abbrev pub resolve : Files → Row K now_ms D S → Text
  resolve s row = resolved_file S.scan_hex s.snapshots.path row.path

  -- A step that leaves the frame and the paths of `s` alone.
  abbrev Leaves : Files → {A : Type 0} → Step A → Type 0
  Leaves s r = (frame r.0 ≡ frame s) × (r.0.resolved_files ≡ s.resolved_files)

  read_deletion_vector-Leaves :
      (w : World) (dv : Option S.Dv) (s : Files)
      → Leaves s (read_deletion_vector K now_ms D S w dv s)
  unfolding read_deletion_vector
  read_deletion_vector-Leaves w none s = (refl, refl)
  read_deletion_vector-Leaves w (some dv) s =
      elim (Result-cases (S.selection_vector_from_dv w dv s.root_path)) [
        | inl (none, e) ↦ rw e (refl, refl)
        | inl (some v, e) ↦ rw e (refl, refl)
        | inr (x, e) ↦ rw e (refl, refl)
      ]

  read_transform-Leaves :
      (t : Option S.Expression) (s : Files) → Leaves s (read_transform K now_ms D S t s)
  unfolding read_transform
  read_transform-Leaves none s = (refl, refl)
  read_transform-Leaves (some t) s = elim (Option-cases (S.to_parsed_expression t)) [
    | inl e ↦ rw e (refl, refl)
    | inr (parsed, e) ↦ elim (Result-cases (partition_constants K now_ms D S parsed s)) [
      | inl (c, f) ↦ rw (e, f) (refl, refl)
      | inr (x, f) ↦ rw (e, f) (refl, refl)
    ]
  ]

  -- A visit leaves the frame alone and adds the file's path, also when it fails.
  abbrev pub Adds : Files → List (Row K now_ms D S) → Files → Type 0
  Adds s rows s' =
      (frame s' ≡ frame s) × (s'.resolved_files ≡ s.resolved_files ++ map (resolve s) rows)

  visit_file-Adds :
      (w : World) (row : Row K now_ms D S) (s : Files)
      → Adds s (row ∷ []) (visit_file K now_ms D S w row s).0
  unfolding visit_file append_file
  visit_file-Adds w row s =
      and_then-keeps (Adds s (row ∷ []))
        (read_deletion_vector K now_ms D S w row.dv_info (append_file K now_ms D S row s))
        (λ s₁ done. read_transform K now_ms D S row.transform s₁)
        (read_deletion_vector-Leaves w row.dv_info (append_file K now_ms D S row s))
        (λ s₁ done e (f, p).
          let (f', p') = read_transform-Leaves row.transform s₁ in (f' ∙ f, p' ∙ p))

  -- The next file's path is found by the same table path.
  Adds-trans :
      (s s₁ s₂ : Files) (rows more : List (Row K now_ms D S))
      → Adds s rows s₁
      → Adds s₁ more s₂
      → Adds s (rows ++ more) s₂
  Adds-trans s s₁ s₂ rows more (f, p) (f', p') = (
    f' ∙ f,
    p'
        ∙ ap (λ (ps : List Text). ps ++ map (resolve s₁) more) p
        ∙ ap (λ (t : Files). (s.resolved_files ++ map (resolve s) rows) ++ map (resolve t) more) f
        ∙ append_assoc s.resolved_files (map (resolve s) rows) (map (resolve s) more)
        ∙ ap (λ (ps : List Text). s.resolved_files ++ ps) (sym (map-append (resolve s) rows more)),
  )

  -- What a visit of the kernel's row needs to go through: its deletion vector can be read, and its
  -- transform gives the partitions' values, or is missing where there is no partition.
  pub record Readable (w : World) (s : Files) (row : Row K now_ms D S) : Type 0 where
    pub vector :
        (dv : S.Dv)
        → row.dv_info ≡ some dv
        → (v : Option (List Bool)) × (S.selection_vector_from_dv w dv s.root_path ≡ ok v)
    pub unpartitioned : row.transform ≡ none → is_empty s.partitions ≡ true
    pub constants :
        (t : S.Expression)
        → row.transform ≡ some t
        → (parsed : List (Transform D)) × (c : List (Text × D.Value)) × (S.to_parsed_expression t
            ≡ some parsed)
          × (partition_constants K now_ms D S parsed s ≡ ok c)

  -- Whether a row can be read depends on the frame only.
  pub Readable-frame :
      (w : World) (s s' : Files) (row : Row K now_ms D S)
      → frame s' ≡ frame s
      → Readable w s row
      → Readable w s' row
  unfolding partition_constants
  Readable-frame w s s' row f r =
      let at_frame : Readable w (frame s) row = record {
        vector = r.vector;
        unpartitioned = r.unpartitioned;
        constants = r.constants;
      } in
      let moved = subst (λ (t : Files). Readable w t row) (sym f) at_frame in
      record {
        vector = moved.vector;
        unpartitioned = moved.unpartitioned;
        constants = moved.constants;
      }

  read_deletion_vector-ok :
      (w : World) (dv : Option S.Dv) (s : Files)
      → ((d : S.Dv)
          → dv ≡ some d
          → (v : Option (List Bool)) × (S.selection_vector_from_dv w d s.root_path ≡ ok v))
      → (read_deletion_vector K now_ms D S w dv s).1 ≡ ok tt
  unfolding read_deletion_vector
  read_deletion_vector-ok w none s h = refl
  read_deletion_vector-ok w (some d) s h =
      let (v, e) = h d refl in
      elim (Option-cases v) [ inl f ↦ rw (e, f) refl | inr (dv, f) ↦ rw (e, f) refl ]

  read_transform-ok :
      (w : World) (row : Row K now_ms D S) (t : Option S.Expression) (s : Files)
      → row.transform ≡ t
      → Readable w s row
      → (read_transform K now_ms D S t s).1 ≡ ok tt
  unfolding read_transform
  read_transform-ok w row none s e r = rw (r.unpartitioned e) refl
  read_transform-ok w row (some t) s e r = let (parsed, c, p, q) = r.constants t e in rw (p, q) refl

  -- The result of two steps that both go through.
  and_then-both :
      (r : Step (Unit {0})) (f : Files → Unit {0} → Step (Unit {0}))
      → r.1 ≡ ok tt
      → (f r.0 tt).1 ≡ ok tt
      → (and_then r f).1 ≡ ok tt
  and_then-both (s, ok tt) f h k = k
  and_then-both (s, err e) f h k = cc

  pub visit_file-ok :
      (w : World) (row : Row K now_ms D S) (s : Files)
      → Readable w s row
      → (visit_file K now_ms D S w row s).1 ≡ ok tt
  unfolding visit_file append_file
  visit_file-ok w row s r =
      let vector =
        read_deletion_vector K now_ms D S w row.dv_info (append_file K now_ms D S row s) in
      and_then-both vector (λ s₁ done. read_transform K now_ms D S row.transform s₁)
        (read_deletion_vector-ok w row.dv_info (append_file K now_ms D S row s) r.vector)
        (read_transform-ok w row row.transform vector.0 refl (
          Readable-frame w s vector.0 row
            (read_deletion_vector-Leaves w row.dv_info (append_file K now_ms D S row s)).0 r))

  pub All-Readable :
      (w : World) (rows : List (Row K now_ms D S)) (s s' : Files)
      → frame s' ≡ frame s
      → All (Readable w s) rows
      → All (Readable w s') rows
  All-Readable w [] s s' f h = tt
  All-Readable w (row ∷ rows) s s' f h =
      (Readable-frame w s s' row f h.0, All-Readable w rows s s' f h.1)

  -- The rows of a batch are all added, and no error is left if each can be read.
  latest_error-state :
      (before : Option Error) (r : Step (Unit {0})) → (latest_error K now_ms D S before r).0 ≡ r.0
  latest_error-state before (s, ok done) = refl
  latest_error-state before (s, err e) = refl

  latest_error-ok :
      (before : Option Error) (r : Step (Unit {0}))
      → r.1 ≡ ok tt
      → (latest_error K now_ms D S before r).1 ≡ before
  latest_error-ok before (s, ok done) h = refl
  latest_error-ok before (s, err e) h = cc

  pub visit_rows-Adds :
      (w : World) (rows : List (Row K now_ms D S)) (s : Files) (before : Option Error)
      → Adds s rows (visit_rows K now_ms D S w rows (s, before)).0
  unfolding visit_rows
  visit_rows-Adds w [] s before = (refl, sym (append-nil s.resolved_files))
  visit_rows-Adds w (row ∷ rows) s before =
      let step = visit_file K now_ms D S w row s in
      let next = latest_error K now_ms D S before step in
      Adds-trans s next.0 (visit_rows K now_ms D S w rows next).0 (row ∷ []) rows
        (subst (Adds s (row ∷ [])) (sym (latest_error-state before step)) (visit_file-Adds w row s))
        (visit_rows-Adds w rows next.0 next.1)

  pub visit_rows-ok :
      (w : World) (rows : List (Row K now_ms D S)) (s : Files) (before : Option Error)
      → All (Readable w s) rows
      → (visit_rows K now_ms D S w rows (s, before)).1 ≡ before
  unfolding visit_rows
  visit_rows-ok w [] s before h = refl
  visit_rows-ok w (row ∷ rows) s before h =
      let step = visit_file K now_ms D S w row s in
      let next = latest_error K now_ms D S before step in
      let kept = ap frame (latest_error-state before step) ∙ (visit_file-Adds w row s).0 in
      visit_rows-ok w rows next.0 next.1 (All-Readable w rows s next.0 kept h.1)
      ∙ latest_error-ok before step (visit_file-ok w row s h.0)
