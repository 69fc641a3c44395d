-- ===== src/FileList/Counts.antt =====
-- The loops over all files of a list: `GetTotalFileCountInternal` and `GetAllFiles`
-- (src/functions/delta_scan/delta_multi_file_list.cpp).
use duckdb_delta.Prelude.{
  ℕ, zero, suc, ◌+◌, ◌≤◌, ◌<◌, ◌≡◌, ◌≢◌, refl, ap, sym, ◌∙◌, ◌⊎◌, inl, inr, none, some, List, [],
  ◌∷◌, ◌++◌, length, get_elem?, All, ok, subst, arith, map, length-append,
}
use duckdb_delta.Prelude.Bytes.{Text}
use duckdb_delta.Kernel.{ℤ}
use duckdb_delta.FileList.Snapshot.{SnapshotKernel}
use duckdb_delta.FileList.Transform.{Values}
use duckdb_delta.FileList.Scan.{ScanKernel, FileList}
use duckdb_delta.FileList.Files.{
  Run, after_run, get_file_internal, until_empty, expand_from, get_all_files, get_total_file_count,
}
use duckdb_delta.FileList.Appended.{resolve}
use duckdb_delta.FileList.Expanded.{path_at, Lists}
use duckdb_delta.FileList.Lazy.{get_file_internal-Finds, expanded}

get_elem?-prefix :
    (xs ys : List Text) (i : ℕ) → get_elem? (xs ++ ys) i ≡ none → get_elem? xs i ≡ none
get_elem?-prefix [] ys i h = refl
get_elem?-prefix (x ∷ xs) ys zero h = cc
get_elem?-prefix (x ∷ xs) ys (suc i) h = get_elem?-prefix xs ys i h

-- Among paths that are not empty, an empty one stands for the end.
path_at-empty :
    (files : List Text) (i : ℕ)
    → All (λ p. p ≢ []) files
    → path_at files i ≡ []
    → (get_elem? files i ≡ none) × (length files ≤ i)
path_at-empty [] i h e = (refl, omega arith)
path_at-empty (p ∷ files) zero h e = absurd (h.0 e)
path_at-empty (p ∷ files) (suc i) h e =
    let (past, le) = path_at-empty files i h.1 e in (past, omega arith)

path_at-more :
    (files : List Text) (i c : ℕ) (cs : Text) → path_at files i ≡ c ∷ cs → i < length files
path_at-more [] i c cs e = cc
path_at-more (p ∷ files) zero c cs e = omega arith
path_at-more (p ∷ files) (suc i) c cs e = omega (arith, path_at-more files i c cs e)

Text-cases : (t : Text) → (t ≡ []) ⊎ ((c : ℕ) × (cs : Text) × (t ≡ c ∷ cs))
Text-cases [] = inl refl
Text-cases (c ∷ cs) = inr (c, cs, refl)

module _ (K : SnapshotKernel) (now_ms : ℤ) (D : Values) (S : ScanKernel K D) where
  open K use {World}

  abbrev Files : Type 0
  Files = FileList K now_ms D S

  -- The run returns, with every file of the list.
  abbrev Expands : World → List Text → Run K now_ms D S (Unit {0}) → Type 0
  Expands w files r =
      (s' : Files) × (m : ℕ) × (r ≡ some (s', ok tt))
      × Lists K now_ms D S w m s' files
      × (files ≡ s'.resolved_files)

  step_to :
      (fuel batches i : ℕ) (w : World) (s s' : Files) (path : Text)
      → get_file_internal K now_ms D S batches w i s ≡ some (s', ok path)
      → expand_from K now_ms D S (suc fuel) batches w i s
        ≡ until_empty K now_ms D S (expand_from K now_ms D S fuel batches w (suc i)) s' path
  unfolding expand_from
  step_to fuel batches i w s s' path e =
      ap
        (λ (r : Run K now_ms D S Text).
          after_run K now_ms D S r
            (until_empty K now_ms D S (expand_from K now_ms D S fuel batches w (suc i))))
        e

  expand_from-Expands :
      (fuel batches i n : ℕ) (w : World) (s : Files) (files : List Text)
      → Lists K now_ms D S w n s files
      → All (λ p. p ≢ []) files
      → n < batches
      → length files < fuel + i
      → i ≤ length files
      → Expands w files (expand_from K now_ms D S fuel batches w i s)
  expand_from-Expands zero batches i n w s files l nonempty h k le = absurd (omega arith)
  expand_from-Expands (suc fuel) batches i n w s files l nonempty h k le =
      let (s', m, found, l', less, past) =
        get_file_internal-Finds K now_ms D S batches i n w s files l h in
      elim (Text-cases (path_at files i)) [
        | inl last ↦
            let (beyond, ge) = path_at-empty files i nonempty last in
            let done = past (
              get_elem?-prefix s'.resolved_files (map (resolve K now_ms D S s') l'.rest) i
                (subst (λ (fs : List Text). get_elem? fs i ≡ none) l'.listed beyond)) in
            (
              s',
              m,
              step_to fuel batches i w s s' (path_at files i) found
                  ∙ ap
                      (until_empty K now_ms D S (expand_from K now_ms D S fuel batches w (suc i))
                        s')
                      last,
              l',
              expanded K now_ms D S m w s' files l' done,
            )
        | inr (c, cs, there) ↦
            subst (Expands w files)
              (sym (
                step_to fuel batches i w s s' (path_at files i) found
                ∙ ap (until_empty K now_ms D S (expand_from K now_ms D S fuel batches w (suc i)) s')
                    there))
              (expand_from-Expands fuel batches (suc i) m w s' files l' nonempty (omega arith)
                (omega arith) (omega (arith, path_at-more files i c cs there)))
      ]

  resolved-le :
      (n : ℕ) (w : World) (s : Files) (files : List Text)
      → Lists K now_ms D S w n s files
      → length s.resolved_files ≤ length files
  resolved-le n w s files l =
      let more = map (resolve K now_ms D S s) l.rest in
      omega (arith, ap (length {A = Text}) l.listed, length-append s.resolved_files more)

  -- Whatever has been read of a list whose files have paths, GetAllFiles returns, with all of them in
  -- order, and GetTotalFileCount returns, with their number. Enough fuel is more rounds than batches
  -- are left, and more calls than there are files.
  pub get_all_files-returns :
      (fuel batches n : ℕ) (w : World) (s : Files) (files : List Text)
      → Lists K now_ms D S w n s files
      → All (λ p. p ≢ []) files
      → n < batches
      → length files < fuel
      → (s' : Files) × (get_all_files K now_ms D S fuel batches w s ≡ some (s', ok files))
        × (get_total_file_count K now_ms D S fuel batches w s ≡ some (s', ok (length files)))
        × (s'.resolved_files ≡ files)
  unfolding get_all_files get_total_file_count
  get_all_files-returns fuel batches n w s files l nonempty h k =
      let (s', m, e, l', all) =
        expand_from-Expands fuel batches (length s.resolved_files) n w s files l nonempty h
          (omega arith) (resolved-le n w s files l) in
      (
        s',
        ap
              (λ (r : Run K now_ms D S (Unit {0})).
                after_run K now_ms D S r (λ s₁ done. some (s₁, ok s₁.resolved_files)))
              e
            ∙ ap (λ (fs : List Text). some (s', ok fs)) (sym all),
        ap
              (λ (r : Run K now_ms D S (Unit {0})).
                after_run K now_ms D S r (λ s₁ done. some (s₁, ok (length s₁.resolved_files))))
              e
            ∙ ap (λ (fs : List Text). some (s', ok (length fs))) (sym all),
        sym all,
      )
