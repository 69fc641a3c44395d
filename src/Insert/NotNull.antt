-- ===== src/Insert/NotNull.antt =====
-- NOT NULL constraints on the report of a write: `AddWrittenFiles` (src/storage/delta_insert.cpp).
use mathlib.Core.List.{append_assoc, append-nil}
use duckdb_delta.Prelude.{
  ok-injective, ◌+◌, ◌%◌, ◌^◌, ◌≡◌, ◌≢◌, refl, ap, sym, ◌∙◌, inl, inr, Bool, true, Option, some,
  List, [], ◌∷◌, ◌++◌, map, length, ◌==◌, ok, if◌then◌else◌, >>=-ok, >>-ok, Bool-cases,
  Result-cases, ==_iff, All, step-throws, step-injective,
}
use duckdb_delta.Prelude.Bytes.{text_eq_refl, Text}
use duckdb_delta.DataFile.{DeltaDataFile, DeltaColumnStats}
use duckdb_delta.Insert.QuotedList.{parse_quoted_list}
use duckdb_delta.Columns.{DeltaColumn, column_name, column_type}
use duckdb_delta.Insert.Columns.{written_type}
use duckdb_delta.Insert.WrittenFiles.{
  CopyRow, ReportReader, InsertState, parse_column_stats, read_list, first_name, find_written,
  texts_eq, constraints_of, constraint_path, check_paths, check_constraint, check_not_null,
  holds_null, column_entry, column_entries, written_file, add_written_files, partitions_of,
  StatsEntry,
}

module _ (D : ReportReader) where
  texts_eq_refl : (xs : List Text) → texts_eq D xs xs ≡ true
  texts_eq_refl [] = refl
  texts_eq_refl (x ∷ xs) = rw (text_eq_refl x, texts_eq) (texts_eq_refl xs)

  check_paths-differ :
      (mapped : Bool) (col : DeltaColumn) (names : List Text) (paths : List Text)
      → check_paths D mapped col names paths ≡ ok tt
      → All (λ path. constraint_path D mapped col path ≢ ok names) paths
  unfolding check_paths
  check_paths-differ mapped col names [] h = tt
  check_paths-differ mapped col names (path ∷ paths) h =
      let (written, e, rest) = >>=-ok (constraint_path D mapped col path) _ tt h in
      elim (Bool-cases (texts_eq D names written)) [
        | inl same ↦ cc (rw same at rest)
        | inr differs ↦ (
          λ equal. cc (
              sym (texts_eq_refl names)
              ∙ ap (texts_eq D names) (sym (ok-injective (sym e ∙ equal)))
              ∙ differs),
          check_paths-differ mapped col names paths (rw differs at rest),
        )
      ]

  -- Statistics that report a NULL below a constrained column: the column itself is not what they are
  -- of, and neither is a constrained field below it.
  abbrev pub Guarded : InsertState → Text × List (Text × Text) → Type 0
  Guarded s (col_name, col_stats) =
      ((stats : DeltaColumnStats) × (parse_column_stats D col_stats ≡ ok stats))
      × ((names : List Text) (stats : DeltaColumnStats) (name : Text) (col : DeltaColumn)
            (paths : List Text)
          → read_list D (parse_quoted_list col_name b'.') ≡ ok names
          → parse_column_stats D col_stats ≡ ok stats
          → holds_null D stats ≡ true
          → first_name D names ≡ ok name
          → find_written D s name ≡ ok col
          → constraints_of D (column_name col) s.not_null_constraints ≡ some paths
          → (length names ≢ 1)
            × All (λ path. constraint_path D s.column_mapped col path ≢ ok names) paths)

  check_constraint-holds :
      (mapped : Bool) (col : DeltaColumn) (names paths : List Text)
      → check_constraint D mapped col names (some paths) ≡ ok tt
      → (length names ≢ 1) × All (λ path. constraint_path D mapped col path ≢ ok names) paths
  unfolding check_constraint
  check_constraint-holds mapped col names paths h = elim (Bool-cases (length names == 1)) [
    | inl single ↦ cc (rw (single, check_constraint) at h)
    | inr nested ↦ (
      λ e. cc (sym ((==_iff (length names) 1).1 e) ∙ nested),
      check_paths-differ mapped col names paths (rw (nested, check_constraint) at h),
    )
  ]

  check_not_null-null :
      (s : InsertState) (col : DeltaColumn) (names : List Text) (stats : DeltaColumnStats)
      → holds_null D stats ≡ true
      → check_not_null D s col names stats
        ≡ check_constraint D s.column_mapped col names
            (constraints_of D (column_name col) s.not_null_constraints)
  unfolding check_not_null
  check_not_null-null s col names stats null =
      ap
        (λ (b : Bool).
          if b
          then check_constraint D s.column_mapped col names
              (constraints_of D (column_name col) s.not_null_constraints)
          else ok tt)
        null

  check_not_null-holds :
      (s : InsertState) (col : DeltaColumn) (names : List Text) (stats : DeltaColumnStats)
      (paths : List Text)
      → check_not_null D s col names stats ≡ ok tt
      → holds_null D stats ≡ true
      → constraints_of D (column_name col) s.not_null_constraints ≡ some paths
      → (length names ≢ 1)
        × All (λ path. constraint_path D s.column_mapped col path ≢ ok names) paths
  unfolding check_not_null
  check_not_null-holds s col names stats paths h null found =
      check_constraint-holds s.column_mapped col names paths (
        ap (λ (x : Option (List Text)). check_constraint D s.column_mapped col names x) (sym found)
        ∙ sym (check_not_null-null s col names stats null)
        ∙ h)

  column_entry-Guarded :
      (s : InsertState) (c : Text × List (Text × Text)) (entries : List (StatsEntry D))
      → column_entry D s c ≡ ok entries
      → Guarded s c
  unfolding column_entry
  column_entry-Guarded s (col_name, col_stats) entries h =
      let (names', p', h₁) = >>=-ok (read_list D (parse_quoted_list col_name b'.')) _ entries h in
      let (stats', q', h₂) = >>=-ok (parse_column_stats D col_stats) _ entries h₁ in
      let (name', first', h₃) = >>=-ok (first_name D names') _ entries h₂ in
      let (col', found', h₄) = >>=-ok (find_written D s name') _ entries h₃ in
      let (coltype, typed, h₅) =
        >>=-ok (if s.column_mapped then written_type col' else ok (column_type col')) _ entries
          h₄ in
      let (checked, last) = >>-ok (check_not_null D s col' names' stats') _ entries h₅ in
      (
        (stats', q'),
        λ names stats name col paths p q null first found constrained.
            let same_names = ok-injective (sym p' ∙ p) in
            let same_stats = ok-injective (sym q' ∙ q) in
            let same_name = ok-injective (sym first' ∙ ap (first_name D) same_names ∙ first) in
            let same_col = ok-injective (sym found' ∙ ap (find_written D s) same_name ∙ found) in
            check_not_null-holds s col names stats paths
              (sym (λ i. check_not_null D s (same_col i) (same_names i) (same_stats i)) ∙ checked)
              null constrained,
      )

  column_entries-Guarded :
      (s : InsertState) (cs : List (Text × List (Text × Text))) (entries : List (StatsEntry D))
      → column_entries D s cs ≡ ok entries
      → All (Guarded s) cs
  unfolding column_entries
  column_entries-Guarded s [] entries h = tt
  column_entries-Guarded s (c ∷ cs) entries h =
      let (entry, e, h₁) = >>=-ok (column_entry D s c) _ entries h in
      let (rest, e₁, last) = >>=-ok (column_entries D s cs) _ entries h₁ in
      (column_entry-Guarded s c entry e, column_entries-Guarded s cs rest e₁)

  written_file-Guarded :
      (s : InsertState) (row : CopyRow) (file : DeltaDataFile)
      → written_file D s row ≡ ok file
      → All (Guarded s) row.column_stats × (file.file_name ≡ row.file_name)
  unfolding written_file
  written_file-Guarded s row file h =
      let (stats, e, h₁) = >>=-ok (column_entries D s row.column_stats) _ file h in
      let (partitions, e₁, last) = >>=-ok (partitions_of D s row.partition_info) _ file h₁ in
      (
        column_entries-Guarded s row.column_stats stats e,
        sym (ap (λ (f : DeltaDataFile). f.file_name) (ok-injective last)),
      )

  abbrev file_names : List DeltaDataFile → List Text
  file_names = map (λ (f : DeltaDataFile). f.file_name)

  map-append : (xs ys : List DeltaDataFile) → file_names (xs ++ ys) ≡ file_names xs ++ file_names ys
  map-append [] ys = refl
  map-append (x ∷ xs) ys = ap (λ (l : List Text). x.file_name ∷ l) (map-append xs ys)

  abbrev row_names : List CopyRow → List Text
  row_names = map (λ (r : CopyRow). r.file_name)

  pub add_written_files-Guarded :
      (rows : List CopyRow) (s s' : InsertState)
      → add_written_files D s rows ≡ (s', ok tt)
      → All (λ (row : CopyRow). All (Guarded s) row.column_stats) rows
        × (file_names s'.written_files ≡ file_names s.written_files ++ row_names rows)
  unfolding add_written_files
  add_written_files-Guarded [] s s' h =
      let (kept, done) = step-injective s s' tt tt h in
      (
        tt,
        ap (λ (k : InsertState). file_names k.written_files) (sym kept)
            ∙ sym (append-nil (file_names s.written_files)),
      )
  add_written_files-Guarded (row ∷ rows) s s' h =
      elim (Result-cases (
        written_file D (record s { insert_count = (s.insert_count + row.row_count) % 2 ^ 64 })
          row)) [
            | inr (e, failed) ↦ step-throws _ s' e tt (rw (failed, add_written_files) at h)
            | inl (file, made) ↦
                let (guarded, named) =
                  written_file-Guarded
                    (record s { insert_count = (s.insert_count + row.row_count) % 2 ^ 64 }) row file
                    made in
                let (rest, names) =
                  add_written_files-Guarded rows _ s' (rw (made, add_written_files) at h) in
                (
                  (guarded, rest),
                  names
                      ∙ ap (λ (l : List Text). l ++ row_names rows)
                          (map-append s.written_files (file ∷ []))
                      ∙ append_assoc (file_names s.written_files) (file_names (file ∷ []))
                          (row_names rows)
                      ∙ ap (λ (n : Text). file_names s.written_files ++ n ∷ row_names rows) named,
                )
          ]
