-- ===== src/Insert/Upheld.antt =====
-- NOT NULL constraints on the report of a write, by what the report says and by the table's schema
-- (src/storage/delta_insert.cpp).
use mathlib.Core.List.{Memᴰ}
use mathlib.Core.List.Memᴰ
use duckdb_delta.Prelude.{
  ℕ, ◌<◌, ◌≡◌, ◌≢◌, refl, ap, sym, ◌∙◌, subst, ◌⊎◌, inl, inr, Bool, true, false, ◌&&◌, ◌||◌, Option,
  some, List, [], ◌∷◌, ◌++◌, map, length, ltb, lt→ltb, Result, ok, err, Error, >>=-ok, ok-injective,
  All, Bool-cases, if◌then◌else◌, if_true, if_false, ◌>>=◌,
}
use duckdb_delta.Prelude.Bytes.{Text, bytes, text_eq, text_eq_refl, text_eq_sound}
use duckdb_delta.DataFile.{DeltaDataFile, DeltaColumnStats}
use duckdb_delta.Columns.{
  DeltaColumn, DeltaColumns, column, no_columns, columns, column_name, column_children,
}
use duckdb_delta.Insert.QuotedList.{parse_quoted_list}
use duckdb_delta.Insert.FieldPaths.{path_of, parse_quoted_list-path_of}
use duckdb_delta.Insert.Columns.{
  written_name, find_child, written_steps, written_path, find_written_column,
}
use duckdb_delta.Insert.WrittenFiles.{
  CopyRow, ReportReader, InsertState, parse_stat, parse_stats, parse_column_stats, no_stats,
  read_list, find_written, constraints_of, constraint_path, holds_null, add_written_files,
}
use duckdb_delta.Insert.NotNull.{Guarded, add_written_files-Guarded}

-- The name that a column or a field has in the file: its physical name on a column-mapped table, if
-- it has one.
abbrev pub name_in_file : Bool → DeltaColumn → Text
name_in_file false (column n type nu p i k v children) = n
name_in_file true (column n type nu [] i k v children) = n
name_in_file true (column n type nu (c ∷ p) i k v children) = c ∷ p

-- The first column that the file has under a name.
abbrev pub FirstInFile : Bool → DeltaColumns → Text → DeltaColumn → Type 0
FirstInFile mapped no_columns name col = ⊥
FirstInFile mapped (columns first rest) name col =
    ((first ≡ col) × (name_in_file mapped first ≡ name))
    ⊎ ((name_in_file mapped first ≢ name) × FirstInFile mapped rest name col)

-- The names that the file has for fields below a column, which the table names by `fields`.
abbrev pub InFile : Bool → List Text → DeltaColumn → List Text → Type 0
InFile mapped [] col names = names ≡ []
InFile mapped (f ∷ fields) col [] = ⊥
InFile mapped (f ∷ fields) col (name ∷ names) =
    (child : DeltaColumn) × FirstInFile false (column_children col) f child
    × (name ≡ name_in_file mapped child)
    × InFile mapped fields child names

text_eq_differ : (a b : Text) → a ≢ b → text_eq a b ≡ false
text_eq_differ a b h = elim (Bool-cases (text_eq a b)) [
  | inl same ↦ absurd (h (text_eq_sound a b same))
  | inr other ↦ other
]

text_eq_same : (a b : Text) → a ≡ b → text_eq a b ≡ true
text_eq_same a b h = ap (text_eq a) (sym h) ∙ text_eq_refl a

written_name-name_in_file : (col : DeltaColumn) → written_name col ≡ name_in_file true col
unfolding written_name
written_name-name_in_file (column n type nu [] i k v children) = refl
written_name-name_in_file (column n type nu (c ∷ p) i k v children) = refl

column_name-name_in_file : (col : DeltaColumn) → column_name col ≡ name_in_file false col
column_name-name_in_file (column n type nu p i k v children) = refl

name_read :
    (mapped : Bool) (col : DeltaColumn)
    → (if mapped then written_name col else column_name col) ≡ name_in_file mapped col
name_read true col = written_name-name_in_file col
name_read false col = column_name-name_in_file col

find_written_column-FirstInFile :
    (mapped : Bool) (cols : DeltaColumns) (name : Text) (col : DeltaColumn)
    → FirstInFile mapped cols name col
    → find_written_column mapped name cols ≡ some col
unfolding find_written_column
find_written_column-FirstInFile mapped no_columns name col h = absurd h
find_written_column-FirstInFile mapped (columns first rest) name col (inl (same, named)) =
    if_true _ _ _ (text_eq_same _ name (name_read mapped first ∙ named))
    ∙ ap (λ (c : DeltaColumn). some c) same
find_written_column-FirstInFile mapped (columns first rest) name col (inr (other, later)) =
    if_false _ _ _ (text_eq_differ _ name (λ e. other (sym (name_read mapped first) ∙ e)))
    ∙ find_written_column-FirstInFile mapped rest name col later

find_child-FirstInFile :
    (cols : DeltaColumns) (name : Text) (child : DeltaColumn)
    → FirstInFile false cols name child
    → (find_child name cols ≡ some child) × (column_name child ≡ name)
unfolding find_child
find_child-FirstInFile no_columns name child h = absurd h
find_child-FirstInFile (columns first rest) name child (inl (same, named)) =
    let at = column_name-name_in_file first ∙ named in
    (
      if_true _ _ _ (text_eq_same _ name at) ∙ ap (λ (c : DeltaColumn). some c) same,
      ap column_name (sym same) ∙ at,
    )
find_child-FirstInFile (columns first rest) name child (inr (other, later)) =
    let (found, named) = find_child-FirstInFile rest name child later in
    (
      if_false _ _ _ (text_eq_differ _ name (λ e. other (sym (column_name-name_in_file first) ∙ e)))
          ∙ found,
      named,
    )

written_steps-InFile :
    (fields names : List Text) (col : DeltaColumn)
    → InFile true fields col names
    → written_steps col fields ≡ ok names
unfolding written_steps
written_steps-InFile [] names col h = ap (λ (l : List Text). ok l) (sym h)
written_steps-InFile (f ∷ fields) [] col h = absurd h
written_steps-InFile (f ∷ fields) (name ∷ names) col (child, at, named, below) =
    rw ((find_child-FirstInFile (column_children col) f child at).0, written_steps)
      (ap (λ (r : Result (List Text)). r >>= λ rest. ok (written_name child ∷ rest))
          (written_steps-InFile fields names child below)
        ∙ ap (λ (n : Text). ok (n ∷ names)) (written_name-name_in_file child ∙ sym named))

fields-InFile :
    (fields names : List Text) (col : DeltaColumn) → InFile false fields col names → fields ≡ names
fields-InFile [] names col h = sym h
fields-InFile (f ∷ fields) [] col h = absurd h
fields-InFile (f ∷ fields) (name ∷ names) col (child, at, named, below) =
    let is_f =
      sym (find_child-FirstInFile (column_children col) f child at).1
      ∙ column_name-name_in_file child
      ∙ sym named in
    λ i. is_f i ∷ fields-InFile fields names child below i

module _ (D : ReportReader) where
  abbrev NoCount : List (Text × Text) → Type 0
  NoCount [] = Unit {0}
  NoCount ((name, value) ∷ rest) = (name ≢ bytes "null_count") × NoCount rest

  -- The report of a column counts `n` NULLs: its last count is `n`.
  abbrev pub Counts : List (Text × Text) → ℕ → Type 0
  Counts [] n = ⊥
  Counts ((name, value) ∷ rest) n =
      Counts rest n ⊎ ((name ≡ bytes "null_count") × (D.to_unsigned value ≡ ok n) × NoCount rest)

  abbrev count_of : DeltaColumnStats → Bool × ℕ
  count_of stats = (stats.has_null_count, stats.null_count)

  either {ℓ} :
      {A : Type 0} {P : Type ℓ} (b : Bool) (x y r : A)
      → (x ≡ r → P)
      → (y ≡ r → P)
      → (if b then x else y) ≡ r
      → P
  either true x y r f g h = f h
  either false x y r f g h = g h

  thrown {ℓ} : {A : Type 0} {P : Type ℓ} (e : Error) (a : A) → ◌≡◌ {A = Result A} (err e) (ok a) → P
  thrown e a h = cc

  parse_stat-other :
      (name value : Text) (stats stats' : DeltaColumnStats)
      → name ≢ bytes "null_count"
      → parse_stat D name value stats ≡ ok stats'
      → count_of stats' ≡ count_of stats
  unfolding parse_stat
  parse_stat-other name value stats stats' other =
      let kept =
        λ (made : DeltaColumnStats) (same : count_of made ≡ count_of stats)
            (h : ◌≡◌ {A = Result DeltaColumnStats} (ok made) (ok stats')).
          ap count_of (sym (ok-injective h)) ∙ same in
      let read =
        λ (r : Result ℕ) (make : ℕ → DeltaColumnStats)
            (same : (n : ℕ) → count_of (make n) ≡ count_of stats)
            (h : (r >>= λ n. ok (make n)) ≡ ok stats').
          let (n, e, last) = >>=-ok r (λ n. ok (make n)) stats' h in kept (make n) (same n) last in
      let named = λ (key : Text). text_eq name key in
      let at_min = record stats { min = value; has_min = true } in
      let at_max = record stats { max = value; has_max = true } in
      let at_nan = record stats {
        has_contains_nan = true;
        contains_nan = text_eq value (bytes "true");
      } in
      either (named (bytes "min")) (ok at_min) _ (ok stats') (kept at_min refl) (
        either (named (bytes "max")) (ok at_max) _ (ok stats') (kept at_max refl) (λ h.
          either (named (bytes "column_size_bytes")) _ _ (ok stats')
            (read (D.to_unsigned value) (λ n. record stats { column_size_bytes = n }) (λ n. refl))
            (either (named (bytes "has_nan")) (ok at_nan) _ (ok stats') (kept at_nan refl) (
              either (named (bytes "num_values")) _ _ (ok stats')
                (read (D.to_unsigned value)
                  (λ n. record stats { has_num_values = true; num_values = n }) (λ n. refl))
                (either (named (bytes "min_is_exact") || named (bytes "max_is_exact")) (ok stats) _
                  (ok stats') (kept stats refl)
                  (either (named (bytes "nan_count")) (ok stats) _ (ok stats') (kept stats refl) (
                    either (named (bytes "variant_type")) (ok stats) _ (ok stats') (kept stats refl)
                      (thrown _ stats'))))))
            (sym (
                if_false (named (bytes "null_count")) _ _
                  (text_eq_differ name (bytes "null_count") other))
              ∙ h)))

  parse_stats-other :
      (l : List (Text × Text)) (stats stats' : DeltaColumnStats)
      → NoCount l
      → parse_stats D l stats ≡ ok stats'
      → count_of stats' ≡ count_of stats
  unfolding parse_stats
  parse_stats-other [] stats stats' none_of h = ap count_of (sym (ok-injective h))
  parse_stats-other ((name, value) ∷ rest) stats stats' (other, none_of) h =
      let (s₁, first, later) =
        >>=-ok (parse_stat D name value stats) (parse_stats D rest) stats' h in
      parse_stats-other rest s₁ stats' none_of later
      ∙ parse_stat-other name value stats s₁ other first

  parse_stat-count :
      (value : Text) (stats stats' : DeltaColumnStats) (n : ℕ)
      → D.to_unsigned value ≡ ok n
      → parse_stat D (bytes "null_count") value stats ≡ ok stats'
      → count_of stats' ≡ (true, n)
  unfolding parse_stat
  parse_stat-count value stats stats' n e h = ap count_of (
      sym (
        ok-injective (
          ap
            (λ (r : Result ℕ).
              r >>= λ n. ok (record stats { has_null_count = true; null_count = n }))
            (sym e)
          ∙ h)))

  parse_stats-Counts :
      (l : List (Text × Text)) (stats stats' : DeltaColumnStats) (n : ℕ)
      → Counts l n
      → parse_stats D l stats ≡ ok stats'
      → count_of stats' ≡ (true, n)
  unfolding parse_stats
  parse_stats-Counts [] stats stats' n counts h = absurd counts
  parse_stats-Counts ((name, value) ∷ rest) stats stats' n (inl later) h =
      let (s₁, first, others) =
        >>=-ok (parse_stat D name value stats) (parse_stats D rest) stats' h in
      parse_stats-Counts rest s₁ stats' n later others
  parse_stats-Counts ((name, value) ∷ rest) stats stats' n (inr (named, read, last)) h =
      let (s₁, first, others) =
        >>=-ok (parse_stat D name value stats) (parse_stats D rest) stats' h in
      parse_stats-other rest s₁ stats' last others
      ∙ parse_stat-count value stats s₁ n read
          (subst (λ (t : Text). parse_stat D t value stats ≡ ok s₁) named first)

  holds_null-Counts :
      (l : List (Text × Text)) (stats : DeltaColumnStats) (n : ℕ)
      → Counts l n
      → 0 < n
      → parse_column_stats D l ≡ ok stats
      → holds_null D stats ≡ true
  unfolding parse_column_stats
  holds_null-Counts l stats n counts some_null h =
      ap (λ (c : Bool × ℕ). c.0 && ltb 0 c.1) (parse_stats-Counts l no_stats stats n counts h)
      ∙ lt→ltb 0 n some_null

  find_written-FirstInFile :
      (s : InsertState) (name : Text) (col : DeltaColumn)
      → FirstInFile s.column_mapped s.schema name col
      → find_written D s name ≡ ok col
  find_written-FirstInFile s name col h =
      rw (find_written_column-FirstInFile s.column_mapped s.schema name col h, find_written) refl

  constraint_path-InFile :
      (mapped : Bool) (col : DeltaColumn) (fields names : List Text)
      → InFile mapped fields col names
      → constraint_path D mapped col (path_of [] (column_name col ∷ fields))
        ≡ ok (name_in_file mapped col ∷ names)
  unfolding constraint_path written_path
  constraint_path-InFile true col fields names h =
      ap (λ (r : Option (Result (List Text))). read_list D r >>= λ path. written_path col path)
        (parse_quoted_list-path_of (column_name col) fields)
      ∙ ap (λ (r : Result (List Text)). r >>= λ rest. ok (written_name col ∷ rest))
          (written_steps-InFile fields names col h)
      ∙ ap (λ (n : Text). ok (n ∷ names)) (written_name-name_in_file col)
  constraint_path-InFile false col fields names h =
      ap (λ (r : Option (Result (List Text))). read_list D r >>= λ path. ok path)
        (parse_quoted_list-path_of (column_name col) fields)
      ∙ (λ i. ok (column_name-name_in_file col i ∷ fields-InFile fields names col h i))

  name-FirstInFile :
      (mapped : Bool) (cols : DeltaColumns) (name : Text) (col : DeltaColumn)
      → FirstInFile mapped cols name col
      → name_in_file mapped col ≡ name
  name-FirstInFile mapped no_columns name col h = absurd h
  name-FirstInFile mapped (columns first rest) name col (inl (same, named)) =
      ap (name_in_file mapped) (sym same) ∙ named
  name-FirstInFile mapped (columns first rest) name col (inr (other, later)) =
      name-FirstInFile mapped rest name col later

  All-Memᴰ : {A : Type 0} (P : A → Type 0) (l : List A) (x : A) → All P l → Memᴰ x l → P x
  All-Memᴰ P [] x all m = absurd (Memᴰ.not-nil m)
  All-Memᴰ P (y ∷ l) x (here, later) (Memᴰ.head e) = subst P (sym e) here
  All-Memᴰ P (y ∷ l) x (here, later) (Memᴰ.tail m) = All-Memᴰ P l x later m

  -- A report that is taken in adds its files, in order, after those of the reports before it. Take a
  -- column of one of them whose statistics count a NULL, as the last count of the report has it, and
  -- whose first name is that of a column of the table with NOT NULL constraints, under the name that
  -- the file has for it: its physical one on a column-mapped table, and its own otherwise. Then the
  -- statistics are not of the column itself, and not of a field that one of these constraints names,
  -- again under the names that the file has for the fields on the way.
  pub add_written_files-Upheld :
      (rows : List CopyRow) (s s' : InsertState) (row : CopyRow) (col_name : Text)
      (col_stats : List (Text × Text)) (name : Text) (below : List Text) (col : DeltaColumn) (n : ℕ)
      (paths : List Text)
      → add_written_files D s rows ≡ (s', ok tt)
      → Memᴰ row rows
      → Memᴰ (col_name, col_stats) row.column_stats
      → parse_quoted_list col_name b'.' ≡ some (ok (name ∷ below))
      → Counts col_stats n
      → 0 < n
      → FirstInFile s.column_mapped s.schema name col
      → constraints_of D (column_name col) s.not_null_constraints ≡ some paths
      → (below ≢ [])
        × ¬ (
            (fields : List Text) × Memᴰ (path_of [] (column_name col ∷ fields)) paths
            × InFile s.column_mapped fields col below)
        × (map (λ (f : DeltaDataFile). f.file_name) s'.written_files
            ≡ map (λ (f : DeltaDataFile). f.file_name) s.written_files
              ++ map (λ (r : CopyRow). r.file_name) rows)
  add_written_files-Upheld rows s s' row col_name col_stats name below col n paths taken m k parsed
        counts some_null at constrained =
      let (guarded, files) = add_written_files-Guarded D rows s s' taken in
      let ((stats, read), upheld) =
        All-Memᴰ (Guarded D s) row.column_stats (col_name, col_stats)
          (All-Memᴰ (λ (r : CopyRow). All (Guarded D s) r.column_stats) rows row guarded m) k in
      let (several, differ) =
        upheld (name ∷ below) stats name col paths (ap (read_list D) parsed) read
          (holds_null-Counts col_stats stats n counts some_null read) refl
          (find_written-FirstInFile s name col at) constrained in
      (
        λ none_below. several (ap (λ (l : List Text). length (name ∷ l)) none_below),
        λ (fields, listed, in_file).
            All-Memᴰ
              (λ (path : Text). constraint_path D s.column_mapped col path ≢ ok (name ∷ below))
              paths (path_of [] (column_name col ∷ fields)) differ listed
              (constraint_path-InFile s.column_mapped col fields below in_file
                ∙ ap (λ (t : Text). ok (t ∷ below))
                    (name-FirstInFile s.column_mapped s.schema name col at)),
        files,
      )
