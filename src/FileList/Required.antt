-- ===== src/FileList/Required.antt =====
-- Which fields the extracted NOT NULL constraints stand for
-- (src/functions/delta_scan/delta_multi_file_list.cpp).
use mathlib.Core.List.{Memᴰ}
use mathlib.Core.List.Memᴰ
use duckdb_delta.Prelude.{
  ℕ, zero, suc, ◌+◌, ◌≡◌, refl, ap, sym, ◌∙◌, ◌↔◌, inl, inr, Bool, true, false, Option, none, some,
  List, [], ◌∷◌, ◌++◌, arith, Result, ok, err, if◌then◌else◌, if_true, if_false, subst,
}
use duckdb_delta.Prelude.Bytes.{Text}
use duckdb_delta.Types.{LogicalType}
use duckdb_delta.Columns.{Identifier, DeltaColumn, DeltaColumns, column, no_columns, columns}
use duckdb_delta.Insert.QuotedList.{parse_quoted_list, field_path}
use duckdb_delta.Insert.FieldPaths.{path_of, parse_quoted_list-path_of}
use duckdb_delta.FileList.Constraints.{
  NestedNotNullConstraint, is_struct, own_constraint, extract_not_null_constraints,
  constraints_of_column, BoundSchema, bind, keep_columns, extract_constraints,
}
use duckdb_delta.FileList.Widths.{DeltaStringWidthBound, extract_string_width_bounds}

abbrev pub column_at : DeltaColumns → ℕ → Option DeltaColumn
column_at no_columns j = none
column_at (columns col rest) zero = some col
column_at (columns col rest) (suc j) = column_at rest j

-- A field that holds no NULL, by its names from a column down, through structs only.
pub data Requires : DeltaColumn → List Text → Type 0 where
  itself :
      {n : Text} {type : LogicalType} {p : Text} {i : Option ℕ} {k : Identifier} {v : Text}
      {children : DeltaColumns}
      → Requires (column n type false p i k v children) (n ∷ [])
  below :
      {n : Text} {type : LogicalType} {nullable : Bool} {p : Text} {i : Option ℕ} {k : Identifier}
      {v : Text} {children : DeltaColumns} {names : List Text}
      → is_struct type ≡ true
      → (j : ℕ) (child : DeltaColumn) → column_at children j ≡ some child
      → Requires child names
      → Requires (column n type nullable p i k v children) (n ∷ names)

abbrev constraint_at : ℕ → Text → NestedNotNullConstraint
constraint_at index path = record { index = index; path = path }

some-inj : {a b : DeltaColumn} → ◌≡◌ {A = Option DeltaColumn} (some a) (some b) → a ≡ b
some-inj e = cc

-- A column below a struct gives its constraints the index of the column above.
child-Memᴰ :
    (c : NestedNotNullConstraint) (cols : DeltaColumns) (index j : ℕ) (parent : Text)
    (col : DeltaColumn)
    → column_at cols j ≡ some col
    → Memᴰ c (constraints_of_column col index parent)
    → Memᴰ c (extract_not_null_constraints cols (some index) 0 parent)
unfolding extract_not_null_constraints
child-Memᴰ c no_columns index j parent col h m = cc
child-Memᴰ c (columns first rest) index zero parent col h m = Memᴰ.append_left _ (
    subst (λ (x : DeltaColumn). Memᴰ c (constraints_of_column x index parent)) (some-inj (sym h)) m)
child-Memᴰ c (columns first rest) index (suc j) parent col h m =
    Memᴰ.append_right (constraints_of_column first index parent)
      (child-Memᴰ c rest index j parent col h m)

Requires-Memᴰ :
    (col : DeltaColumn) (names : List Text) (index : ℕ) (parent : Text)
    → Requires col names
    → Memᴰ (constraint_at index (path_of parent names)) (constraints_of_column col index parent)
unfolding extract_not_null_constraints path_of
Requires-Memᴰ (column n type nu p i k v children) names index parent itself = Memᴰ.head refl
Requires-Memᴰ (column n type nu p i k v children) names index parent
      (below {names = names'} s j child at r) =
    let path = field_path parent n in
    let inner = extract_not_null_constraints children (some index) 0 path in
    Memᴰ.append_right (own_constraint nu index path) (
      subst
        (λ (cs : List NestedNotNullConstraint). Memᴰ (constraint_at index (path_of path names')) cs)
        (sym (if_true (is_struct type) inner [] s))
        (child-Memᴰ (constraint_at index (path_of path names')) children index j path child at
          (Requires-Memᴰ child names' index path r)))

-- Each column of the table counts itself.
column-Memᴰ :
    (c : NestedNotNullConstraint) (cols : DeltaColumns) (k j : ℕ) (parent : Text)
    (col : DeltaColumn)
    → column_at cols j ≡ some col
    → Memᴰ c (constraints_of_column col (k + j) parent)
    → Memᴰ c (extract_not_null_constraints cols none k parent)
unfolding extract_not_null_constraints
column-Memᴰ c no_columns k j parent col h m = cc
column-Memᴰ c (columns first rest) k zero parent col h m = Memᴰ.append_left _ (
    subst (λ (x : DeltaColumn). Memᴰ c (constraints_of_column x k parent)) (some-inj (sym h))
      (subst (λ (x : ℕ). Memᴰ c (constraints_of_column col x parent)) (omega arith) m))
column-Memᴰ c (columns first rest) k (suc j) parent col h m =
    Memᴰ.append_right (constraints_of_column first k parent) (
      column-Memᴰ c rest (suc k) j parent col h
        (subst (λ (x : ℕ). Memᴰ c (constraints_of_column col x parent)) (omega arith) m))

-- What a constraint of a column stands for.
abbrev Stands : DeltaColumn → ℕ → Text → NestedNotNullConstraint → Type 0
Stands col index parent c =
    (c.index ≡ index) × ((names : List Text) × Requires col names × (c.path ≡ path_of parent names))

own_constraint-Memᴰ :
    (c : NestedNotNullConstraint) (nullable : Bool) (index : ℕ) (path : Text)
    → Memᴰ c (own_constraint nullable index path)
    → (nullable ≡ false) × (c ≡ constraint_at index path)
own_constraint-Memᴰ c true index path m = absurd (Memᴰ.not-nil m)
own_constraint-Memᴰ c false index path m = (refl, Memᴰ.eq_of_singleton m)

if-Memᴰ :
    (c : NestedNotNullConstraint) (b : Bool) (cs : List NestedNotNullConstraint)
    → Memᴰ c (if b then cs else [])
    → (b ≡ true) × Memᴰ c cs
if-Memᴰ c true cs m = (refl, m)
if-Memᴰ c false cs m = absurd (Memᴰ.not-nil m)

mutual
  unfolding extract_not_null_constraints path_of

  Memᴰ-Stands :
      (c : NestedNotNullConstraint) (col : DeltaColumn) (index : ℕ) (parent : Text)
      → Memᴰ c (constraints_of_column col index parent)
      → Stands col index parent c
  Memᴰ-Stands c (column n type nu p i k v children) index parent m =
      let path = field_path parent n in
      let inner = extract_not_null_constraints children (some index) 0 path in
      elim (Memᴰ.append_cases (own_constraint nu index path) m) [
        | inl own ↦
            let (required, same) = own_constraint-Memᴰ c nu index path own in
            (
              ap (λ (x : NestedNotNullConstraint). x.index) same,
              (
                n ∷ [],
                subst (λ (b : Bool). Requires (column n type b p i k v children) (n ∷ []))
                    (sym required) itself,
                ap (λ (x : NestedNotNullConstraint). x.path) same,
              ),
            )
        | inr nested ↦
            let (s, there) = if-Memᴰ c (is_struct type) inner nested in
            let (j, child, at, (same, (names, r, e))) =
              child-Stands c children index 0 path there in
            (same, (n ∷ names, below s j child at r, e))
      ]

  child-Stands :
      (c : NestedNotNullConstraint) (cols : DeltaColumns) (index col_id : ℕ) (parent : Text)
      → Memᴰ c (extract_not_null_constraints cols (some index) col_id parent)
      → (j : ℕ) × (child : DeltaColumn) × (column_at cols j ≡ some child)
        × Stands child index parent c
  child-Stands c no_columns index col_id parent m = absurd (Memᴰ.not-nil m)
  child-Stands c (columns first rest) index col_id parent m =
      elim (Memᴰ.append_cases (constraints_of_column first index parent) m) [
        | inl here ↦ (0, first, refl, Memᴰ-Stands c first index parent here)
        | inr there ↦
            let (j, child, at, stands) = child-Stands c rest index col_id parent there in
            (suc j, child, at, stands)
      ]

column-Stands :
    (c : NestedNotNullConstraint) (cols : DeltaColumns) (k : ℕ) (parent : Text)
    → Memᴰ c (extract_not_null_constraints cols none k parent)
    → (j : ℕ) × (col : DeltaColumn) × (column_at cols j ≡ some col) × Stands col (k + j) parent c
unfolding extract_not_null_constraints
column-Stands c no_columns k parent m = absurd (Memᴰ.not-nil m)
column-Stands c (columns first rest) k parent m =
    elim (Memᴰ.append_cases (constraints_of_column first k parent) m) [
      | inl here ↦
          let (same, stands) = Memᴰ-Stands c first k parent here in
          (0, first, refl, (same ∙ omega arith, stands))
      | inr there ↦
          let (j, col, at, (same, stands)) = column-Stands c rest (suc k) parent there in
          (suc j, col, at, (same ∙ omega arith, stands))
    ]

-- A required field has a name, and its path is read back.
parse-Requires :
    (col : DeltaColumn) (names : List Text)
    → Requires col names
    → parse_quoted_list (path_of [] names) b'.' ≡ some (ok names)
parse-Requires (column n type nu p i k v children) names itself = parse_quoted_list-path_of n []
parse-Requires (column n type nu p i k v children) names (below {names = names'} s j child at r) =
    parse_quoted_list-path_of n names'

module _ (lower : Text → Text) (to_idx : Text → Option ℕ) where
  -- The constraints are kept whether a width is refused after them or not.
  keep_columns-constraints :
      (cols : DeltaColumns) (s : BoundSchema) (r : Result (List DeltaStringWidthBound))
      → (keep_columns lower to_idx cols s r).0.not_null_constraints ≡ s.not_null_constraints
  keep_columns-constraints cols s (ok bounds) = refl
  keep_columns-constraints cols s (err e) = refl

  bind-constraints :
      (cols : DeltaColumns) (s : BoundSchema)
      → s.have_bound ≡ false
      → s.not_null_constraints ≡ []
      → (bind lower to_idx (ok cols) s).0.not_null_constraints
        ≡ extract_not_null_constraints cols none 0 []
  unfolding bind
  bind-constraints cols s unbound none_yet =
      ap (λ (r : BoundSchema × Result (List (Text × LogicalType))). r.0.not_null_constraints)
        (if_false s.have_bound _ _ unbound)
      ∙ keep_columns-constraints cols (extract_constraints lower to_idx cols s)
          (extract_string_width_bounds lower to_idx 0 cols)
      ∙ ap
          (λ (cs : List NestedNotNullConstraint). cs ++ extract_not_null_constraints cols none 0 [])
          none_yet

  -- After the first binding of a list, the NOT NULL constraints are those of the fields that hold
  -- no NULL and are reached from a column through structs only, no others: each has the index of
  -- its column, and the path that is read back as the names from the column to the field.
  pub bind-Requires :
      (cols : DeltaColumns) (s : BoundSchema) (c : NestedNotNullConstraint)
      → s.have_bound ≡ false
      → s.not_null_constraints ≡ []
      → Memᴰ c (bind lower to_idx (ok cols) s).0.not_null_constraints ↔ (
          (col : DeltaColumn) × (names : List Text) × (column_at cols c.index ≡ some col)
          × Requires col names
          × (c.path ≡ path_of [] names)
          × (parse_quoted_list c.path b'.' ≡ some (ok names)))
  bind-Requires cols s c unbound none_yet =
      let all = bind-constraints cols s unbound none_yet in
      (
        λ m.
            let (j, col, at, (index, (names, r, path))) =
              column-Stands c cols 0 [] (subst (Memᴰ c) all m) in
            (
              col,
              names,
              ap (column_at cols) (index ∙ from_zero j) ∙ at,
              r,
              path,
              ap (λ (t : Text). parse_quoted_list t b'.') path ∙ parse-Requires col names r,
            ),
        λ (col, names, at, r, path, parsed). subst (Memᴰ c) (sym all) (
            column-Memᴰ c cols 0 c.index [] col at (
              subst (λ (i : ℕ). Memᴰ c (constraints_of_column col i [])) (sym (from_zero c.index))
                (subst
                  (λ (t : Text).
                    Memᴰ (constraint_at c.index t) (constraints_of_column col c.index []))
                  (sym path) (Requires-Memᴰ col names c.index [] r)))),
      )
    where
      from_zero : (j : ℕ) → 0 + j ≡ j
      from_zero j = omega arith
