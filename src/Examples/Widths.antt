-- ===== src/Examples/Widths.antt =====
-- The widths and the NOT NULL constraints of columns at concrete schemas
-- (src/functions/delta_scan/delta_multi_file_list.cpp, src/storage/delta_table_entry.cpp,
-- src/storage/delta_insert.cpp).
use mathlib.Core.List.{Memᴰ}
use duckdb_delta.Prelude.{
  ℕ, suc, ◌≡◌, ◌↔◌, refl, ap, ◌++◌, err, error, io, true, false, Option, none, some, List, [], ◌∷◌,
  ok,
}
use duckdb_delta.Prelude.Bytes.{Text, bytes, text_eq, text_eq_sym, text_eq_sound}
use duckdb_delta.Types.{integer, varchar, list, struct, end}
use duckdb_delta.Columns.{no_identifier, DeltaColumn, DeltaColumns, column, no_columns, columns}
use duckdb_delta.FileList.Widths.{
  DeltaStringWidthBound, parse_char_varchar_width, extract_string_width_bounds,
}
use duckdb_delta.FileList.Constraints.{
  NestedNotNullConstraint, extract_has_null_constraints_in_arrays, BoundSchema, bind,
  get_not_null_constraints,
}
use duckdb_delta.FileList.Required.{column_at, Requires, bind-Requires}
use duckdb_delta.FileList.Bound.{
  paths_for, paths_on, bind-again, paths_for-get_not_null_constraints,
}
use duckdb_delta.Insert.QuotedList.{parse_quoted_list}
use duckdb_delta.Insert.FieldPaths.{path_of}
use duckdb_delta.Insert.Widths.{WidthCheck, plan_insert_projection, check_row}
use duckdb_delta.Insert.Fits.{RowFits, plan_insert_projection-RowFits}

abbrev lower_of : Text → Text
lower_of t = t

abbrev number_of : Text → Option ℕ
number_of [] = none
number_of (c ∷ cs) = some 3

abbrev length_of : Text → ℕ
length_of [] = 0
length_of (c ∷ cs) = suc (length_of cs)

-- An integer and a `varchar(3)`.
abbrev bounded : DeltaColumns
bounded = columns (column (bytes "i") integer true [] none no_identifier [] no_columns) (
    columns (column (bytes "t") varchar true [] none no_identifier (bytes "varchar(3)") no_columns)
      no_columns)

abbrev in_a_list : DeltaColumns
in_a_list =
    columns
      (column (bytes "l") (list varchar) true [] none no_identifier (bytes "array<char(3)>") (
        columns (column (bytes "element") varchar true [] none no_identifier [] no_columns)
          no_columns))
      no_columns

abbrev bound_of_text : DeltaStringWidthBound
bound_of_text = record { column_index = 1; declared_type = bytes "varchar(3)"; max_length = some 3 }

abbrev check_of_text : WidthCheck
check_of_text = record { column_index = 1; max_length = 3 }

abbrev a_row : List (Option Text)
a_row = some (bytes "7") ∷ some (bytes "abc") ∷ []

extract_bounded : extract_string_width_bounds lower_of number_of 0 bounded ≡ ok (bound_of_text ∷ [])
unfolding extract_string_width_bounds
extract_bounded = refl

-- A width below another type, or after other text, has no length to check.
extract_nested :
    extract_string_width_bounds lower_of number_of 0 in_a_list
    ≡ ok (
        record { column_index = 0; declared_type = bytes "array<char(3)>"; max_length = none } ∷ [])
unfolding extract_string_width_bounds
extract_nested = refl

plan_bounded : plan_insert_projection 2 2 true (bound_of_text ∷ []) ≡ ok (check_of_text ∷ [])
unfolding plan_insert_projection
plan_bounded = refl

row_passes : check_row length_of (check_of_text ∷ []) a_row ≡ ok tt
unfolding check_row
row_passes = refl

spaced_width : parse_char_varchar_width lower_of number_of (bytes "char( 3)") ≡ ok none
unfolding parse_char_varchar_width
spaced_width = refl

plan_insert_projection-RowFits_example : RowFits lower_of number_of length_of 0 bounded a_row
plan_insert_projection-RowFits_example =
    plan_insert_projection-RowFits lower_of number_of length_of bounded 2 2 true
      (bound_of_text ∷ []) (check_of_text ∷ []) a_row extract_bounded plan_bounded row_passes

-- A struct that may be NULL, with a field that may not.
abbrev with_struct : DeltaColumns
with_struct = columns (column (bytes "i") integer true [] none no_identifier [] no_columns) (
    columns
      (column (bytes "s") (struct end) true [] none no_identifier []
        (columns (column (bytes "a") integer false [] none no_identifier [] no_columns) no_columns))
      no_columns)

abbrev constraint_of_a : NestedNotNullConstraint
constraint_of_a = record { index = 1; path = bytes "\"s\".\"a\"" }

abbrev unbound_schema : BoundSchema
unbound_schema = record {
  have_bound = false;
  global_columns = no_columns;
  not_null_constraints = [];
  has_null_constraints_in_arrays = false;
  string_width_bounds = [];
}

abbrev bound_schema : BoundSchema
bound_schema = record {
  have_bound = true;
  global_columns = with_struct;
  not_null_constraints = constraint_of_a ∷ [];
  has_null_constraints_in_arrays = false;
  string_width_bounds = [];
}

first_bind :
    bind lower_of number_of (ok with_struct) unbound_schema
    ≡ (bound_schema, ok ((bytes "i", integer) ∷ (bytes "s", struct end) ∷ []))
unfolding bind
first_bind = refl

-- The element of a list is not asked for, the list itself is.
nulls_in_arrays :
    extract_has_null_constraints_in_arrays
      (columns
        (column (bytes "l") (list integer) true [] none no_identifier [] (
          columns
            (column (bytes "element") integer false [] none no_identifier [] no_columns)
            no_columns))
        no_columns)
      false
    ≡ false
unfolding extract_has_null_constraints_in_arrays
nulls_in_arrays = refl

bind-again_example :
    bind lower_of number_of (err (error io "gone")) bound_schema
    ≡ (bound_schema, ok ((bytes "i", integer) ∷ (bytes "s", struct end) ∷ []))
bind-again_example =
    bind-again lower_of number_of (ok with_struct) (err (error io "gone")) unbound_schema
      bound_schema ((bytes "i", integer) ∷ (bytes "s", struct end) ∷ []) first_bind

bind-Requires_example :
    Memᴰ constraint_of_a
      (bind lower_of number_of (ok with_struct) unbound_schema).0.not_null_constraints
    ↔ ((col : DeltaColumn) × (names : List Text) × (column_at with_struct 1 ≡ some col)
        × Requires col names
        × (constraint_of_a.path ≡ path_of [] names)
        × (parse_quoted_list constraint_of_a.path b'.' ≡ some (ok names)))
bind-Requires_example =
    bind-Requires lower_of number_of with_struct unbound_schema constraint_of_a refl refl

text_eq-alike : (a b c : Text) → text_eq a b ≡ true → text_eq a c ≡ text_eq b c
text_eq-alike a b c h = ap (λ (t : Text). text_eq t c) (text_eq_sound a b h)

made_for_struct :
    get_not_null_constraints text_eq (bytes "i" ∷ bytes "s" ∷ []) (constraint_of_a ∷ []) []
    ≡ ok ((bytes "s", bytes "\"s\".\"a\"" ∷ []) ∷ [])
unfolding get_not_null_constraints
made_for_struct = refl

paths_for-get_not_null_constraints_example :
    paths_for text_eq (bytes "s") ((bytes "s", bytes "\"s\".\"a\"" ∷ []) ∷ [])
    ≡ paths_for text_eq (bytes "s") []
      ++ paths_on text_eq (bytes "i" ∷ bytes "s" ∷ []) (bytes "s") (constraint_of_a ∷ [])
paths_for-get_not_null_constraints_example =
    paths_for-get_not_null_constraints text_eq text_eq_sym text_eq-alike
      (bytes "i" ∷ bytes "s" ∷ []) (bytes "s") (constraint_of_a ∷ []) []
      ((bytes "s", bytes "\"s\".\"a\"" ∷ []) ∷ []) made_for_struct
