-- ===== src/FileList/Constraints.antt =====
-- What an insert asks of a schema: `ExtractNotNullConstraints`, `ExtractHasNullConstraintsInArrays`
-- and `Bind` (src/functions/delta_scan/delta_multi_file_list.cpp), `GetNotNullConstraints` and
-- `ThrowOnUnsupportedFieldForInserting` (src/storage/delta_table_entry.cpp). The schema that the
-- kernel's visitor reads, or what it throws, is an argument.
use duckdb_delta.Prelude.{
  ℕ, suc, Bool, true, false, not, ◌&&◌, ◌||◌, Option, none, some, List, [], ◌∷◌, ◌++◌, get_elem?,
  Result, ok, err, error, internal, not_implemented, if◌then◌else◌, ◌>>=◌,
}
use duckdb_delta.Prelude.Bytes.{Text}
use duckdb_delta.Types.{LogicalType, struct, list, array, map_type}
use duckdb_delta.Columns.{DeltaColumn, DeltaColumns, column, no_columns, columns}
use duckdb_delta.Insert.QuotedList.{field_path}
use duckdb_delta.FileList.Widths.{
  DeltaStringWidthBound, extract_string_width_bounds, pushed_width_bounds,
}

pub record NestedNotNullConstraint : Type 0 where
  pub index : ℕ
  pub path : Text

abbrev pub is_struct : LogicalType → Bool
is_struct (struct fields) = true
is_struct type = false

abbrev pub is_list_or_array : LogicalType → Bool
is_list_or_array (list element) = true
is_list_or_array (array element size) = true
is_list_or_array type = false

abbrev pub has_children : LogicalType → Bool
has_children (map_type key value) = true
has_children type = is_struct type || is_list_or_array type

-- `none` stands for the invalid index, with which a column counts itself.
abbrev pub index_to_set : Option ℕ → ℕ → ℕ
index_to_set none col_id = col_id
index_to_set (some index) col_id = index

abbrev pub next_col_id : Option ℕ → ℕ → ℕ
next_col_id none col_id = suc col_id
next_col_id (some index) col_id = col_id

abbrev pub own_constraint : Bool → ℕ → Text → List NestedNotNullConstraint
own_constraint nullable index path =
    if nullable then [] else record { index = index; path = path } ∷ []

unfoldable mutual
  unfolding field_path

  pub extract_not_null_constraints :
      DeltaColumns → Option ℕ → ℕ → Text → List NestedNotNullConstraint
  extract_not_null_constraints no_columns index col_id parent_path = []
  extract_not_null_constraints (columns col rest) index col_id parent_path =
      constraints_of_column col (index_to_set index col_id) parent_path
      ++ extract_not_null_constraints rest index (next_col_id index col_id) parent_path

  -- One turn of the loop.
  pub constraints_of_column : DeltaColumn → ℕ → Text → List NestedNotNullConstraint
  constraints_of_column (column n type nullable p i k v children) index parent_path =
      own_constraint nullable index (field_path parent_path n)
      ++ (if is_struct type
          then extract_not_null_constraints children (some index) 0 (field_path parent_path n)
          else [])

-- `in_array` is passed on and not read.
unfoldable pub extract_has_null_constraints_in_arrays : DeltaColumns → Bool → Bool
extract_has_null_constraints_in_arrays no_columns in_array = false
extract_has_null_constraints_in_arrays (columns (column n type nullable p i k v children) rest)
      in_array =
    (is_list_or_array type && not nullable)
    || (has_children type && extract_has_null_constraints_in_arrays children true)
    || extract_has_null_constraints_in_arrays rest in_array

-- The list's members that `Bind` sets.
pub record BoundSchema : Type 0 where
  pub have_bound : Bool
  pub global_columns : DeltaColumns
  pub not_null_constraints : List NestedNotNullConstraint
  pub has_null_constraints_in_arrays : Bool
  pub string_width_bounds : List DeltaStringWidthBound

abbrev pub bound_fields : DeltaColumns → List (Text × LogicalType)
bound_fields no_columns = []
bound_fields (columns (column n type nullable p i k v children) rest) =
    (n, type) ∷ bound_fields rest

module _ (lower : Text → Text) (to_idx : Text → Option ℕ) where
  abbrev pub extract_constraints : DeltaColumns → BoundSchema → BoundSchema
  extract_constraints visited_schema s = record s {
    have_bound = true;
    not_null_constraints =
        s.not_null_constraints ++ extract_not_null_constraints visited_schema none 0 [];
    has_null_constraints_in_arrays = extract_has_null_constraints_in_arrays visited_schema false;
    string_width_bounds =
        s.string_width_bounds ++ pushed_width_bounds lower to_idx 0 visited_schema;
  }

  -- A width that is refused ends the binding before the columns are kept.
  abbrev pub keep_columns :
      DeltaColumns
      → BoundSchema
      → Result (List DeltaStringWidthBound)
      → BoundSchema × Result (List (Text × LogicalType))
  keep_columns visited_schema s (err e) = (s, err e)
  keep_columns visited_schema s (ok bounds) =
      (record s { global_columns = visited_schema }, ok (bound_fields visited_schema))

  abbrev pub bind_visited :
      Result DeltaColumns → BoundSchema → BoundSchema × Result (List (Text × LogicalType))
  bind_visited (err e) s = (s, err e)
  bind_visited (ok visited_schema) s =
      keep_columns visited_schema (extract_constraints visited_schema s)
        (extract_string_width_bounds lower to_idx 0 visited_schema)

  unfoldable pub bind :
      Result DeltaColumns → BoundSchema → BoundSchema × Result (List (Text × LogicalType))
  unfolding extract_not_null_constraints extract_has_null_constraints_in_arrays
      extract_string_width_bounds pushed_width_bounds
  bind visited s =
      if s.have_bound then (s, ok (bound_fields s.global_columns)) else bind_visited visited s

-- `result[name].push_back(constraint)` in a map whose keys differ by more than their case.
unfoldable pub push_constraint :
    (Text → Text → Bool) → Text → Text → List (Text × List Text) → List (Text × List Text)
push_constraint ci_equals name path [] = (name, path ∷ []) ∷ []
push_constraint ci_equals name path ((key, paths) ∷ rest) =
    let later = push_constraint ci_equals name path rest in
    if ci_equals key name then (key, paths ++ path ∷ []) ∷ rest else (key, paths) ∷ later

-- The loop of `GetNotNullConstraints` over the table's column names. `GetColumn` throws past them.
abbrev pub push_named :
    (Text → Text → Bool)
    → Option Text
    → Text
    → List (Text × List Text)
    → Result (List (Text × List Text))
push_named ci_equals none path result = err (error internal "Logical column index out of range")
push_named ci_equals (some name) path result = ok (push_constraint ci_equals name path result)

unfoldable pub get_not_null_constraints :
    (Text → Text → Bool)
    → List Text
    → List NestedNotNullConstraint
    → List (Text × List Text)
    → Result (List (Text × List Text))
unfolding push_constraint
get_not_null_constraints ci_equals names [] result = ok result
get_not_null_constraints ci_equals names (constraint ∷ rest) result =
    push_named ci_equals (get_elem? names constraint.index) constraint.path result >>= λ result.
    get_not_null_constraints ci_equals names rest result

-- A table entry without a list is let through. The list initializes its scan first.
abbrev pub throw_on_unsupported_field_for_inserting : Option BoundSchema → Result (Unit {0})
throw_on_unsupported_field_for_inserting none = ok tt
throw_on_unsupported_field_for_inserting (some s) =
    if s.has_null_constraints_in_arrays
    then err (
        error not_implemented
          "Inserting into a table with null constraints in arrays is not supported")
    else ok tt
