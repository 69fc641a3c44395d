-- ===== src/Insert/Widths.antt =====
-- The check of widths on the way to the copy: `DeltaStringWidthCheck` and the bounds of
-- `PlanInsertProjection` (src/storage/delta_insert.cpp). The casts to the written types are DuckDB's
-- and leave the checked values alone.
use duckdb_delta.Prelude.{
  ℕ, Bool, ◌&&◌, Option, none, some, List, [], ◌∷◌, is_empty, get_elem?, ltb, ◌==◌, Result, ok, err,
  error, binder, internal, invalid_input, not_implemented, if◌then◌else◌, ◌>>=◌, ◌>>◌,
}
use duckdb_delta.Prelude.Bytes.{Text}
use duckdb_delta.FileList.Widths.{DeltaStringWidthBound}

-- The check that a column's expression is wrapped in.
pub record WidthCheck : Type 0 where
  pub column_index : ℕ
  pub max_length : ℕ

abbrev pub plan_bound : ℕ → DeltaStringWidthBound → Option ℕ → Result WidthCheck
plan_bound column_count bound none = err (
    error not_implemented
      "Delta column \"%s\" %s, which duckdb-delta cannot enforce on write yet. Refusing the write rather than committing values Spark would reject.")
plan_bound column_count bound (some max_length) =
    ok (record { column_index = bound.column_index; max_length = max_length })

-- A bound past the table's columns is refused by `GetColumn`.
unfoldable pub plan_bounds : ℕ → List DeltaStringWidthBound → Result (List WidthCheck)
plan_bounds column_count [] = ok []
plan_bounds column_count (bound ∷ rest) =
    if ltb bound.column_index column_count
    then (plan_bound column_count bound bound.max_length >>= λ check.
        plan_bounds column_count rest >>= λ checks. ok (check ∷ checks))
    else err (error internal "Physical column index out of range")

-- `types_match` is whether the child's types are the written ones.
unfoldable pub plan_insert_projection :
    ℕ → ℕ → Bool → List DeltaStringWidthBound → Result (List WidthCheck)
unfolding plan_bounds
plan_insert_projection type_count column_count types_match bounds =
    if is_empty bounds && types_match
    then ok []
    else if type_count == column_count
    then plan_bounds column_count bounds
    else err (
        error binder
          "Cannot write to Delta table: the insert produces %llu columns but the table has %llu")

-- A row's texts, with `none` for NULL. `length_of` is DuckDB's length in code points.
module _ (length_of : Text → ℕ) where
  unfoldable pub check_value : ℕ → Option (Option Text) → Result (Unit {0})
  check_value max_length none = ok tt
  check_value max_length (some none) = ok tt
  check_value max_length (some (some value)) =
      if ltb max_length (length_of value)
      then err (
          error invalid_input
            "Delta column \"%s\" is declared as %s, but the value being written is %llu characters long. Delta records this width as __CHAR_VARCHAR_TYPE_STRING field metadata; writing a longer value produces a table that Spark rejects.")
      else ok tt

  unfoldable pub check_row : List WidthCheck → List (Option Text) → Result (Unit {0})
  unfolding check_value
  check_row [] row = ok tt
  check_row (check ∷ checks) row =
      check_value check.max_length (get_elem? row check.column_index) >> check_row checks row
