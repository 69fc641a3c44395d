-- ===== src/FileList/Widths.antt =====
-- The CHAR and VARCHAR widths of a schema: `ParseCharVarcharWidth`, `HasNestedCharVarcharType` and
-- `ExtractStringWidthBounds` (src/functions/delta_scan/delta_multi_file_list.cpp).
use mathlib.Core.Option
use duckdb_delta.Prelude.{
  ℕ, suc, Bool, true, false, not, ◌&&◌, ◌||◌, Option, none, some, List, [], ◌∷◌, is_empty, drop,
  ◌==◌, if◌then◌else◌, Result, ok, err, error, internal, ◌>>=◌,
}
use duckdb_delta.Prelude.Bytes.{Text, bytes, starts_with, is_digit}
use duckdb_delta.TimeTravel.{invalid_index}
use duckdb_delta.Types.{LogicalType, varchar}
use duckdb_delta.Columns.{DeltaColumns, column, no_columns, columns}

-- What stands before a closing parenthesis at the end.
unfoldable pub before_parenthesis : Text → Option Text
before_parenthesis [] = none
before_parenthesis (c ∷ []) = if c == b')' then some [] else none
before_parenthesis (c ∷ d ∷ ds) = Option.map (λ rest. c ∷ rest) (before_parenthesis (d ∷ ds))

unfoldable pub all_digits : Text → Bool
all_digits [] = true
all_digits (c ∷ cs) = is_digit c && all_digits cs

abbrev pub width_text : Text → Option Text
width_text lower =
    if starts_with lower (bytes "char(")
    then before_parenthesis (drop 5 lower)
    else if starts_with lower (bytes "varchar(")
    then before_parenthesis (drop 8 lower)
    else none

-- The largest number of 64 bits stands for no index, and `optional_idx` refuses to hold it.
abbrev pub index_of_width : Option ℕ → Result (Option ℕ)
index_of_width none = ok none
index_of_width (some width) =
    if width == 0
    then ok none
    else if width == invalid_index
    then err (error internal "optional_idx cannot be initialized with an invalid index")
    else ok (some width)

pub record DeltaStringWidthBound : Type 0 where
  pub column_index : ℕ
  pub declared_type : Text
  pub max_length : Option ℕ

abbrev pub is_varchar : LogicalType → Bool
is_varchar varchar = true
is_varchar type = false

unfoldable pub has_nested_char_varchar_type : DeltaColumns → Bool
has_nested_char_varchar_type no_columns = false
has_nested_char_varchar_type (columns (column n t nu p i k varchar_type children) rest) =
    not (is_empty varchar_type)
    || has_nested_char_varchar_type children
    || has_nested_char_varchar_type rest

-- DuckDB's lower case, and its cast of a text to 64 bits.
module _ (lower : Text → Text) (to_idx : Text → Option ℕ) where
  abbrev pub width_of_digits : Option Text → Result (Option ℕ)
  width_of_digits none = ok none
  width_of_digits (some digits) =
      if is_empty digits
      then ok none
      else if all_digits digits
      then index_of_width (to_idx digits)
      else ok none

  unfoldable pub parse_char_varchar_width : Text → Result (Option ℕ)
  unfolding before_parenthesis all_digits
  parse_char_varchar_width declared_type = width_of_digits (width_text (lower declared_type))

  abbrev pub bound_of : ℕ → Text → LogicalType → Bool → Result DeltaStringWidthBound
  bound_of col_id varchar_type type nested =
      (if not nested && is_varchar type then parse_char_varchar_width varchar_type else ok none)
      >>= λ max_length.
          ok (record {
            column_index = col_id;
            declared_type = varchar_type;
            max_length = max_length;
          })

  -- The loop from column `col_id`.
  unfoldable pub extract_string_width_bounds :
      ℕ → DeltaColumns → Result (List DeltaStringWidthBound)
  unfolding parse_char_varchar_width has_nested_char_varchar_type
  extract_string_width_bounds col_id no_columns = ok []
  extract_string_width_bounds col_id (columns (column n type nu p i k varchar_type children) rest) =
      let nested = has_nested_char_varchar_type children in
      let later = extract_string_width_bounds (suc col_id) rest in
      if is_empty varchar_type && not nested
      then later
      else (bound_of col_id varchar_type type nested >>= λ bound.
          later >>= λ bounds. ok (bound ∷ bounds))

  -- What the loop has pushed when it ends or a width is refused.
  unfoldable pub pushed_width_bounds : ℕ → DeltaColumns → List DeltaStringWidthBound
  unfolding parse_char_varchar_width has_nested_char_varchar_type
  pushed_width_bounds col_id no_columns = []
  pushed_width_bounds col_id (columns (column n type nu p i k varchar_type children) rest) =
      let nested = has_nested_char_varchar_type children in
      let later = pushed_width_bounds (suc col_id) rest in
      if is_empty varchar_type && not nested
      then later
      else elim (bound_of col_id varchar_type type nested) [ ok bound ↦ bound ∷ later | err e ↦ [] ]
