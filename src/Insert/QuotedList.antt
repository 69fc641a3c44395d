-- ===== src/Insert/QuotedList.antt =====
-- `ParseQuotedValue` and `ParseQuotedList` (src/storage/delta_insert.cpp), and the quoting that they
-- undo, `ExtractNotNullConstraints` (src/functions/delta_scan/delta_multi_file_list.cpp).
use mathlib.Core.Option
use duckdb_delta.Prelude.{
  ℕ, zero, suc, Option, none, some, List, [], ◌∷◌, ◌++◌, Result, ok, err, error, invalid_input,
  ◌==◌, if◌then◌else◌, ◌>>=◌, length, is_empty,
}
use duckdb_delta.Prelude.Bytes.{Text}

abbrev pub prepend : ℕ → Result (Text × Text) → Result (Text × Text)
prepend c r = r >>= λ x. ok (c ∷ x.0, x.1)

-- The loop of `ParseQuotedValue` past the first quote: the value, and what stands behind the closing
-- quote.
unfoldable pub unquote : Text → Result (Text × Text)
unquote [] = err (error invalid_input "Failed to parse quoted value - unterminated quote")
unquote (c ∷ []) =
    if c == b'"'
    then ok ([], [])
    else err (error invalid_input "Failed to parse quoted value - unterminated quote")
unquote (c ∷ d ∷ ds) =
    let unescaped = unquote (d ∷ ds) in
    let escaped = unquote ds in
    if c == b'"'
    then (if d == b'"' then prepend b'"' escaped else ok ([], d ∷ ds))
    else prepend c unescaped

-- The position in the input is the text that is left.
unfoldable pub parse_quoted_value : Text → Result (Text × Text)
unfolding unquote
parse_quoted_value [] = err (error invalid_input "Failed to parse quoted value - expected a quote")
parse_quoted_value (c ∷ cs) =
    if c == b'"'
    then unquote cs
    else err (error invalid_input "Failed to parse quoted value - expected a quote")

-- The text behind a value: the end, or a separator and the next value.
unfoldable pub next_value : ℕ → Text → Result (Option Text)
next_value separator [] = ok none
next_value separator (c ∷ cs) =
    if c == separator
    then ok (some cs)
    else err (error invalid_input "Failed to parse list - expected a separator")

-- The loop of `ParseQuotedList`; `none` is fuel that ran out.
unfoldable pub parse_quoted_values : ℕ → Text → ℕ → Option (Result (List Text))
unfolding parse_quoted_value next_value
parse_quoted_values zero input separator = none
parse_quoted_values (suc fuel) input separator = elim (parse_quoted_value input) [
  | err e ↦ some (err e)
  | ok (value, left) ↦ elim (next_value separator left) [
    | err e ↦ some (err e)
    | ok none ↦ some (ok (value ∷ []))
    | ok (some rest) ↦
        Option.map (λ r. r >>= λ values. ok (value ∷ values))
          (parse_quoted_values fuel rest separator)
  ]
]

unfoldable pub parse_quoted_list : Text → ℕ → Option (Result (List Text))
unfolding parse_quoted_values
parse_quoted_list [] separator = some (ok [])
parse_quoted_list (c ∷ cs) separator = parse_quoted_values (length (c ∷ cs)) (c ∷ cs) separator

-- `StringUtil::Replace(s, "\"", "\"\"")`
unfoldable pub double_quotes : Text → Text
double_quotes [] = []
double_quotes (c ∷ cs) = if c == b'"' then b'"' ∷ b'"' ∷ double_quotes cs else c ∷ double_quotes cs

unfoldable pub quoted_name : Text → Text
unfolding double_quotes
quoted_name name = b'"' ∷ (double_quotes name ++ b'"' ∷ [])

unfoldable pub field_path : Text → Text → Text
unfolding quoted_name
field_path parent_path name =
    if is_empty parent_path then quoted_name name else parent_path ++ b'.' ∷ quoted_name name
