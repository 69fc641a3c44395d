-- ===== src/Examples/Writing.antt =====
-- Names in a write's report, and a table's schema (src/storage/delta_insert.cpp,
-- src/delta_schema_builder.cpp).
use duckdb_delta.Prelude.{
  ℕ, ◌≡◌, ◌⊎◌, some, List, [], ◌∷◌, Result, ok, err, error, not_implemented, String,
}
use duckdb_delta.Prelude.Bytes.{Text, bytes}
use duckdb_delta.Types.{Fields, end, field, list, integer, other}
use duckdb_delta.Insert.QuotedList.{parse_quoted_list}
use duckdb_delta.Insert.FieldPaths.{parse_quoted_list-path_of, parse_quoted_list-returns, path_of}
use duckdb_delta.Schema.Builder.{SchemaVisitor, build, throw_if_delta_cannot_store}
use duckdb_delta.Schema.Storable.{Accepted, Refused, throw_if_delta_cannot_store-build}

parse_quoted_list-path_of_example :
    parse_quoted_list (path_of [] (bytes "a.b" ∷ (b'"' ∷ []) ∷ [])) b'.'
    ≡ some (ok (bytes "a.b" ∷ (b'"' ∷ []) ∷ []))
parse_quoted_list-path_of_example = parse_quoted_list-path_of (bytes "a.b") ((b'"' ∷ []) ∷ [])

parse_quoted_list-returns_example :
    (r : Result (List Text)) × (parse_quoted_list (bytes "\"a\".b") b'.' ≡ some r)
parse_quoted_list-returns_example = parse_quoted_list-returns (bytes "\"a\".b") b'.'

abbrev count_visit : ℕ → ℕ × Result ℕ
count_visit s = (s, ok s)

abbrev counting : SchemaVisitor
counting = record {
  State = ℕ;
  visit_field_leaf = λ l name n s. count_visit s;
  visit_field_variant = λ name i n s. count_visit s;
  visit_field_struct = λ name is n s. count_visit s;
  visit_field_array = λ name i n s. count_visit s;
  visit_field_map = λ name i j n s. count_visit s;
}

abbrev hugeint_column : Fields
hugeint_column = field (bytes "a") integer (field (bytes "b") (list (other 50)) end)

throw_if_delta_cannot_store-build_example :
    ((throw_if_delta_cannot_store hugeint_column ≡ ok tt)
      × Accepted counting (build counting hugeint_column 4))
    ⊎ ((message : String) × (throw_if_delta_cannot_store hugeint_column
          ≡ err (error not_implemented message))
        × Refused counting (build counting hugeint_column 4))
throw_if_delta_cannot_store-build_example =
    throw_if_delta_cannot_store-build counting hugeint_column 4
