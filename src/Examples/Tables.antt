-- ===== src/Examples/Tables.antt =====
-- A CREATE TABLE with partition columns and properties (src/storage/delta_create_table.cpp,
-- src/delta_table_properties.cpp).
use duckdb_delta.Prelude.{
  ℕ, ◌+◌, ◌≡◌, refl, ◌⊎◌, Bool, false, ◌&&◌, [], ◌∷◌, err, leb, if◌then◌else◌, map,
}
use duckdb_delta.Prelude.Bytes.{Text, bytes, text_eq}
use duckdb_delta.Types.{Fields, field, end, integer, varchar}
use duckdb_delta.CreateTable.{resolve_partition_columns}
use duckdb_delta.CreateTable.Partitions.{resolve_partition_columns-Distinct, Resolved, Distinct}
use duckdb_delta.TableProperties.{known_keys, is_delta_key, throw_if_unknown_delta_key}
use duckdb_delta.TableProperties.Spelling.{throw_if_unknown_delta_key-Among, Among}

abbrev lower_char : ℕ → ℕ
lower_char c = if leb b'A' c && leb c b'Z' then c + 32 else c

abbrev lower_text : Text → Text
lower_text s = map lower_char s

abbrev same_letters : Text → Text → Bool
same_letters s t = text_eq (lower_text s) (lower_text t)

abbrev two_columns : Fields
two_columns = field (bytes "Day") integer (field (bytes "city") varchar end)

resolve_partition_columns-Distinct_example :
    Resolved same_letters two_columns
      (bytes "CITY" ∷ bytes "day" ∷ [])
      (bytes "city" ∷ bytes "Day" ∷ [])
    × Distinct (bytes "city" ∷ bytes "Day" ∷ [])
unfolding resolve_partition_columns
resolve_partition_columns-Distinct_example =
    resolve_partition_columns-Distinct same_letters two_columns (bytes "CITY" ∷ bytes "day" ∷ [])
      (bytes "city" ∷ bytes "Day" ∷ []) refl

throw_if_unknown_delta_key-Among_example :
    (is_delta_key lower_text same_letters (bytes "delta.appendOnly") ≡ false)
    ⊎ Among (bytes "delta.appendOnly") known_keys
unfolding throw_if_unknown_delta_key
throw_if_unknown_delta_key-Among_example =
    throw_if_unknown_delta_key-Among lower_text same_letters (bytes "delta.appendOnly") refl

wrong_case :
    (e : _) × (throw_if_unknown_delta_key lower_text same_letters (bytes "delta.appendonly")
      ≡ err e)
unfolding throw_if_unknown_delta_key
wrong_case = (_, refl)
