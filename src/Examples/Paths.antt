-- ===== src/Examples/Paths.antt =====
-- Paths of a concrete table (src/functions/delta_scan/delta_multi_file_list.cpp).
use duckdb_delta.Prelude.{
  ℕ, ◌+◌, ◌*◌, ◌-◌, ◌≡◌, refl, true, false, some, [], ◌∷◌, ◌++◌, arith, ltb, if◌then◌else◌,
}
use duckdb_delta.Prelude.Bytes.{Text, bytes, IsBytes}
use duckdb_delta.Uri.{
  hex_digit, add_path, encode_path_as_uri, is_absolute_add_path, resolved_file, url_decode,
  to_duckdb_path, to_delta_path, rtrim_slashes, ends_in_slash,
}
use duckdb_delta.Uri.Escapes.{ScansHex, url_decode-encode_path_as_uri}
use duckdb_delta.Uri.Relative.{encode-is_relative, resolved_file-add_path}
use duckdb_delta.Uri.Spelling.{to_duckdb_path-local, to_delta_path_stable}

-- A reader of two hexadecimal digits.
abbrev digit_value : ℕ → ℕ
digit_value c = if ltb c b'A' then c - b'0' else 10 + (c - b'A')

abbrev scan_two : Text → ℕ
scan_two (a ∷ b ∷ rest) = digit_value a * 16 + digit_value b
scan_two _ = 0

scan_two-ScansHex : ScansHex scan_two
unfolding hex_digit
scan_two-ScansHex = λ h l lh ll. ground arith

abbrev file_below : Text
file_below = bytes "p=a b/x"

file_below-IsBytes : IsBytes file_below
file_below-IsBytes = ground arith

url_decode-encode_path_as_uri_example :
    url_decode scan_two (encode_path_as_uri file_below) ≡ file_below
url_decode-encode_path_as_uri_example =
    url_decode-encode_path_as_uri scan_two scan_two-ScansHex file_below file_below-IsBytes

encode-is_relative_example : is_absolute_add_path (encode_path_as_uri file_below) ≡ false
encode-is_relative_example = encode-is_relative file_below file_below-IsBytes refl

resolved_file-add_path_example :
    (sub_path : Text) × (add_path (bytes "s3://b/t/") (bytes "s3://b/t/" ++ ([] ++ file_below))
      ≡ some sub_path)
    × (resolved_file scan_two (bytes "s3://b/t/") sub_path
        ≡ to_duckdb_path (rtrim_slashes (bytes "s3://b/t/") ++ b'/' ∷ file_below))
resolved_file-add_path_example =
    resolved_file-add_path scan_two (bytes "s3://b/t/") [] file_below scan_two-ScansHex
      (ground arith) tt file_below-IsBytes refl

to_duckdb_path-local_example :
    (to_duckdb_path (bytes "file:///" ++ bytes "data/t") ≡ b'/' ∷ bytes "data/t")
    × (to_duckdb_path (bytes "file://localhost/" ++ bytes "data/t") ≡ b'/' ∷ bytes "data/t")
    × (to_duckdb_path (bytes "file:/" ++ bytes "data/t") ≡ b'/' ∷ bytes "data/t")
    × (to_duckdb_path (b'/' ∷ bytes "data/t") ≡ b'/' ∷ bytes "data/t")
to_duckdb_path-local_example = to_duckdb_path-local (bytes "data/t") refl

abbrev below_home : Text → Text
below_home p = bytes "/home/" ++ p

to_delta_path_stable_example :
    (ends_in_slash (bytes "file:///home/t/") ≡ true)
    × (to_delta_path below_home (bytes "file:///home/t/") ≡ some (bytes "file:///home/t/"))
unfolding to_delta_path
to_delta_path_stable_example =
    to_delta_path_stable below_home (bytes "./t") (bytes "file:///home/t/") (λ h. cc) refl
