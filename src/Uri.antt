-- ===== src/Uri.antt =====
-- File paths in the log and on disk: `EncodePathAsUri` and the add path of `WriteMetaData`
-- (src/storage/delta_transaction.cpp), and `url_decode`, `HasUriScheme`, the path part of
-- `ScanDataCallBack::VisitCallbackInternal`, `ToDuckDBPath` and `ToDeltaPath`
-- (src/functions/delta_scan/delta_multi_file_list.cpp). A path is the list of its bytes.
pub mod Escapes
pub mod Relative
pub mod Spelling
use mathlib.Core.Option
use duckdb_delta.Prelude.{
  ℕ, zero, suc, ◌+◌, ◌-◌, ◌/◌, ◌%◌, Bool, true, false, not, ◌&&◌, ◌||◌, Option, none, some, List,
  [], ◌∷◌, ◌++◌, take, drop, length, ltb, leb, ◌==◌, if◌then◌else◌,
}
use duckdb_delta.Prelude.Bytes.{Text, bytes, starts_with, is_alpha, is_alphanumeric}

-- `HEX_DIGIT[n]`
unfoldable pub hex_digit : ℕ → ℕ
hex_digit n = if ltb n 10 then b'0' + n else b'A' + (n - 10)

-- The characters that `EncodePathAsUri` leaves as they are.
unfoldable pub is_unreserved : ℕ → Bool
is_unreserved c =
    is_alphanumeric c
    || (c == b'_')
    || (c == b'-')
    || (c == b'~')
    || (c == b'.')
    || (c == b'/')
    || (c == b'=')

unfoldable pub encode_path_as_uri : Text → Text
unfolding is_unreserved hex_digit
encode_path_as_uri [] = []
encode_path_as_uri (c ∷ cs) =
    if is_unreserved c
    then c ∷ encode_path_as_uri cs
    else b'%' ∷ hex_digit (c / 16) ∷ hex_digit (c % 16) ∷ encode_path_as_uri cs

-- `std::string::substr(offset)`, which throws past the end.
unfoldable pub substr : Text → ℕ → Option Text
substr s offset = if leb offset (length s) then some (drop offset s) else none

unfoldable pub skip_slashes : Text → Text
skip_slashes [] = []
skip_slashes (c ∷ cs) = if c == b'/' then skip_slashes cs else c ∷ cs

-- The path of an add action: the file's name below the table's path. `none` is the exception of
-- `substr`.
unfoldable pub add_path : Text → Text → Option Text
unfolding substr skip_slashes
add_path table_path file_name =
    Option.map (λ s. encode_path_as_uri (skip_slashes s)) (substr file_name (length table_path))

-- `s.find(p)`
unfoldable pub find : Text → Text → Option ℕ
find [] p = if starts_with [] p then some 0 else none
find (c ∷ cs) p = if starts_with (c ∷ cs) p then some 0 else Option.map suc (find cs p)

unfoldable pub is_scheme_char : ℕ → Bool
is_scheme_char c = is_alphanumeric c || (c == b'+') || (c == b'-') || (c == b'.')

unfoldable pub all_scheme_chars : Text → Bool
all_scheme_chars [] = true
all_scheme_chars (c ∷ cs) = is_scheme_char c && all_scheme_chars cs

-- `HasUriScheme` past the test for an empty scheme: `pos` bytes stand before "://".
unfoldable pub is_scheme : ℕ → Text → Bool
unfolding is_scheme_char all_scheme_chars
is_scheme zero path = false
is_scheme (suc n) [] = false
is_scheme (suc n) (c ∷ cs) = is_alpha c && all_scheme_chars (take n cs)

unfoldable pub has_uri_scheme : Text → Bool
unfolding find is_scheme
has_uri_scheme path = elim (find path (bytes "://")) [
  | none ↦ false
  | some pos ↦ is_scheme pos path
]

-- `StringUtil::RTrim(s, "/")`
unfoldable pub rtrim_slashes : Text → Text
rtrim_slashes [] = []
rtrim_slashes (c ∷ cs) = elim (rtrim_slashes cs) [
  | [] ↦ if c == b'/' then [] else c ∷ []
  | d ∷ ds ↦ c ∷ d ∷ ds
]

-- `sub_path.find('/', 1) != npos`
unfoldable pub has_later_slash : Text → Bool
unfolding find
has_later_slash s = elim (find (drop 1 s) (bytes "/")) [ none ↦ false | some pos ↦ true ]

-- Whether `VisitCallbackInternal` takes an add path as it stands.
unfoldable pub is_absolute_add_path : Text → Bool
unfolding has_later_slash has_uri_scheme
is_absolute_add_path sub_path =
    (starts_with sub_path (bytes "/") && has_later_slash sub_path)
    || has_uri_scheme sub_path
    || starts_with sub_path (bytes "file:/")

unfoldable pub to_duckdb_path : Text → Text
to_duckdb_path raw_path =
    if starts_with raw_path (bytes "file://localhost/")
    then drop 16 raw_path
    else if starts_with raw_path (bytes "file://")
    then drop 7 raw_path
    else if starts_with raw_path (bytes "file:/")
    then drop 5 raw_path
    else raw_path

unfoldable pub ends_in_slash : Text → Bool
ends_in_slash [] = false
ends_in_slash (c ∷ []) = c == b'/'
ends_in_slash (c ∷ d ∷ ds) = ends_in_slash (d ∷ ds)

abbrev pub with_trailing_slash : Text → Text
with_trailing_slash path = if ends_in_slash path then path else path ++ b'/' ∷ []

-- `path[path.size() - 1]` is undefined on an empty path: `none`.
unfoldable pub nonempty_delta_path : Text → Option Text
unfolding ends_in_slash
nonempty_delta_path [] = none
nonempty_delta_path (c ∷ cs) = some (with_trailing_slash (c ∷ cs))

-- `in_working_directory` is
-- `fs.JoinPath(fs.GetWorkingDirectory(), p)` of DuckDB's local file system.
module _ (in_working_directory : Text → Text) where
  unfoldable pub delta_path_base : Text → Text
  delta_path_base raw_path =
      if starts_with raw_path (bytes "./")
      then bytes "file://" ++ in_working_directory (drop 2 raw_path)
      else raw_path

  unfoldable pub to_delta_path : Text → Option Text
  unfolding delta_path_base nonempty_delta_path
  to_delta_path raw_path = nonempty_delta_path (delta_path_base raw_path)

-- `scan_hex` is `sscanf(s, "%x", &ii)` with the value that `ii` has after it.
module _ (scan_hex : Text → ℕ) where
  -- The loop of `url_decode`, with `skip` rounds of `i` left to pass over.
  unfoldable pub url_decode_from : ℕ → Text → Text
  url_decode_from skip [] = []
  url_decode_from (suc skip) (c ∷ cs) = url_decode_from skip cs
  url_decode_from zero (c ∷ cs) =
      let escaped = c == b'%' in
      (if escaped then scan_hex (take 2 cs) % 256 else c)
      ∷ url_decode_from (if escaped then 2 else 0) cs

  unfoldable pub url_decode : Text → Text
  unfolding url_decode_from
  url_decode = url_decode_from 0

  -- The file that `VisitCallbackInternal` adds for an add path of the table at `table_path`.
  unfoldable pub resolved_file : Text → Text → Text
  unfolding url_decode is_absolute_add_path rtrim_slashes to_duckdb_path
  resolved_file table_path sub_path = to_duckdb_path (
      url_decode (
        if is_absolute_add_path sub_path
        then sub_path
        else rtrim_slashes table_path ++ b'/' ∷ sub_path))
