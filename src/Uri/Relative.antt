-- ===== src/Uri/Relative.antt =====
-- The path that an INSERT writes into the log, read back by a scan: `WriteMetaData`
-- (src/storage/delta_transaction.cpp) against `VisitCallbackInternal`
-- (src/functions/delta_scan/delta_multi_file_list.cpp).
use duckdb_delta.Prelude.{
  ℕ, ◌/◌, ◌%◌, ◌<◌, ◌≡◌, ◌≢◌, refl, ap, ◌∙◌, inl, inr, true, false, none, some, [], ◌∷◌, ◌++◌, All,
  arith, Bool-cases, length-append, drop-length-append,
}
use duckdb_delta.Prelude.Bytes.{Text, IsBytes, bytes, starts_with}
use duckdb_delta.Uri.{
  hex_digit, is_unreserved, encode_path_as_uri, url_decode, url_decode_from, substr, skip_slashes,
  add_path, find, has_uri_scheme, rtrim_slashes, is_absolute_add_path, to_duckdb_path,
  resolved_file,
}
use duckdb_delta.Uri.Escapes.{ScansHex, decode_from-plain, url_decode-encode_path_as_uri}

-- A text without the byte `c` cannot start with one that holds it.
starts_with-absent :
    (s p q : Text) (c : ℕ) → All (λ b. b ≢ c) s → starts_with s (p ++ c ∷ q) ≡ false
starts_with-absent [] [] q c h = refl
starts_with-absent [] (d ∷ p) q c h = refl
starts_with-absent (b ∷ s) [] q c h = ground (arith, h.0)
starts_with-absent (b ∷ s) (d ∷ p) q c h = ground (arith, starts_with-absent s p q c h.1)

find-absent : (s q : Text) (c : ℕ) → All (λ b. b ≢ c) s → find s (c ∷ q) ≡ none
unfolding find
find-absent [] q c h = refl
find-absent (b ∷ s) q c h = rw (starts_with-absent (b ∷ s) [] q c h, find-absent s q c h.1) refl

hex_digit-ne-colon : (n : ℕ) → n < 16 → hex_digit n ≢ b':'
unfolding hex_digit
hex_digit-ne-colon n h = ground arith

kept-ne-colon : (c : ℕ) → is_unreserved c ≡ true → c ≢ b':'
unfolding is_unreserved
kept-ne-colon c h = ground arith

encode-no_colon : (s : Text) → IsBytes s → All (λ b. b ≢ b':') (encode_path_as_uri s)
unfolding encode_path_as_uri
encode-no_colon [] h = tt
encode-no_colon (c ∷ cs) h = elim (Bool-cases (is_unreserved c)) [
  | inl kept ↦ rw kept (kept-ne-colon c kept, encode-no_colon cs h.1)
  | inr escaped ↦ rw escaped (
    omega arith,
    (
      hex_digit-ne-colon (c / 16) (omega (arith, h.0)),
      (hex_digit-ne-colon (c % 16) (omega arith), encode-no_colon cs h.1),
    ),
  )
]

encode-no_leading_slash :
    (s : Text)
    → starts_with s (bytes "/") ≡ false
    → starts_with (encode_path_as_uri s) (bytes "/") ≡ false
unfolding encode_path_as_uri
encode-no_leading_slash [] h = refl
encode-no_leading_slash (c ∷ cs) h = ground arith

no_colon-has_uri_scheme : (s : Text) → All (λ b. b ≢ b':') s → has_uri_scheme s ≡ false
unfolding has_uri_scheme
no_colon-has_uri_scheme s h = rw (find-absent s (bytes "//") b':' h, has_uri_scheme) refl

-- What the writer puts into the log below the table's root is never taken for an absolute path or
-- a URI when it is read.
pub encode-is_relative :
    (s : Text)
    → IsBytes s
    → starts_with s (bytes "/") ≡ false
    → is_absolute_add_path (encode_path_as_uri s) ≡ false
unfolding is_absolute_add_path
encode-is_relative s h rel =
    rw
      (
        encode-no_leading_slash s rel,
        no_colon-has_uri_scheme (encode_path_as_uri s) (encode-no_colon s h),
      )
      (starts_with-absent (encode_path_as_uri s) (bytes "file") (bytes "/") b':'
        (encode-no_colon s h))

skip_slashes-append :
    (seps rest : Text)
    → All (λ b. b ≡ b'/') seps
    → starts_with rest (bytes "/") ≡ false
    → skip_slashes (seps ++ rest) ≡ rest
unfolding skip_slashes
skip_slashes-append [] [] h r = refl
skip_slashes-append [] (c ∷ cs) h r = ground arith
skip_slashes-append (c ∷ seps) rest h r = ground (arith, skip_slashes-append seps rest h.1)

All-rtrim_slashes : (s : Text) → All (λ b. b ≢ b'%') s → All (λ b. b ≢ b'%') (rtrim_slashes s)
unfolding rtrim_slashes
All-rtrim_slashes [] h = tt
All-rtrim_slashes (c ∷ cs) h = ground (arith, All-rtrim_slashes cs h.1)

add_path_below :
    (table_path below : Text)
    → add_path table_path (table_path ++ below) ≡ some (encode_path_as_uri (skip_slashes below))
unfolding add_path substr
add_path_below table_path below =
    ground (arith, length-append table_path below, drop-length-append table_path below)

-- A data file that the copy wrote below the table's path, the separators between them repeated or
-- left out, is recorded under a path that a scan of the table resolves to that file: the table's
-- path, one separator, and the file's name. The table's path itself holds no '%'.
pub resolved_file-add_path :
    (scan_hex : Text → ℕ) (table_path seps name : Text)
    → ScansHex scan_hex
    → All (λ b. b ≢ b'%') table_path
    → All (λ b. b ≡ b'/') seps
    → IsBytes name
    → starts_with name (bytes "/") ≡ false
    → (sub_path : Text) × (add_path table_path (table_path ++ (seps ++ name)) ≡ some sub_path)
      × (resolved_file scan_hex table_path sub_path
          ≡ to_duckdb_path (rtrim_slashes table_path ++ b'/' ∷ name))
unfolding resolved_file url_decode url_decode_from
resolved_file-add_path scan_hex table_path seps name scans root sep name_bytes rel = (
  encode_path_as_uri name,
  add_path_below table_path (seps ++ name)
      ∙ ap (λ (t : Text). some (encode_path_as_uri t)) (skip_slashes-append seps name sep rel),
  rw (encode-is_relative name name_bytes rel) (
      ap to_duckdb_path (
        decode_from-plain scan_hex scans (rtrim_slashes table_path) (b'/' ∷ encode_path_as_uri name)
          (All-rtrim_slashes table_path root)
        ∙ ap (λ (t : Text). rtrim_slashes table_path ++ b'/' ∷ t)
            (url_decode-encode_path_as_uri scan_hex scans name name_bytes))),
)
