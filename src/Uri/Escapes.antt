-- ===== src/Uri/Escapes.antt =====
-- `url_decode` undoes `EncodePathAsUri` (src/storage/delta_transaction.cpp and
-- src/functions/delta_scan/delta_multi_file_list.cpp).
use mathlib.Core.List.{append-nil}
use duckdb_delta.Prelude.{
  sym, ◌∙◌, ℕ, ◌+◌, ◌*◌, ◌/◌, ◌%◌, ◌<◌, ◌≡◌, ◌≢◌, refl, ap, inl, inr, true, [], ◌∷◌, ◌++◌, All,
  arith, Bool-cases,
}
use duckdb_delta.Prelude.Bytes.{Text, IsBytes}
use duckdb_delta.Uri.{hex_digit, is_unreserved, encode_path_as_uri, url_decode, url_decode_from}

-- What C documents of `%x` at two upper-case hexadecimal digits.
abbrev pub ScansHex : (Text → ℕ) → Type 0
ScansHex scan_hex =
    (h l : ℕ) → h < 16 → l < 16 → scan_hex (hex_digit h ∷ hex_digit l ∷ []) ≡ h * 16 + l

unreserved-ne-percent : (c : ℕ) → is_unreserved c ≡ true → c ≢ b'%'
unfolding is_unreserved
unreserved-ne-percent c h = ground arith

module _ (scan_hex : Text → ℕ) (scans : ScansHex scan_hex) where
  decode-byte :
      (c : ℕ) (rest : Text)
      → c < 256
      → url_decode_from scan_hex 0 (b'%' ∷ hex_digit (c / 16) ∷ hex_digit (c % 16) ∷ rest)
        ≡ c ∷ url_decode_from scan_hex 0 rest
  unfolding url_decode_from
  decode-byte c rest h =
      rw (scans (c / 16) (c % 16) (omega arith) (omega arith))
        (ap (λ (d : ℕ). d ∷ url_decode_from scan_hex 0 rest) (omega arith))

  decode-plain :
      (c : ℕ) (rest : Text)
      → c ≢ b'%'
      → url_decode_from scan_hex 0 (c ∷ rest) ≡ c ∷ url_decode_from scan_hex 0 rest
  unfolding url_decode_from
  decode-plain c rest h = ground arith

  decode_from-encode :
      (s rest : Text)
      → IsBytes s
      → url_decode_from scan_hex 0 (encode_path_as_uri s ++ rest)
        ≡ s ++ url_decode_from scan_hex 0 rest
  unfolding encode_path_as_uri
  decode_from-encode [] rest h = refl
  decode_from-encode (c ∷ cs) rest h = elim (Bool-cases (is_unreserved c)) [
    | inl kept ↦
        rw (kept, decode-plain c (encode_path_as_uri cs ++ rest) (unreserved-ne-percent c kept))
          (ap (λ (t : Text). c ∷ t) (decode_from-encode cs rest h.1))
    | inr escaped ↦
        rw (escaped, decode-byte c (encode_path_as_uri cs ++ rest) h.0)
          (ap (λ (t : Text). c ∷ t) (decode_from-encode cs rest h.1))
  ]

  -- A text without '%' is decoded to itself.
  pub decode_from-plain :
      (s rest : Text)
      → All (λ c. c ≢ b'%') s
      → url_decode_from scan_hex 0 (s ++ rest) ≡ s ++ url_decode_from scan_hex 0 rest
  decode_from-plain [] rest h = refl
  decode_from-plain (c ∷ cs) rest h =
      rw (decode-plain c (cs ++ rest) h.0)
        (ap (λ (t : Text). c ∷ t) (decode_from-plain cs rest h.1))

  -- Decoding an encoded path gives the path back, whatever its bytes.
  pub url_decode-encode_path_as_uri :
      (s : Text) → IsBytes s → url_decode scan_hex (encode_path_as_uri s) ≡ s
  unfolding url_decode url_decode_from
  url_decode-encode_path_as_uri s h =
      sym (ap (url_decode scan_hex) (append-nil (encode_path_as_uri s)))
      ∙ decode_from-encode s [] h
      ∙ append-nil s
