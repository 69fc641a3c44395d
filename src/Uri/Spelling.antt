-- ===== src/Uri/Spelling.antt =====
-- The spellings of a table's path: `ToDuckDBPath` and `ToDeltaPath`
-- (src/functions/delta_scan/delta_multi_file_list.cpp).
use mathlib.Core.Option.{some-injective}
use duckdb_delta.Prelude.{
  subst, ◌≡◌, ◌≢◌, refl, inl, inr, true, false, some, [], ◌∷◌, ◌++◌, arith, Bool-cases,
}
use duckdb_delta.Prelude.Bytes.{Text, bytes, starts_with}
use duckdb_delta.Uri.{
  to_duckdb_path, to_delta_path, delta_path_base, ends_in_slash, nonempty_delta_path,
  with_trailing_slash,
}

-- The spellings of one local absolute path, with an empty host, with the host `localhost`, with the
-- Hadoop prefix and with none, name one file. The Hadoop form is read so only if the path has no
-- second slash at its front.
pub to_duckdb_path-local :
    (p : Text)
    → starts_with p (bytes "/") ≡ false
    → (to_duckdb_path (bytes "file:///" ++ p) ≡ b'/' ∷ p)
      × (to_duckdb_path (bytes "file://localhost/" ++ p) ≡ b'/' ∷ p)
      × (to_duckdb_path (bytes "file:/" ++ p) ≡ b'/' ∷ p)
      × (to_duckdb_path (b'/' ∷ p) ≡ b'/' ∷ p)
unfolding to_duckdb_path
to_duckdb_path-local [] h = (refl, refl, refl, refl)
to_duckdb_path-local (c ∷ cs) h = (refl, refl, ground arith, refl)

ends_in_slash-append : (s : Text) → ends_in_slash (s ++ b'/' ∷ []) ≡ true
unfolding ends_in_slash
ends_in_slash-append [] = refl
ends_in_slash-append (c ∷ []) = refl
ends_in_slash-append (c ∷ d ∷ s) = ends_in_slash-append (d ∷ s)

with_trailing_slash-ends : (s : Text) → ends_in_slash (with_trailing_slash s) ≡ true
with_trailing_slash-ends s = ground (arith, ends_in_slash-append s)

dot_slash-append :
    (s : Text)
    → s ≢ bytes "."
    → starts_with s (bytes "./") ≡ false
    → starts_with (s ++ b'/' ∷ []) (bytes "./") ≡ false
dot_slash-append [] ne h = refl
dot_slash-append (c ∷ []) ne h = ground arith
dot_slash-append (c ∷ d ∷ s) ne h = h

-- A path that is not relative to the working directory stays so under its trailing slash.
abbrev IsPlain : Text → Type 0
IsPlain s = (starts_with s (bytes "./") ≡ false) × (s ≢ bytes ".")

nonempty_delta_path-ends : (s : Text) → ends_in_slash s ≡ true → nonempty_delta_path s ≡ some s
unfolding nonempty_delta_path
nonempty_delta_path-ends [] h = cc
nonempty_delta_path-ends (c ∷ cs) h = rw h refl

with_trailing_slash-IsPlain :
    (s : Text) → IsPlain s → starts_with (with_trailing_slash s) (bytes "./") ≡ false
with_trailing_slash-IsPlain s plain = elim (Bool-cases (ends_in_slash s)) [
  | inl e ↦ rw e plain.0
  | inr e ↦ rw e (dot_slash-append s plain.1 plain.0)
]

nonempty_delta_path_lem :
    (base path : Text)
    → IsPlain base
    → nonempty_delta_path base ≡ some path
    → (ends_in_slash path ≡ true)
      × (starts_with path (bytes "./") ≡ false)
      × (nonempty_delta_path path ≡ some path)
unfolding nonempty_delta_path
nonempty_delta_path_lem [] path plain h = cc
nonempty_delta_path_lem (c ∷ cs) path plain h =
    subst
      (λ p.
        (ends_in_slash p ≡ true)
        × (starts_with p (bytes "./") ≡ false)
        × (nonempty_delta_path p ≡ some p))
      (some-injective _ _ h)
      (
        with_trailing_slash-ends (c ∷ cs),
        with_trailing_slash-IsPlain (c ∷ cs) plain,
        nonempty_delta_path-ends (with_trailing_slash (c ∷ cs)) (with_trailing_slash-ends (c ∷ cs)),
      )

module _ (in_working_directory : Text → Text) where
  delta_path_base-IsPlain :
      (raw : Text) → raw ≢ bytes "." → IsPlain (delta_path_base in_working_directory raw)
  unfolding delta_path_base
  delta_path_base-IsPlain raw ne = elim (Bool-cases (starts_with raw (bytes "./"))) [
    | inl e ↦ rw e (refl, λ h. cc)
    | inr e ↦ rw e (e, ne)
  ]

  -- The path handed to the kernel ends in a slash, and handing it on a second time, as a filter
  -- pushdown does, changes nothing. The path "." alone is left out: it becomes "./".
  pub to_delta_path_stable :
      (raw path : Text)
      → raw ≢ bytes "."
      → to_delta_path in_working_directory raw ≡ some path
      → (ends_in_slash path ≡ true) × (to_delta_path in_working_directory path ≡ some path)
  unfolding to_delta_path delta_path_base
  to_delta_path_stable raw path ne h =
      let facts =
        nonempty_delta_path_lem (delta_path_base in_working_directory raw) path
          (delta_path_base-IsPlain raw ne) h in
      (facts.0, rw facts.1 facts.2)
