-- ===== src/TableProperties/Spelling.antt =====
-- The spelling of table properties (src/delta_table_properties.cpp).
use duckdb_delta.Prelude.{
  ◌≡◌, ap, ◌⊎◌, inl, inr, Bool, false, Option, none, some, List, [], ◌∷◌, ok, Bool-cases,
}
use duckdb_delta.Prelude.Bytes.{text_eq_sound, Text, text_eq}
use duckdb_delta.TableProperties.{
  known_keys, is_delta_key, find_key, find_known_key, check_spelling, throw_if_unknown_delta_key,
}

-- A text stands in a list.
abbrev pub Among : Text → List Text → Type 0
Among key [] = ⊥
Among key (x ∷ xs) = (x ≡ key) ⊎ Among key xs

module _ (lower : Text → Text) (ci_equals : Text → Text → Bool) where
  find_key-Among :
      (key known : Text) (keys : List Text)
      → find_key lower ci_equals key keys ≡ some known
      → Among known keys
  unfolding find_key
  find_key-Among key known [] h = cc
  find_key-Among key known (x ∷ xs) h = elim (Bool-cases (ci_equals x key)) [
    | inl here ↦ inl (some-injective (rw (here, find_key) at h))
    | inr there ↦ inr (find_key-Among key known xs (rw (there, find_key) at h))
  ]
    where
      some-injective : {a b : Text} → ◌≡◌ {A = Option Text} (some a) (some b) → a ≡ b
      some-injective e = cc

  check_spelling-exact :
      (key : Text) (found : Option Text)
      → check_spelling lower ci_equals key found ≡ ok tt
      → found ≡ some key
  check_spelling-exact key none h = cc
  check_spelling-exact key (some known) h = elim (Bool-cases (text_eq known key)) [
    | inl same ↦ ap (λ (k : Text). some k) (text_eq_sound known key same)
    | inr other ↦ cc (rw (other, check_spelling) at h)
  ]

  -- A property that is let through is the user's own, or one that Delta has, spelled exactly.
  pub throw_if_unknown_delta_key-Among :
      (key : Text)
      → throw_if_unknown_delta_key lower ci_equals key ≡ ok tt
      → (is_delta_key lower ci_equals key ≡ false) ⊎ Among key known_keys
  unfolding throw_if_unknown_delta_key find_known_key
  throw_if_unknown_delta_key-Among key h = elim (Bool-cases (is_delta_key lower ci_equals key)) [
    | inr own ↦ inl own
    | inl delta ↦ inr (
        find_key-Among key key known_keys (
          check_spelling-exact key (find_known_key lower ci_equals key)
            (rw (delta, throw_if_unknown_delta_key) at h)))
  ]
