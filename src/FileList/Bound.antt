-- ===== src/FileList/Bound.antt =====
-- A list binds its schema once (src/functions/delta_scan/delta_multi_file_list.cpp), and its
-- constraints by column (src/storage/delta_table_entry.cpp).
use duckdb_delta.Prelude.{
  ◌≡◌, refl, ap, sym, ◌∙◌, inl, inr, Bool, true, false, Option, none, some, List, [], ◌∷◌, ◌++◌,
  get_elem?, ℕ, Result, ok, err, >>=-ok, ok-injective, Bool-cases, if◌then◌else◌, if_true, if_false,
}
use mathlib.Core.List.{append_assoc, append-nil}
use duckdb_delta.Prelude.Bytes.{Text}
use duckdb_delta.Types.{LogicalType}
use duckdb_delta.Columns.{DeltaColumns}
use duckdb_delta.FileList.Widths.{DeltaStringWidthBound, extract_string_width_bounds}
use duckdb_delta.FileList.Constraints.{
  NestedNotNullConstraint, BoundSchema, bound_fields, extract_constraints, keep_columns,
  bind_visited, bind, push_constraint, push_named, get_not_null_constraints,
}

module _ (lower : Text → Text) (to_idx : Text → Option ℕ) where
  abbrev Step : Type 0
  Step = BoundSchema × Result (List (Text × LogicalType))

  -- What a binding that returned leaves.
  abbrev IsBound : BoundSchema → List (Text × LogicalType) → Type 0
  IsBound s fields = (s.have_bound ≡ true) × (bound_fields s.global_columns ≡ fields)

  IsBound-step :
      (s s' : BoundSchema) (f fields : List (Text × LogicalType))
      → ◌≡◌ {A = Step} (s, ok f) (s', ok fields)
      → IsBound s f
      → IsBound s' fields
  IsBound-step s s' f fields e (bound, same) = (
    ap (λ (r : Step). r.0.have_bound) (sym e) ∙ bound,
    ap (λ (r : Step). bound_fields r.0.global_columns) (sym e)
        ∙ same
        ∙ ok-injective (ap (λ (r : Step). r.1) e),
  )

  keep_columns-IsBound :
      (cols : DeltaColumns) (s s' : BoundSchema) (fields : List (Text × LogicalType))
      (r : Result (List DeltaStringWidthBound))
      → s.have_bound ≡ true
      → keep_columns lower to_idx cols s r ≡ (s', ok fields)
      → IsBound s' fields
  keep_columns-IsBound cols s s' fields (ok bounds) bound h =
      IsBound-step (record s { global_columns = cols }) s' (bound_fields cols) fields h
        (bound, refl)
  keep_columns-IsBound cols s s' fields (err e) bound h = cc (ap (λ (r : Step). r.1) h)

  bind_visited-IsBound :
      (visited : Result DeltaColumns) (s s' : BoundSchema) (fields : List (Text × LogicalType))
      → bind_visited lower to_idx visited s ≡ (s', ok fields)
      → IsBound s' fields
  bind_visited-IsBound (ok cols) s s' fields h =
      keep_columns-IsBound cols (extract_constraints lower to_idx cols s) s' fields
        (extract_string_width_bounds lower to_idx 0 cols) refl h
  bind_visited-IsBound (err e) s s' fields h = cc (ap (λ (r : Step). r.1) h)

  -- Once a binding has returned, every later one returns the same columns and changes nothing,
  -- whatever the kernel would show it then.
  pub bind-again :
      (visited later : Result DeltaColumns) (s s' : BoundSchema)
      (fields : List (Text × LogicalType))
      → bind lower to_idx visited s ≡ (s', ok fields)
      → bind lower to_idx later s' ≡ (s', ok fields)
  unfolding bind
  bind-again visited later s s' fields h =
      let (bound, same) = elim (Bool-cases s.have_bound) as (λ _. IsBound s' fields) [
        | inl before ↦
            IsBound-step s s' (bound_fields s.global_columns) fields
              (sym (if_true s.have_bound _ _ before) ∙ h) (before, refl)
        | inr unbound ↦
            bind_visited-IsBound visited s s' fields (sym (if_false s.have_bound _ _ unbound) ∙ h)
      ] in
      if_true s'.have_bound _ _ bound ∙ ap (λ (f : List (Text × LogicalType)). (s', ok f)) same

-- The paths that a map keeps for a name.
unfoldable pub paths_for : (Text → Text → Bool) → Text → List (Text × List Text) → List Text
paths_for ci_equals name [] = []
paths_for ci_equals name ((key, paths) ∷ rest) =
    if ci_equals key name then paths else paths_for ci_equals name rest

-- The paths of the constraints on a column of that name, in order.
abbrev pub keep_named : Bool → Text → List Text → List Text
keep_named named path later = if named then path ∷ later else later

abbrev pub is_named : (Text → Text → Bool) → Option Text → Text → Bool
is_named ci_equals none name = false
is_named ci_equals (some column) name = ci_equals column name

unfoldable pub paths_on :
    (Text → Text → Bool) → List Text → Text → List NestedNotNullConstraint → List Text
paths_on ci_equals names name [] = []
paths_on ci_equals names name (constraint ∷ rest) =
    keep_named (is_named ci_equals (get_elem? names constraint.index) name) constraint.path
      (paths_on ci_equals names name rest)

-- `StringUtil::CIEquals` compares the two texts in lower case.
module _ (ci_equals : Text → Text → Bool) (symmetric : (a b : Text) → ci_equals a b ≡ ci_equals b a)
    (alike : (a b c : Text) → ci_equals a b ≡ true → ci_equals a c ≡ ci_equals b c) where
  paths_for-push_constraint :
      (column path name : Text) (result : List (Text × List Text))
      → paths_for ci_equals name (push_constraint ci_equals column path result) ≡ (
          if ci_equals column name
          then paths_for ci_equals name result ++ path ∷ []
          else paths_for ci_equals name result)
  unfolding paths_for push_constraint
  paths_for-push_constraint column path name [] = refl
  paths_for-push_constraint column path name ((key, paths) ∷ rest) =
      let later = push_constraint ci_equals column path rest in
      elim (Bool-cases (ci_equals key column)) [
        | inl same ↦
            ap (paths_for ci_equals name) (if_true (ci_equals key column) _ _ same)
            ∙ at_key (ci_equals key name) (ci_equals column name) (sym (alike key column name same))
        | inr other ↦
            ap (paths_for ci_equals name) (if_false (ci_equals key column) _ _ other)
            ∙ below_key (ci_equals key name) (ci_equals column name)
                (λ k c.
                  let e = alike name column key (symmetric name column ∙ c) in
                  cc (e, k, other, symmetric name key, symmetric column key))
                (paths_for-push_constraint column path name rest)
      ]
    where
      at_key :
          (k c : Bool)
          → c ≡ k
          → (if k then paths ++ path ∷ [] else paths_for ci_equals name rest) ≡ (
              if c
              then (if k then paths else paths_for ci_equals name rest) ++ path ∷ []
              else (if k then paths else paths_for ci_equals name rest))
      at_key true true e = refl
      at_key true false e = cc
      at_key false true e = cc
      at_key false false e = refl

      below_key :
          (k c : Bool)
          → (k ≡ true → c ≡ true → ⊥)
          → paths_for ci_equals name (push_constraint ci_equals column path rest) ≡ (
              if c
              then paths_for ci_equals name rest ++ path ∷ []
              else paths_for ci_equals name rest)
          → (if k
              then paths
              else paths_for ci_equals name (push_constraint ci_equals column path rest))
            ≡ (if c
                then (if k then paths else paths_for ci_equals name rest) ++ path ∷ []
                else (if k then paths else paths_for ci_equals name rest))
      below_key true true differ r = absurd (differ refl refl)
      below_key true false differ r = refl
      below_key false c differ r = r

  paths_for-push_named :
      (column : Option Text) (path name : Text) (result pushed : List (Text × List Text))
      → push_named ci_equals column path result ≡ ok pushed
      → (later : List Text)
      → paths_for ci_equals name pushed ++ later
        ≡ paths_for ci_equals name result ++ keep_named (is_named ci_equals column name) path later
  paths_for-push_named none path name result pushed h later = cc
  paths_for-push_named (some column) path name result pushed h later =
      ap (λ (r : List (Text × List Text)). paths_for ci_equals name r ++ later)
        (sym (ok-injective h))
      ∙ ap (λ (ps : List Text). ps ++ later) (paths_for-push_constraint column path name result)
      ∙ regroup (ci_equals column name) (paths_for ci_equals name result)
    where
      regroup :
          (b : Bool) (before : List Text)
          → (if b then before ++ path ∷ [] else before) ++ later ≡ before ++ keep_named b path later
      regroup true before = append_assoc before (path ∷ []) later
      regroup false before = refl

  -- If the map can be made, a name finds in it what it found before, and after that the paths of the
  -- constraints on the columns of that name, in order.
  pub paths_for-get_not_null_constraints :
      (names : List Text) (name : Text) (constraints : List NestedNotNullConstraint)
      (result made : List (Text × List Text))
      → get_not_null_constraints ci_equals names constraints result ≡ ok made
      → paths_for ci_equals name made
        ≡ paths_for ci_equals name result ++ paths_on ci_equals names name constraints
  unfolding get_not_null_constraints paths_on
  paths_for-get_not_null_constraints names name [] result made h =
      ap (paths_for ci_equals name) (sym (ok-injective h))
      ∙ sym (append-nil (paths_for ci_equals name result))
  paths_for-get_not_null_constraints names name (c ∷ rest) result made h =
      let (pushed, first, next) =
        >>=-ok (push_named ci_equals (get_elem? names c.index) c.path result)
          (λ result. get_not_null_constraints ci_equals names rest result) made h in
      paths_for-get_not_null_constraints names name rest pushed made next
      ∙ paths_for-push_named (get_elem? names c.index) c.path name result pushed first
          (paths_on ci_equals names name rest)
