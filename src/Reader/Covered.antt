-- ===== src/Reader/Covered.antt =====
-- A file without field ids is matched by name as a whole
-- (src/functions/delta_scan/delta_multi_file_reader.cpp).
use duckdb_delta.Prelude.{
  ◌≡◌, ◌≢◌, refl, inl, inr, Bool, true, false, ◌&&◌, ◌||◌, [], ◌∷◌, Result, ok, ◌>>◌, >>=-ok,
  Bool-cases, subst, ok-injective,
}
use duckdb_delta.Prelude.Bytes.{Text}
use duckdb_delta.Kernel.{ℤ}
use duckdb_delta.Columns.{
  no_identifier, field_identifier, name_identifier, DeltaColumn, DeltaColumns, column, no_columns,
  columns, column_name, column_identifier,
}
use duckdb_delta.Columns.FieldIds.{fill_fields}
use duckdb_delta.Reader.Matching.{
  all_have_field_ids, use_name_identifiers, use_names_below, read_column_mapping_policy, strict,
  lenient, Matched, by_field_id, by_name, names_hold, covered_by_names, match_by_names,
  refuse_strict, resolve_file_without_field_ids, match_file, DeltaColumnMappingPolicy, matched_name,
}

module _ (ci_equals : Text → Text → Bool) (to_int32 : Text → Result ℤ) where
  -- The name that a name mapper looks a column up by.
  abbrev pub reader_name : DeltaColumn → Text
  reader_name col = elim (column_identifier col) [
    | no_identifier ↦ column_name col
    | field_identifier id ↦ column_name col
    | name_identifier name ↦ name
  ]

  abbrev pub is_read : Text → DeltaColumns → Bool
  is_read name no_columns = false
  is_read name (columns col rest) = ci_equals name (reader_name col) || is_read name rest

  -- Every column of the file is looked up by one of these.
  abbrev pub AllRead : DeltaColumns → DeltaColumns → Type 0
  AllRead cols no_columns = Unit {0}
  AllRead cols (columns col rest) = (is_read (column_name col) cols ≡ true) × AllRead cols rest

  abbrev pub AllNamed : DeltaColumns → Type 0
  AllNamed no_columns = Unit {0}
  AllNamed (columns col rest) = (column_name col ≢ []) × AllNamed rest

  and_true : (p q : Bool) → (p && q) ≡ true → (p ≡ true) × (q ≡ true)
  and_true true true h = (refl, refl)
  and_true true false h = cc
  and_true false q h = cc

  or_both :
      (p q p' q' : Bool)
      → (p ≡ true → p' ≡ true)
      → (q ≡ true → q' ≡ true)
      → (p || q) ≡ true
      → (p' || q') ≡ true
  or_both true q true q' f g h = refl
  or_both true q false q' f g h = cc (f refl)
  or_both false q true q' f g h = refl
  or_both false q false q' f g h = g h

  -- The reader goes by the very name that the rung matched.
  reader_name-use_name_identifiers :
      (physical : Bool) (name : Text) (col : DeltaColumn)
      → ((t : Text) → ci_equals t [] ≡ true → t ≡ [])
      → name ≢ []
      → ci_equals name (matched_name ci_equals to_int32 physical col) ≡ true
      → ci_equals name (reader_name (use_name_identifiers physical col)) ≡ true
  unfolding use_name_identifiers
  reader_name-use_name_identifiers true name (column n t nu [] i k w c) empty ne h =
      absurd (ne (empty name h))
  reader_name-use_name_identifiers true name (column n t nu (p ∷ ps) i k w c) empty ne h = h
  reader_name-use_name_identifiers false name (column n t nu p i k w c) empty ne h = h

  names_hold-is_read :
      (physical : Bool) (name : Text) (schema : DeltaColumns)
      → ((t : Text) → ci_equals t [] ≡ true → t ≡ [])
      → name ≢ []
      → names_hold ci_equals to_int32 physical name schema ≡ true
      → is_read name (use_names_below physical schema) ≡ true
  unfolding names_hold use_name_identifiers
  names_hold-is_read physical name no_columns empty ne h = h
  names_hold-is_read physical name (columns col rest) empty ne h =
      or_both (ci_equals name (matched_name ci_equals to_int32 physical col))
        (names_hold ci_equals to_int32 physical name rest)
        (ci_equals name (reader_name (use_name_identifiers physical col)))
        (is_read name (use_names_below physical rest))
        (reader_name-use_name_identifiers physical name col empty ne)
        (names_hold-is_read physical name rest empty ne) h

  covered_by_names-AllRead :
      (physical : Bool) (schema file : DeltaColumns)
      → ((t : Text) → ci_equals t [] ≡ true → t ≡ [])
      → AllNamed file
      → covered_by_names ci_equals to_int32 physical schema file ≡ true
      → AllRead (use_names_below physical schema) file
  unfolding covered_by_names
  covered_by_names-AllRead physical schema no_columns empty named h = tt
  covered_by_names-AllRead physical schema (columns col rest) empty named h =
      let (here, later) =
        and_true (names_hold ci_equals to_int32 physical (column_name col) schema)
          (covered_by_names ci_equals to_int32 physical schema rest) h in
      (
        names_hold-is_read physical (column_name col) schema empty named.0 here,
        covered_by_names-AllRead physical schema rest empty named.1 later,
      )

  match_by_names-AllRead :
      (schema file cols : DeltaColumns)
      → ((t : Text) → ci_equals t [] ≡ true → t ≡ [])
      → AllNamed file
      → match_by_names ci_equals to_int32 schema file ≡ ok cols
      → AllRead cols file
  unfolding match_by_names
  match_by_names-AllRead schema file cols empty named h =
      elim (Bool-cases (covered_by_names ci_equals to_int32 true schema file)) [
        | inl physical ↦
            ok_subst _ cols (rw (physical, match_by_names) at h)
              (covered_by_names-AllRead true schema file empty named physical)
        | inr not_physical ↦
            elim (Bool-cases (covered_by_names ci_equals to_int32 false schema file)) [
              | inl logical ↦
                  ok_subst _ cols (rw (not_physical, logical, match_by_names) at h)
                    (covered_by_names-AllRead false schema file empty named logical)
              | inr neither ↦ cc (rw (not_physical, neither, match_by_names) at h)
            ]
      ]
    where
      ok_subst :
          (a b : DeltaColumns)
          → ◌≡◌ {A = Result DeltaColumns} (ok a) (ok b)
          → AllRead a file
          → AllRead b file
      ok_subst a b e r = subst (λ (c : DeltaColumns). AllRead c file) (ok-injective e) r

  resolve_file-AllRead :
      (lower : Text → Text) (setting : Text) (schema file cols : DeltaColumns)
      → ((t : Text) → ci_equals t [] ≡ true → t ≡ [])
      → AllNamed file
      → resolve_file_without_field_ids ci_equals to_int32 lower setting schema file ≡ ok cols
      → (read_column_mapping_policy lower setting ≡ ok lenient) × AllRead cols file
  unfolding resolve_file_without_field_ids
  resolve_file-AllRead lower setting schema file cols empty named h =
      let (policy, e, h₁) =
        >>=-ok (read_column_mapping_policy lower setting)
          (λ policy.
            refuse_strict ci_equals to_int32 policy
            >> match_by_names ci_equals to_int32 schema file)
          cols h in
      by_policy policy e h₁
    where
      by_policy :
          (policy : DeltaColumnMappingPolicy)
          → read_column_mapping_policy lower setting ≡ ok policy
          → (refuse_strict ci_equals to_int32 policy
              >> match_by_names ci_equals to_int32 schema file)
            ≡ ok cols
          → (read_column_mapping_policy lower setting ≡ ok lenient) × AllRead cols file
      by_policy strict e k = cc
      by_policy lenient e k = (e, match_by_names-AllRead schema file cols empty named k)

  -- What the columns of a file were matched by.
  abbrev pub IsWhole : (Text → Text) → Text → DeltaColumns → Matched → Type 0
  IsWhole lower setting file (by_field_id filled) =
      (all_have_field_ids file ≡ true) × (fill_fields to_int32 file ≡ ok filled)
  IsWhole lower setting file (by_name cols) =
      (read_column_mapping_policy lower setting ≡ ok lenient) × AllRead cols file

  Matched-injective :
      (lower : Text → Text) (setting : Text) (file : DeltaColumns) (m m' : Matched)
      → ◌≡◌ {A = Result Matched} (ok m) (ok m')
      → IsWhole lower setting file m
      → IsWhole lower setting file m'
  Matched-injective lower setting file m m' e w =
      subst (IsWhole lower setting file) (ok-injective e) w

  -- In id mode a file is read by field id only if each of its columns has one, and by name only under
  -- the lenient policy and only if every column of the file is looked up by one of the columns of the
  -- table, never some of them. The columns of the file have names.
  pub match_file-IsWhole :
      (lower : Text → Text) (setting : Text) (schema file : DeltaColumns) (m : Matched)
      → ((t : Text) → ci_equals t [] ≡ true → t ≡ [])
      → AllNamed file
      → match_file ci_equals to_int32 lower setting schema file ≡ ok m
      → IsWhole lower setting file m
  unfolding match_file
  match_file-IsWhole lower setting schema file m empty named h =
      elim (Bool-cases (all_have_field_ids file)) [
        | inl ids ↦
            let (filled, e, last) =
              >>=-ok (fill_fields to_int32 file) (λ filled. ok (by_field_id filled)) m
                (rw (ids, match_file) at h) in
            Matched-injective lower setting file (by_field_id filled) m last (ids, e)
        | inr no_ids ↦
            let (cols, e, last) =
              >>=-ok (resolve_file_without_field_ids ci_equals to_int32 lower setting schema file)
                (λ cols. ok (by_name cols)) m (rw (no_ids, match_file) at h) in
            Matched-injective lower setting file (by_name cols) m last
              (resolve_file-AllRead lower setting schema file cols empty named e)
      ]
