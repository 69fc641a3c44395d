-- ===== src/Insert/Fits.antt =====
-- No text that is longer than its column's declared width is written
-- (src/storage/delta_insert.cpp).
use duckdb_delta.Prelude.{
  ℕ, suc, ◌≤◌, ◌≡◌, refl, ap, sym, ◌∙◌, inl, inr, Bool, true, false, not, ◌&&◌, ◌||◌, Option, none,
  some, List, [], ◌∷◌, is_empty, get_elem?, ltb, ◌==◌, Result, ok, >>=-ok, >>-ok, ◌>>=◌, Bool-cases,
  arith, ok-injective, if◌then◌else◌, if_true, if_false, subst,
}
use duckdb_delta.Prelude.Bytes.{Text}
use duckdb_delta.Types.{LogicalType}
use duckdb_delta.Columns.{Identifier, DeltaColumn, DeltaColumns, column, no_columns, columns}
use duckdb_delta.FileList.Widths.{
  DeltaStringWidthBound, is_varchar, has_nested_char_varchar_type, parse_char_varchar_width,
  bound_of, extract_string_width_bounds,
}
use duckdb_delta.Insert.Widths.{
  WidthCheck, plan_bound, plan_bounds, plan_insert_projection, check_value, check_row,
}

module _ (lower : Text → Text) (to_idx : Text → Option ℕ) (length_of : Text → ℕ) where
  -- A width is declared on the column or inside it.
  abbrev pub declares : Text → DeltaColumns → Bool
  declares varchar_type children =
      not (is_empty varchar_type) || has_nested_char_varchar_type children

  -- The width is the column's own, on a text, and the row's text is no longer.
  abbrev pub Fits : DeltaColumn → Option (Option Text) → Type 0
  Fits (column n type nu p i k varchar_type children) cell =
      declares varchar_type children ≡ true
      → (has_nested_char_varchar_type children ≡ false)
        × (is_varchar type ≡ true)
        × ((width : ℕ) × (parse_char_varchar_width lower to_idx varchar_type ≡ ok (some width))
            × ((value : Text) → cell ≡ some (some value) → length_of value ≤ width))

  abbrev pub RowFits : ℕ → DeltaColumns → List (Option Text) → Type 0
  RowFits col_id no_columns row = Unit {0}
  RowFits col_id (columns col rest) row =
      Fits col (get_elem? row col_id) × RowFits (suc col_id) rest row

  check_value-le :
      (max_length : ℕ) (cell : Option (Option Text))
      → check_value length_of max_length cell ≡ ok tt
      → (value : Text) → cell ≡ some (some value)
      → length_of value ≤ max_length
  unfolding check_value
  check_value-le max_length none h value e = cc
  check_value-le max_length (some none) h value e = cc
  check_value-le max_length (some (some v)) h value e =
      elim (Bool-cases (ltb max_length (length_of v))) [
        | inl longer ↦ cc (rw longer at h)
        | inr fits ↦
            let shorter : length_of v ≤ max_length = ground arith in
            subst (λ (t : Text). length_of t ≤ max_length) (inner v value e) shorter
      ]
    where
      inner :
          (v value : Text)
          → ◌≡◌ {A = Option (Option Text)} (some (some v)) (some (some value))
          → v ≡ value
      inner v value e = cc

  -- A bound that is planned: it is the column's own.
  plan_bound-own :
      (column_count col_id : ℕ) (varchar_type : Text) (type : LogicalType) (nested : Bool)
      (bound : DeltaStringWidthBound) (check : WidthCheck)
      → bound_of lower to_idx col_id varchar_type type nested ≡ ok bound
      → plan_bound column_count bound bound.max_length ≡ ok check
      → (nested ≡ false)
        × (is_varchar type ≡ true)
        × ((w : ℕ) × (parse_char_varchar_width lower to_idx varchar_type ≡ ok (some w))
            × (check.max_length ≡ w)
            × (check.column_index ≡ col_id))
  plan_bound-own column_count col_id varchar_type type nested bound check b h =
      let (max_length, read, made) =
        >>=-ok
          (if not nested && is_varchar type
            then parse_char_varchar_width lower to_idx varchar_type
            else ok none)
          (λ max_length. ok (record {
            column_index = col_id;
            declared_type = varchar_type;
            max_length = max_length;
          }))
          bound b in
      own nested (is_varchar type) (parse_char_varchar_width lower to_idx varchar_type) max_length
        read
        (subst (λ (x : DeltaStringWidthBound). plan_bound column_count x x.max_length ≡ ok check)
          (sym (ok-injective made)) h)
    where
      own :
          (nested text : Bool) (width : Result (Option ℕ)) (max_length : Option ℕ)
          → (if not nested && text then width else ok none) ≡ ok max_length
          → plan_bound column_count
              (record {
                column_index = col_id;
                declared_type = varchar_type;
                max_length = max_length;
              })
              max_length
            ≡ ok check
          → (nested ≡ false)
            × (text ≡ true)
            × ((w : ℕ) × (width ≡ ok (some w))
                × (check.max_length ≡ w)
                × (check.column_index ≡ col_id))
      own nested text width none r p = cc
      own true text width (some w) r p = cc
      own false false width (some w) r p = cc
      own false true width (some w) r p = (
        refl,
        refl,
        (
          w,
          r,
          sym (ap (λ (c : WidthCheck). c.max_length) (ok-injective p)),
          sym (ap (λ (c : WidthCheck). c.column_index) (ok-injective p)),
        ),
      )

  -- A declared bound that is planned and passed.
  Fits-bound :
      (column_count col_id : ℕ) (n : Text) (type : LogicalType) (nu : Bool) (p : Text)
      (i : Option ℕ) (k : Identifier) (varchar_type : Text) (children : DeltaColumns)
      (bound : DeltaStringWidthBound) (check : WidthCheck) (row : List (Option Text))
      → bound_of lower to_idx col_id varchar_type type (has_nested_char_varchar_type children)
        ≡ ok bound
      → plan_bound column_count bound bound.max_length ≡ ok check
      → check_value length_of check.max_length (get_elem? row check.column_index) ≡ ok tt
      → Fits (column n type nu p i k varchar_type children) (get_elem? row col_id)
  Fits-bound column_count col_id n type nu p i k varchar_type children bound check row b e c
        declared =
      let (not_nested, text, (w, parsed, at_most, at)) =
        plan_bound-own column_count col_id varchar_type type (has_nested_char_varchar_type children)
          bound check b e in
      (
        not_nested,
        text,
        (
          w,
          parsed,
          λ value there.
              subst (λ (m : ℕ). length_of value ≤ m) at_most
                (check_value-le check.max_length (get_elem? row check.column_index) c value
                  (ap (λ (j : ℕ). get_elem? row j) at ∙ there)),
        ),
      )

  -- A list of bounds that is planned: its first, then the rest.
  plan_bounds-step :
      (column_count : ℕ) (bound : DeltaStringWidthBound) (rest : List DeltaStringWidthBound)
      (checks : List WidthCheck)
      → plan_bounds column_count (bound ∷ rest) ≡ ok checks
      → (check : WidthCheck) × (later : List WidthCheck) × (plan_bound column_count bound
            bound.max_length
          ≡ ok check)
        × (plan_bounds column_count rest ≡ ok later)
        × (checks ≡ check ∷ later)
  unfolding plan_bounds
  plan_bounds-step column_count bound rest checks h =
      elim (Bool-cases (ltb bound.column_index column_count)) [
        | inl inside ↦
            let (check, planned, next) =
              >>=-ok (plan_bound column_count bound bound.max_length)
                (λ check. plan_bounds column_count rest >>= λ checks. ok (check ∷ checks)) checks
                (sym (if_true (ltb bound.column_index column_count) _ _ inside) ∙ h) in
            let (later, planned_rest, both) =
              >>=-ok (plan_bounds column_count rest) (λ checks. ok (check ∷ checks)) checks next in
            (check, later, planned, planned_rest, sym (ok-injective both))
        | inr outside ↦ cc (sym (if_false (ltb bound.column_index column_count) _ _ outside) ∙ h)
      ]

  undeclared-absurd {ℓ} :
      {P : Type ℓ} (unnamed nested : Bool)
      → (unnamed && not nested) ≡ true
      → (not unnamed || nested) ≡ true
      → P
  undeclared-absurd true true h d = cc
  undeclared-absurd true false h d = cc
  undeclared-absurd false nested h d = cc

  plan_bounds-RowFits :
      (cols : DeltaColumns) (column_count col_id : ℕ) (bounds : List DeltaStringWidthBound)
      (checks : List WidthCheck) (row : List (Option Text))
      → extract_string_width_bounds lower to_idx col_id cols ≡ ok bounds
      → plan_bounds column_count bounds ≡ ok checks
      → check_row length_of checks row ≡ ok tt
      → RowFits col_id cols row
  unfolding extract_string_width_bounds check_row
  plan_bounds-RowFits no_columns column_count col_id bounds checks row x h c = tt
  plan_bounds-RowFits (columns (column n type nu p i k varchar_type children) rest) column_count
        col_id bounds checks row x h c =
      let nested = has_nested_char_varchar_type children in
      let later = extract_string_width_bounds lower to_idx (suc col_id) rest in
      elim (Bool-cases (is_empty varchar_type && not nested)) [
        | inl undeclared ↦ (
          undeclared-absurd (is_empty varchar_type) nested undeclared,
          plan_bounds-RowFits rest column_count (suc col_id) bounds checks row
              (sym (if_true _ later _ undeclared) ∙ x) h c,
        )
        | inr declared ↦
            let (bound, made, next) =
              >>=-ok (bound_of lower to_idx col_id varchar_type type nested)
                (λ bound. later >>= λ bounds. ok (bound ∷ bounds)) bounds
                (sym (if_false _ later _ declared) ∙ x) in
            let (bounds', extracted, all) =
              >>=-ok later (λ bounds. ok (bound ∷ bounds)) bounds next in
            let (check, checks', planned, planned_rest, both) =
              plan_bounds-step column_count bound bounds' checks
                (ap (plan_bounds column_count) (ok-injective all) ∙ h) in
            let (first, others) =
              >>-ok (check_value length_of check.max_length (get_elem? row check.column_index))
                (check_row length_of checks' row) tt
                (subst (λ (cs : List WidthCheck). check_row length_of cs row ≡ ok tt) both c) in
            (
              Fits-bound column_count col_id n type nu p i k varchar_type children bound check row
                  made planned first,
              plan_bounds-RowFits rest column_count (suc col_id) bounds' checks' row extracted
                  planned_rest others,
            )
      ]

  -- Without bounds the table's width is not asked for, and there is nothing to check.
  plan_insert_projection-bounds :
      (type_count column_count : ℕ) (types_match : Bool) (bounds : List DeltaStringWidthBound)
      (checks : List WidthCheck)
      → plan_insert_projection type_count column_count types_match bounds ≡ ok checks
      → plan_bounds column_count bounds ≡ ok checks
  unfolding plan_insert_projection plan_bounds
  plan_insert_projection-bounds type_count column_count true [] checks h = h
  plan_insert_projection-bounds type_count column_count false [] checks h =
      elim (Bool-cases (type_count == column_count)) [
        | inl same ↦ sym (if_true _ _ _ same) ∙ h
        | inr differ ↦ cc (sym (if_false _ _ _ differ) ∙ h)
      ]
  plan_insert_projection-bounds type_count column_count types_match (bound ∷ bounds) checks h =
      elim (Bool-cases (type_count == column_count)) [
        | inl same ↦ sym (if_true _ _ _ same) ∙ h
        | inr differ ↦ cc (sym (if_false _ _ _ differ) ∙ h)
      ]

  -- If the widths of a schema can be read, the projection of an insert is planned with them, and a
  -- row passes the planned checks, then every column that declares a width, on itself or inside, is
  -- a text that declares it on itself alone, the declaration reads as a number of characters, and
  -- the row's text in that column is no longer.
  pub plan_insert_projection-RowFits :
      (cols : DeltaColumns) (type_count column_count : ℕ) (types_match : Bool)
      (bounds : List DeltaStringWidthBound) (checks : List WidthCheck) (row : List (Option Text))
      → extract_string_width_bounds lower to_idx 0 cols ≡ ok bounds
      → plan_insert_projection type_count column_count types_match bounds ≡ ok checks
      → check_row length_of checks row ≡ ok tt
      → RowFits 0 cols row
  plan_insert_projection-RowFits cols type_count column_count types_match bounds checks row x h =
      plan_bounds-RowFits cols column_count 0 bounds checks row x
        (plan_insert_projection-bounds type_count column_count types_match bounds checks h)
