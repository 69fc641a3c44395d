-- ===== src/Columns/Complete.antt =====
-- A schema in id mode resolves by field id once the ids of its lists and maps are derived
-- (src/include/delta_utils.hpp).
use duckdb_delta.Prelude.{
  ℕ, ◌≡◌, refl, ap, ◌∙◌, Bool, true, false, ◌&&◌, Option, Result, ok, ◌>>=◌, ◌>>◌, if_true,
}
use duckdb_delta.Prelude.Bytes.{Text}
use duckdb_delta.Kernel.{ℤ}
use duckdb_delta.Types.{LogicalType, boolean, struct, list, map_type}
use duckdb_delta.Columns.{
  Identifier, no_identifier, field_identifier, name_identifier, DeltaColumn, DeltaColumns, column,
  no_columns, columns, column_identifier,
}
use duckdb_delta.Columns.FieldIds.{
  fill_as, fill_fields, fill_first, fill_map, entry_identifier, is_field_id,
  has_field_ids_recursive, all_have_ids_recursive, check_field_ids, resolve_by_field_id, id_mapping,
}

-- An entry of a list or a map has an id or is to be given one.
abbrev IsUnnamed : Identifier → Type 0
IsUnnamed no_identifier = Unit {0}
IsUnnamed (field_identifier id) = Unit {0}
IsUnnamed (name_identifier name) = ⊥

-- Below a column, every field of a struct has an id. A list has its element, a map its key and its
-- value, and what is neither of them nor a struct has no children.
unfoldable mutual
  pub Carries : DeltaColumn → Type 0
  Carries (column n (struct fs) nu p i k w children) = FieldsCarry children
  Carries (column n (list e) nu p i k w (columns el no_columns)) =
      IsUnnamed (column_identifier el) × Carries el
  Carries (column n (map_type kt vt) nu p i k w (columns key (columns value no_columns))) =
      (IsUnnamed (column_identifier key) × Carries key)
      × (IsUnnamed (column_identifier value) × Carries value)
  Carries (column n (list e) nu p i k w children) = ⊥
  Carries (column n (map_type kt vt) nu p i k w children) = ⊥
  Carries (column n type nu p i k w no_columns) = Unit {0}
  Carries (column n type nu p i k w (columns c cs)) = ⊥

  pub FieldsCarry : DeltaColumns → Type 0
  FieldsCarry no_columns = Unit {0}
  FieldsCarry (columns col rest) =
      (is_field_id (column_identifier col) ≡ true) × Carries col × FieldsCarry rest

entry_identifier-field_id :
    (p : ℤ) (position : ℕ) (by : Identifier)
    → IsUnnamed by
    → is_field_id (entry_identifier p position by) ≡ true
entry_identifier-field_id p position no_identifier h = refl
entry_identifier-field_id p position (field_identifier id) h = refl
entry_identifier-field_id p position (name_identifier name) h = absurd h

-- The filled column has ids throughout.
abbrev Fills : Result DeltaColumn → Type 0
Fills r = (c : DeltaColumn) × (r ≡ ok c) × (has_field_ids_recursive c ≡ true)

abbrev FillsAll : Result DeltaColumns → Type 0
FillsAll r = (cs : DeltaColumns) × (r ≡ ok cs) × (all_have_ids_recursive cs ≡ true)

both_true : (p q : Bool) → p ≡ true → q ≡ true → (p && q) ≡ true
both_true true true h k = refl
both_true true false h k = k
both_true false q h k = cc

FillsAll-Fills :
    (n : Text) (t : LogicalType) (nu : Bool) (p : Text) (i : Option ℕ) (by : Identifier) (w : Text)
    (r : Result DeltaColumns)
    → is_field_id by ≡ true
    → FillsAll r
    → Fills (r >>= λ cs. ok (column n t nu p i by w cs))
unfolding has_field_ids_recursive
FillsAll-Fills n t nu p i by w r is_id (cs, e, ids) = (
  column n t nu p i by w cs,
  ap (λ (x : Result DeltaColumns). x >>= λ cs. ok (column n t nu p i by w cs)) e,
  both_true (is_field_id by) (all_have_ids_recursive cs) is_id ids,
)

module _ (to_int32 : Text → Result ℤ) where
  fill_one : (r : Result DeltaColumn) → Fills r → FillsAll (r >>= λ c. ok (columns c no_columns))
  unfolding has_field_ids_recursive
  fill_one r (c, e, ids) = (
    columns c no_columns,
    ap (λ (x : Result DeltaColumn). x >>= λ c. ok (columns c no_columns)) e,
    both_true (has_field_ids_recursive c) true ids refl,
  )

  fill_more :
      (r : Result DeltaColumn) (rs : Result DeltaColumns)
      → Fills r
      → FillsAll rs
      → FillsAll (r >>= λ c. rs >>= λ cs. ok (columns c cs))
  unfolding has_field_ids_recursive
  fill_more r rs (c, e, ids) (cs, es, more) = (
    columns c cs,
    ap (λ (x : Result DeltaColumn). x >>= λ c. rs >>= λ cs. ok (columns c cs)) e
        ∙ ap (λ (x : Result DeltaColumns). x >>= λ cs. ok (columns c cs)) es,
    both_true (has_field_ids_recursive c) (all_have_ids_recursive cs) ids more,
  )

  fill_two :
      (r₁ r₂ : Result DeltaColumn)
      → Fills r₁
      → Fills r₂
      → FillsAll (r₁ >>= λ c. r₂ >>= λ d. ok no_columns >>= λ cs. ok (columns c (columns d cs)))
  unfolding has_field_ids_recursive
  fill_two r₁ r₂ (c, e, ids) (d, f, more) = (
    columns c (columns d no_columns),
    ap
          (λ (x : Result DeltaColumn).
            x >>= λ c. r₂ >>= λ d. ok no_columns >>= λ cs. ok (columns c (columns d cs)))
          e
        ∙ ap
            (λ (x : Result DeltaColumn).
              x >>= λ d. ok no_columns >>= λ cs. ok (columns c (columns d cs)))
            f,
    both_true (has_field_ids_recursive c) (has_field_ids_recursive d && true) ids
        (both_true (has_field_ids_recursive d) true more refl),
  )

  mutual
    unfolding fill_as Carries has_field_ids_recursive

    fill_as-Fills :
        (by : Identifier) (col : DeltaColumn)
        → is_field_id by ≡ true
        → Carries col
        → Fills (fill_as to_int32 by col)
    fill_as-Fills no_identifier col e h = cc
    fill_as-Fills (name_identifier name) col e h = cc
    fill_as-Fills (field_identifier id) (column n (struct fs) nu p i k w children) e h =
        FillsAll-Fills n (struct fs) nu p i (field_identifier id) w (fill_fields to_int32 children)
          e (fill_fields-FillsAll children h)
    fill_as-Fills (field_identifier id) (column n (list t) nu p i k w (columns el no_columns)) e h =
        FillsAll-Fills n (list t) nu p i (field_identifier id) w
          (fill_first to_int32 (ok id) (columns el no_columns)) e
          (fill_one (fill_as to_int32 (entry_identifier id 0 (column_identifier el)) el) (
            fill_as-Fills (entry_identifier id 0 (column_identifier el)) el
              (entry_identifier-field_id id 0 (column_identifier el) h.0) h.1))
    fill_as-Fills (field_identifier id)
          (column n (map_type kt vt) nu p i k w (columns key (columns value no_columns))) e h =
        FillsAll-Fills n (map_type kt vt) nu p i (field_identifier id) w
          (fill_map to_int32 id (columns key (columns value no_columns))) e
          (fill_two (fill_as to_int32 (entry_identifier id 0 (column_identifier key)) key)
            (fill_as to_int32 (entry_identifier id 1 (column_identifier value)) value)
            (fill_as-Fills (entry_identifier id 0 (column_identifier key)) key
              (entry_identifier-field_id id 0 (column_identifier key) h.0.0) h.0.1)
            (fill_as-Fills (entry_identifier id 1 (column_identifier value)) value
              (entry_identifier-field_id id 1 (column_identifier value) h.1.0) h.1.1))
    fill_as-Fills (field_identifier id) (column n (list t) nu p i k w no_columns) e h = absurd h
    fill_as-Fills (field_identifier id) (column n (list t) nu p i k w (columns a (columns b rest)))
          e h =
        absurd h
    fill_as-Fills (field_identifier id) (column n (map_type kt vt) nu p i k w no_columns) e h =
        absurd h
    fill_as-Fills (field_identifier id)
          (column n (map_type kt vt) nu p i k w (columns a no_columns)) e h =
        absurd h
    fill_as-Fills (field_identifier id)
          (column n (map_type kt vt) nu p i k w (columns a (columns b (columns c rest)))) e h =
        absurd h
    fill_as-Fills (field_identifier id) (column n boolean nu p i k w no_columns) e h =
        (column n boolean nu p i (field_identifier id) w no_columns, refl, refl)
    fill_as-Fills (field_identifier id) (column n type nu p i k w no_columns) e h =
        (column n type nu p i (field_identifier id) w no_columns, refl, refl)
    fill_as-Fills (field_identifier id) (column n boolean nu p i k w (columns c rest)) e h =
        absurd h
    fill_as-Fills (field_identifier id) (column n type nu p i k w (columns c rest)) e h = absurd h

    fill_fields-FillsAll :
        (children : DeltaColumns) → FieldsCarry children → FillsAll (fill_fields to_int32 children)
    fill_fields-FillsAll no_columns h = (no_columns, refl, refl)
    fill_fields-FillsAll (columns col rest) h =
        fill_more (fill_as to_int32 (column_identifier col) col) (fill_fields to_int32 rest)
          (fill_as-Fills (column_identifier col) col h.0 h.1) (fill_fields-FillsAll rest h.2)

  check_field_ids-all :
      (schema : DeltaColumns)
      → all_have_ids_recursive schema ≡ true
      → check_field_ids schema ≡ ok tt
  unfolding check_field_ids has_field_ids_recursive
  check_field_ids-all no_columns h = refl
  check_field_ids-all (columns col rest) h =
      let (here, later) = split (has_field_ids_recursive col) (all_have_ids_recursive rest) h in
      if_true (has_field_ids_recursive col) _ _ here ∙ check_field_ids-all rest later
    where
      split : (p q : Bool) → (p && q) ≡ true → (p ≡ true) × (q ≡ true)
      split true true h = (refl, refl)
      split true false h = cc
      split false q h = cc

  -- In id mode, a schema whose columns and struct fields all have ids gets ids for the entries of its
  -- lists and maps, and then resolves by field id: the check of every nested column passes.
  pub resolve_by_field_id-fill_fields :
      (schema : DeltaColumns)
      → FieldsCarry schema
      → (filled : DeltaColumns) × (fill_fields to_int32 schema ≡ ok filled)
        × (resolve_by_field_id id_mapping filled ≡ ok true)
  unfolding resolve_by_field_id
  resolve_by_field_id-fill_fields schema h =
      let (filled, e, ids) = fill_fields-FillsAll schema h in
      (filled, e, ap (λ (r : Result (Unit {0})). r >> ok true) (check_field_ids-all filled ids))
