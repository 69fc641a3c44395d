-- ===== src/Columns/Derived.antt =====
-- The field ids that the schema derives for the entries of lists and maps, against those that a
-- file's columns get (src/include/delta_utils.hpp).
use duckdb_delta.Prelude.{
  ℕ, suc, ◌≡◌, refl, ap, ◌∙◌, Bool, false, Option, none, [], Result, ok, err, ◌>>=◌,
}
use duckdb_delta.Prelude.Bytes.{Text, bytes}
use duckdb_delta.Kernel.{ℤ}
use duckdb_delta.Types.{LogicalType, boolean, struct, list, map_type, end}
use duckdb_delta.Columns.{
  Identifier, no_identifier, field_identifier, name_identifier, DeltaColumn, DeltaColumns, column,
  no_columns, columns, column_identifier,
}
use duckdb_delta.Columns.FieldIds.{
  fill_as, fill_fields, fill_first, fill_entries, fill_map, fill_container_child_ids,
  entry_identifier,
}

-- The struct that the parquet reader puts between a map and its entries.
abbrev key_value : DeltaColumns → DeltaColumns
key_value entries =
    columns (column (bytes "key_value") (struct end) false [] none no_identifier [] entries)
      no_columns

-- A schema's column as the parquet reader shows it.
unfoldable mutual
  pub file_column : DeltaColumn → DeltaColumn
  file_column (column name (map_type k v) nullable physical_name id by varchar_type children) =
      column name (map_type k v) nullable physical_name id by varchar_type
        (key_value (file_columns children))
  file_column (column name type nullable physical_name id by varchar_type children) =
      column name type nullable physical_name id by varchar_type (file_columns children)

  pub file_columns : DeltaColumns → DeltaColumns
  file_columns no_columns = no_columns
  file_columns (columns col rest) = columns (file_column col) (file_columns rest)

-- A list has its element, and a map its key and its value.
unfoldable mutual
  pub IsShaped : DeltaColumn → Type 0
  IsShaped (column n (list e) nu p i k w no_columns) = ⊥
  IsShaped (column n (list e) nu p i k w (columns element rest)) = AreShaped (columns element rest)
  IsShaped (column n (map_type kt vt) nu p i k w no_columns) = ⊥
  IsShaped (column n (map_type kt vt) nu p i k w (columns key no_columns)) = ⊥
  IsShaped (column n (map_type kt vt) nu p i k w (columns key (columns value rest))) =
      IsShaped key × AreShaped (columns value rest)
  IsShaped (column n type nu p i k w children) = AreShaped children

  pub AreShaped : DeltaColumns → Type 0
  AreShaped no_columns = Unit {0}
  AreShaped (columns col rest) = IsShaped col × AreShaped rest

identifier-file_column :
    (col : DeltaColumn) → column_identifier (file_column col) ≡ column_identifier col
unfolding file_column
identifier-file_column (column n (map_type kt vt) nu p i k w c) = refl
identifier-file_column (column n boolean nu p i k w c) = refl
identifier-file_column (column n type nu p i k w c) = refl

-- A run of a column, seen as the file's.
abbrev as_file : Result DeltaColumn → Result DeltaColumn
as_file r = r >>= λ c. ok (file_column c)

abbrev all_as_file : Result DeltaColumns → Result DeltaColumns
all_as_file r = r >>= λ cs. ok (file_columns cs)

regroup :
    (r : Result DeltaColumns) (f g : DeltaColumns → DeltaColumn)
    → ((cs : DeltaColumns) → f (file_columns cs) ≡ file_column (g cs))
    → (all_as_file r >>= λ cs. ok (f cs)) ≡ as_file (r >>= λ cs. ok (g cs))
regroup (ok cs) f g h = ap (λ (c : DeltaColumn). ok c) (h cs)
regroup (err e) f g h = refl

regroup_first :
    (r : Result DeltaColumn) (rest : DeltaColumns)
    → (as_file r >>= λ c. ok (columns c (file_columns rest)))
      ≡ all_as_file (r >>= λ c. ok (columns c rest))
unfolding file_column
regroup_first (ok c) rest = refl
regroup_first (err e) rest = refl

regroup_both :
    (r : Result DeltaColumn) (rs : Result DeltaColumns)
    → (as_file r >>= λ c. all_as_file rs >>= λ cs. ok (columns c cs))
      ≡ all_as_file (r >>= λ c. rs >>= λ cs. ok (columns c cs))
unfolding file_column
regroup_both (ok c) (ok cs) = refl
regroup_both (ok c) (err e) = refl
regroup_both (err e) rs = refl

flatten_pair :
    (r₁ r₂ : Result DeltaColumn) (rs : Result DeltaColumns)
    → (r₁ >>= λ c. (r₂ >>= λ d. rs >>= λ cs. ok (columns d cs)) >>= λ ds. ok (columns c ds))
      ≡ (r₁ >>= λ c. r₂ >>= λ d. rs >>= λ cs. ok (columns c (columns d cs)))
flatten_pair (ok c) (ok d) (ok cs) = refl
flatten_pair (ok c) (ok d) (err e) = refl
flatten_pair (ok c) (err e) rs = refl
flatten_pair (err e) r₂ rs = refl

module _ (to_int32 : Text → Result ℤ) where
  fill_map-entries :
      (p : ℤ) (key value : DeltaColumn) (rest : DeltaColumns)
      → fill_entries to_int32 p 0 (columns key (columns value rest))
        ≡ fill_map to_int32 p (columns key (columns value rest))
  unfolding fill_as
  fill_map-entries p key value rest =
      flatten_pair (fill_as to_int32 (entry_identifier p 0 (column_identifier key)) key)
        (fill_as to_int32 (entry_identifier p 1 (column_identifier value)) value)
        (fill_entries to_int32 p 2 rest)

  -- The entries below the file's extra struct against those of the schema's map.
  fill_map-file :
      (n : Text) (kt vt : LogicalType) (nu : Bool) (p : Text) (i : Option ℕ) (by : Identifier)
      (w : Text) (parent : Result ℤ) (key value : DeltaColumn) (rest : DeltaColumns)
      → ((id : ℤ)
          → fill_entries to_int32 id 0 (file_columns (columns key (columns value rest)))
            ≡ all_as_file (fill_entries to_int32 id 0 (columns key (columns value rest))))
      → (parent >>= λ id.
          fill_map to_int32 id (key_value (file_columns (columns key (columns value rest))))
          >>= λ cs. ok (column n (map_type kt vt) nu p i by w cs))
        ≡ as_file (
            parent >>= λ id. fill_map to_int32 id (columns key (columns value rest)) >>= λ cs.
            ok (column n (map_type kt vt) nu p i by w cs))
  unfolding fill_as file_column
  fill_map-file n kt vt nu p i by w (err e) key value rest h = refl
  fill_map-file n kt vt nu p i by w (ok id) key value rest h =
      ap
        (λ (r : Result DeltaColumns).
          (r >>= λ es. ok (key_value es)) >>= λ cs. ok (column n (map_type kt vt) nu p i by w cs))
        (h id)
      ∙ wrapped (fill_entries to_int32 id 0 (columns key (columns value rest)))
      ∙ ap
          (λ (r : Result DeltaColumns).
            as_file (r >>= λ cs. ok (column n (map_type kt vt) nu p i by w cs)))
          (fill_map-entries id key value rest)
    where
      wrapped :
          (r : Result DeltaColumns)
          → ((all_as_file r >>= λ es. ok (key_value es)) >>= λ cs.
              ok (column n (map_type kt vt) nu p i by w cs))
            ≡ as_file (r >>= λ cs. ok (column n (map_type kt vt) nu p i by w cs))
      wrapped (ok cs) = refl
      wrapped (err e) = refl

  mutual
    unfolding fill_as file_column IsShaped

    fill_as-file :
        (by : Identifier) (col : DeltaColumn)
        → IsShaped col
        → fill_as to_int32 by (file_column col) ≡ as_file (fill_as to_int32 by col)
    fill_as-file by (column n (struct fs) nu p i k w children) h =
        ap (λ r. r >>= λ cs. ok (column n (struct fs) nu p i by w cs)) (fill_fields-file children h)
        ∙ regroup (fill_fields to_int32 children) (column n (struct fs) nu p i by w)
            (column n (struct fs) nu p i by w) (λ cs. refl)
    fill_as-file by (column n (list e) nu p i k w no_columns) h = absurd h
    fill_as-file by (column n (map_type kt vt) nu p i k w no_columns) h = absurd h
    fill_as-file by (column n (map_type kt vt) nu p i k w (columns key no_columns)) h = absurd h
    fill_as-file no_identifier (column n (list e) nu p i k w (columns el rest)) h = refl
    fill_as-file (field_identifier id) (column n (list e) nu p i k w (columns el rest)) h =
        ap (λ r. r >>= λ cs. ok (column n (list e) nu p i (field_identifier id) w cs))
          (fill_first-file (ok id) (columns el rest) h)
        ∙ regroup (fill_first to_int32 (ok id) (columns el rest))
            (column n (list e) nu p i (field_identifier id) w)
            (column n (list e) nu p i (field_identifier id) w) (λ cs. refl)
    fill_as-file (name_identifier t) (column n (list e) nu p i k w (columns el rest)) h =
        ap (λ r. r >>= λ cs. ok (column n (list e) nu p i (name_identifier t) w cs))
          (fill_first-file (to_int32 t) (columns el rest) h)
        ∙ regroup (fill_first to_int32 (to_int32 t) (columns el rest))
            (column n (list e) nu p i (name_identifier t) w)
            (column n (list e) nu p i (name_identifier t) w) (λ cs. refl)
    fill_as-file no_identifier
          (column n (map_type kt vt) nu p i k w (columns key (columns value rest))) h =
        refl
    fill_as-file (field_identifier id)
          (column n (map_type kt vt) nu p i k w (columns key (columns value rest))) h =
        fill_map-file n kt vt nu p i (field_identifier id) w (ok id) key value rest
          (λ parent. fill_entries-file parent 0 (columns key (columns value rest)) h)
    fill_as-file (name_identifier t)
          (column n (map_type kt vt) nu p i k w (columns key (columns value rest))) h =
        fill_map-file n kt vt nu p i (name_identifier t) w (to_int32 t) key value rest
          (λ parent. fill_entries-file parent 0 (columns key (columns value rest)) h)
    fill_as-file by (column n boolean nu p i k w children) h = refl
    fill_as-file by (column n type nu p i k w children) h = refl

    fill_fields-file :
        (children : DeltaColumns)
        → AreShaped children
        → fill_fields to_int32 (file_columns children) ≡ all_as_file (fill_fields to_int32 children)
    fill_fields-file no_columns h = refl
    fill_fields-file (columns col rest) h =
        ap
          (λ (by : Identifier). fill_as to_int32 by (file_column col) >>= λ c.
            fill_fields to_int32 (file_columns rest) >>= λ cs. ok (columns c cs))
          (identifier-file_column col)
        ∙ ap (λ r. r >>= λ c. fill_fields to_int32 (file_columns rest) >>= λ cs. ok (columns c cs))
            (fill_as-file (column_identifier col) col h.0)
        ∙ ap
            (λ rs. as_file (fill_as to_int32 (column_identifier col) col) >>= λ c.
              rs >>= λ cs. ok (columns c cs))
            (fill_fields-file rest h.1)
        ∙ regroup_both (fill_as to_int32 (column_identifier col) col) (fill_fields to_int32 rest)

    fill_first-file :
        (parent : Result ℤ) (children : DeltaColumns)
        → AreShaped children
        → fill_first to_int32 parent (file_columns children)
          ≡ all_as_file (fill_first to_int32 parent children)
    fill_first-file parent no_columns h = refl
    fill_first-file (err e) (columns col rest) h = refl
    fill_first-file (ok p) (columns col rest) h =
        ap
          (λ (by : Identifier).
            fill_as to_int32 (entry_identifier p 0 by) (file_column col) >>= λ c.
            ok (columns c (file_columns rest)))
          (identifier-file_column col)
        ∙ ap (λ r. r >>= λ c. ok (columns c (file_columns rest)))
            (fill_as-file (entry_identifier p 0 (column_identifier col)) col h.0)
        ∙ regroup_first (fill_as to_int32 (entry_identifier p 0 (column_identifier col)) col) rest

    fill_entries-file :
        (p : ℤ) (position : ℕ) (entries : DeltaColumns)
        → AreShaped entries
        → fill_entries to_int32 p position (file_columns entries)
          ≡ all_as_file (fill_entries to_int32 p position entries)
    fill_entries-file p position no_columns h = refl
    fill_entries-file p position (columns col rest) h =
        let by = entry_identifier p position (column_identifier col) in
        ap
          (λ (k : Identifier).
            fill_as to_int32 (entry_identifier p position k) (file_column col) >>= λ c.
            fill_entries to_int32 p (suc position) (file_columns rest) >>= λ cs. ok (columns c cs))
          (identifier-file_column col)
        ∙ ap
            (λ r. r >>= λ c. fill_entries to_int32 p (suc position) (file_columns rest) >>= λ cs.
              ok (columns c cs))
            (fill_as-file by col h.0)
        ∙ ap (λ rs. as_file (fill_as to_int32 by col) >>= λ c. rs >>= λ cs. ok (columns c cs))
            (fill_entries-file p (suc position) rest h.1)
        ∙ regroup_both (fill_as to_int32 by col) (fill_entries to_int32 p (suc position) rest)

  -- A schema's column, and the file's column that it stands for, with the struct that the parquet
  -- reader puts between a map and its entries, get the same derived ids: filling the file's column
  -- gives the file's form of the filled column, and fails where that does. A list has its element and
  -- a map its key and value.
  pub fill_container_child_ids-file_column :
      (col : DeltaColumn)
      → IsShaped col
      → fill_container_child_ids to_int32 (file_column col)
        ≡ (fill_container_child_ids to_int32 col >>= λ c. ok (file_column c))
  unfolding fill_container_child_ids
  fill_container_child_ids-file_column col h =
      ap (λ (by : Identifier). fill_as to_int32 by (file_column col)) (identifier-file_column col)
      ∙ fill_as-file (column_identifier col) col h
