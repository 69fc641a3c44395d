-- ===== src/Insert/WrittenTypes.antt =====
-- The type that a column is written as, against its logical type (src/storage/delta_insert.cpp).
use duckdb_delta.Prelude.{◌≡◌, refl, ap, sym, ◌∙◌, [], Result, ok}
use duckdb_delta.Types.{
  LogicalType, Fields, boolean, tinyint, smallint, integer, bigint, float, double, varchar, blob,
  date, timestamp, timestamp_tz, variant, decimal, struct, list, array, map_type, other, end, field,
}
use duckdb_delta.Columns.{
  DeltaColumn, DeltaColumns, column, no_columns, columns, column_name, column_type,
}
use duckdb_delta.Insert.Columns.{
  written_name, written_type, written_fields, first_written_type, second_written_type, unnamed_type,
  unnamed_fields,
}

-- The children of a column are those of its type, with the same names, in the same order.
unfoldable mutual
  pub Describes : DeltaColumn → Type 0
  Describes (column n (struct fields) nu p i k w children) = DescribesFields children fields
  Describes (column n (list element) nu p i k w children) = DescribesFirst children element
  Describes (column n (map_type key value) nu p i k w children) =
      DescribesFirst children key × DescribesSecond children value
  Describes (column n type nu p i k w children) = Unit {0}

  pub DescribesFields : DeltaColumns → Fields → Type 0
  DescribesFields no_columns fields = fields ≡ end
  DescribesFields (columns col rest) fields =
      (tail : Fields) × (fields ≡ field (column_name col) (column_type col) tail)
      × Describes col
      × DescribesFields rest tail

  pub DescribesFirst : DeltaColumns → LogicalType → Type 0
  DescribesFirst no_columns t = ⊥
  DescribesFirst (columns col rest) t = (column_type col ≡ t) × Describes col

  pub DescribesSecond : DeltaColumns → LogicalType → Type 0
  DescribesSecond no_columns t = ⊥
  DescribesSecond (columns col rest) t = DescribesFirst rest t

-- A written type that differs from the logical one by names only.
abbrev Renames : Result LogicalType → LogicalType → Type 0
Renames r t = (w : LogicalType) × (r ≡ ok w) × (unnamed_type w ≡ unnamed_type t)

abbrev RenamesFields : Result Fields → Fields → Type 0
RenamesFields r fs = (w : Fields) × (r ≡ ok w) × (unnamed_fields w ≡ unnamed_fields fs)

mutual
  unfolding Describes written_type unnamed_type

  written_type-Renames :
      (col : DeltaColumn) → Describes col → Renames (written_type col) (column_type col)
  written_type-Renames (column n (struct fields) nu p i k w children) d =
      let (fs, e, same) = written_fields-Renames children fields d in
      (struct fs, rw e refl, ap (λ (x : Fields). struct x) same)
  written_type-Renames (column n (list element) nu p i k w children) d =
      let (t, e, same) = first_written_type-Renames children element d in
      (list t, rw e refl, ap (λ (x : LogicalType). list x) same)
  written_type-Renames (column n (map_type key value) nu p i k w children) d =
      let (k, e, same) = first_written_type-Renames children key d.0 in
      let (v, e', same') = second_written_type-Renames children value d.1 in
      (map_type k v, rw (e, e') refl, λ j. map_type (same j) (same' j))
  written_type-Renames (column n boolean nu p i k w children) d = (boolean, refl, refl)
  written_type-Renames (column n tinyint nu p i k w children) d = (tinyint, refl, refl)
  written_type-Renames (column n smallint nu p i k w children) d = (smallint, refl, refl)
  written_type-Renames (column n integer nu p i k w children) d = (integer, refl, refl)
  written_type-Renames (column n bigint nu p i k w children) d = (bigint, refl, refl)
  written_type-Renames (column n float nu p i k w children) d = (float, refl, refl)
  written_type-Renames (column n double nu p i k w children) d = (double, refl, refl)
  written_type-Renames (column n varchar nu p i k w children) d = (varchar, refl, refl)
  written_type-Renames (column n blob nu p i k w children) d = (blob, refl, refl)
  written_type-Renames (column n date nu p i k w children) d = (date, refl, refl)
  written_type-Renames (column n timestamp nu p i k w children) d = (timestamp, refl, refl)
  written_type-Renames (column n timestamp_tz nu p i k w children) d = (timestamp_tz, refl, refl)
  written_type-Renames (column n variant nu p i k w children) d = (variant, refl, refl)
  written_type-Renames (column n (decimal a b) nu p i k w children) d = (decimal a b, refl, refl)
  written_type-Renames (column n (array e l) nu p i k w children) d = (array e l, refl, refl)
  written_type-Renames (column n (other a) nu p i k w children) d = (other a, refl, refl)

  written_fields-Renames :
      (cols : DeltaColumns) (fields : Fields)
      → DescribesFields cols fields
      → RenamesFields (written_fields cols) fields
  written_fields-Renames no_columns fields d = (end, refl, ap unnamed_fields (sym d))
  written_fields-Renames (columns col rest) fields d =
      let (tail, shape, here, below) = d in
      let (t, e, same) = written_type-Renames col here in
      let (fs, e', same') = written_fields-Renames rest tail below in
      (
        field (written_name col) t fs,
        rw (e, e') refl,
        (λ j. field [] (same j) (same' j)) ∙ ap unnamed_fields (sym shape),
      )

  first_written_type-Renames :
      (cols : DeltaColumns) (t : LogicalType)
      → DescribesFirst cols t
      → Renames (first_written_type cols) t
  first_written_type-Renames no_columns t d = absurd d
  first_written_type-Renames (columns col rest) t d =
      let (w, e, same) = written_type-Renames col d.1 in (w, e, same ∙ ap unnamed_type d.0)

  second_written_type-Renames :
      (cols : DeltaColumns) (t : LogicalType)
      → DescribesSecond cols t
      → Renames (second_written_type cols) t
  second_written_type-Renames no_columns t d = absurd d
  second_written_type-Renames (columns col rest) t d = first_written_type-Renames rest t d

-- A column whose children are those of its type has a type to be written as, at any depth, and that
-- type becomes the logical one when both lose their names: the cast by position between the two is
-- one of equal shapes.
pub written_type-unnamed_type :
    (col : DeltaColumn)
    → Describes col
    → (w : LogicalType) × (written_type col ≡ ok w)
      × (unnamed_type w ≡ unnamed_type (column_type col))
written_type-unnamed_type col d = written_type-Renames col d
