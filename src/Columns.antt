-- ===== src/Columns.antt =====
-- A column of a Delta schema as the kernel's schema is read, `DeltaMultiFileColumnDefinition`
-- (src/include/delta_utils.hpp). Its default expression, a NULL of its type, is left out.
pub mod FieldIds
pub mod Derived
pub mod Complete
use duckdb_delta.Prelude.{ℕ, Bool, Option}
use duckdb_delta.Prelude.Bytes.{Text}
use duckdb_delta.Kernel.{ℤ}
use duckdb_delta.Types.{LogicalType}

-- The value that a reader resolves a column by: nothing, an INTEGER field id, or a VARCHAR.
pub data Identifier : Type 0 where
  no_identifier : Identifier
  field_identifier : ℤ → Identifier
  name_identifier : Text → Identifier

-- The fields in order: the name, the type, whether it is nullable, the physical name, the field id,
-- the identifier, the annotation of CHAR and VARCHAR, and the children.
mutual
  pub data DeltaColumn : Type 0 where
    column :
        Text → LogicalType → Bool → Text → Option ℕ → Identifier → Text → DeltaColumns → DeltaColumn

  pub data DeltaColumns : Type 0 where
    no_columns : DeltaColumns
    columns : DeltaColumn → DeltaColumns → DeltaColumns

abbrev pub column_name : DeltaColumn → Text
column_name (column name type nullable physical_name field_id resolved_by varchar_type children) =
    name

abbrev pub column_type : DeltaColumn → LogicalType
column_type (column name type nullable physical_name field_id resolved_by varchar_type children) =
    type

abbrev pub column_physical_name : DeltaColumn → Text
column_physical_name
      (column name type nullable physical_name field_id resolved_by varchar_type children) =
    physical_name

abbrev pub column_identifier : DeltaColumn → Identifier
column_identifier
      (column name type nullable physical_name field_id resolved_by varchar_type children) =
    resolved_by

abbrev pub column_children : DeltaColumn → DeltaColumns
column_children
      (column name type nullable physical_name field_id resolved_by varchar_type children) =
    children
