-- ===== src/Insert/WriteSchema.antt =====
-- The names, types and field ids that the copy is given for a column-mapped table: `FieldIdTree`,
-- `ThrowIfFieldIdKeyIsWritten`, `ThrowIfStructFieldsDiffer` and `ApplyColumnMappingToWriteSchema`
-- (src/storage/delta_insert.cpp).
use duckdb_delta.Prelude.{
  ℕ, Bool, true, false, not, ◌&&◌, ◌||◌, Option, none, some, List, [], ◌∷◌, is_empty, ltb, Result,
  ok, err, error, internal, not_implemented, if◌then◌else◌, ◌>>=◌, ◌>>◌,
}
use duckdb_delta.Prelude.Bytes.{Text, bytes, text_eq}
use duckdb_delta.Types.{LogicalType, Fields, struct, list, map_type, end, field}
use duckdb_delta.Columns.{DeltaColumn, DeltaColumns, column, no_columns, columns, column_name}
use duckdb_delta.FileList.Constraints.{is_struct}
use duckdb_delta.Insert.Columns.{written_name, written_type}

-- An entry of the `field_ids` option: an INTEGER, or a STRUCT of named entries.
mutual
  pub data IdTree : Type 0 where
    id_value : ℕ → IdTree
    id_struct : IdTrees → IdTree

  pub data IdTrees : Type 0 where
    no_ids : IdTrees
    ids : Text → IdTree → IdTrees → IdTrees

abbrev pub field_id_key : Text
field_id_key = bytes "__duckdb_field_id"

abbrev pub numeric_cast_int32 : ℕ → Result ℕ
numeric_cast_int32 id =
    if ltb id 2147483648
    then ok id
    else err (
        error internal
          "Information loss on integer cast: value %d outside of target range [%d, %d]")

abbrev pub own_id : Option ℕ → Result (Option ℕ)
own_id none = ok none
own_id (some id) = numeric_cast_int32 id >>= λ n. ok (some n)

abbrev pub tree_of : Option ℕ → IdTrees → Option IdTree
tree_of none no_ids = none
tree_of (some id) no_ids = some (id_value id)
tree_of none (ids name tree rest) = some (id_struct (ids name tree rest))
tree_of (some id) (ids name tree rest) =
    some (id_struct (ids field_id_key (id_value id) (ids name tree rest)))

abbrev pub add_child : Text → Option IdTree → IdTrees → IdTrees
add_child name none rest = rest
add_child name (some tree) rest = ids name tree rest

unfoldable mutual
  unfolding written_name

  pub field_id_tree : DeltaColumn → Result (Option IdTree)
  field_id_tree (column n (struct fields) nu p i k v children) =
      own_id i >>= λ id. struct_ids children >>= λ trees. ok (tree_of id trees)
  field_id_tree (column n (list element) nu p i k v children) =
      own_id i >>= λ id. first_ids (bytes "element") children >>= λ trees. ok (tree_of id trees)
  field_id_tree (column n (map_type key value) nu p i k v children) =
      own_id i >>= λ id. entry_ids children >>= λ trees. ok (tree_of id trees)
  field_id_tree (column n type nu p i k v children) = own_id i >>= λ id. ok (tree_of id no_ids)

  pub struct_ids : DeltaColumns → Result IdTrees
  struct_ids no_columns = ok no_ids
  struct_ids (columns child rest) = field_id_tree child >>= λ tree.
      struct_ids rest >>= λ trees. ok (add_child (written_name child) tree trees)

  pub first_ids : Text → DeltaColumns → Result IdTrees
  first_ids name no_columns =
      err (error internal "Attempted to access index 0 within vector of size 0")
  first_ids name (columns child rest) =
      field_id_tree child >>= λ tree. ok (add_child name tree no_ids)

  pub entry_ids : DeltaColumns → Result IdTrees
  entry_ids no_columns = err (error internal "Attempted to access index 0 within vector of size 0")
  entry_ids (columns key rest) = field_id_tree key >>= λ tree.
      second_ids rest >>= λ trees. ok (add_child (bytes "key") tree trees)

  pub second_ids : DeltaColumns → Result IdTrees
  second_ids no_columns = err (error internal "Attempted to access index 1 within vector of size 1")
  second_ids (columns value rest) =
      field_id_tree value >>= λ tree. ok (add_child (bytes "value") tree no_ids)

abbrev pub differing_fields : Result (Unit {0})
differing_fields = err (
    error internal
      "Delta column \"%s\" has the fields %s in the catalog but not in the scan schema")

unfoldable pub same_fields : Fields → DeltaColumns → Bool
same_fields end no_columns = true
same_fields end (columns child rest) = false
same_fields (field name type fields) no_columns = false
same_fields (field name type fields) (columns child rest) =
    text_eq name (column_name child) && same_fields fields rest

unfoldable mutual
  unfolding same_fields

  pub throw_if_struct_fields_differ : LogicalType → DeltaColumn → Result (Unit {0})
  throw_if_struct_fields_differ (struct fields) (column n type nu p i k v children) =
      let below = throw_if_fields_differ fields children in
      if same_fields fields children then below else differing_fields
  throw_if_struct_fields_differ (list element) (column n type nu p i k v no_columns) =
      err (error internal "Attempted to access index 0 within vector of size 0")
  throw_if_struct_fields_differ (list element) (column n type nu p i k v (columns child rest)) =
      throw_if_struct_fields_differ element child
  throw_if_struct_fields_differ (map_type key value) (column n type nu p i k v no_columns) =
      err (error internal "Attempted to access index 0 within vector of size 0")
  throw_if_struct_fields_differ (map_type key value)
        (column n type nu p i k v (columns first no_columns)) =
      throw_if_struct_fields_differ key first
      >> err (error internal "Attempted to access index 1 within vector of size 1")
  throw_if_struct_fields_differ (map_type key value)
        (column n type nu p i k v (columns first (columns second rest))) =
      throw_if_struct_fields_differ key first >> throw_if_struct_fields_differ value second
  throw_if_struct_fields_differ type col = ok tt

  -- The loop over the fields, which are as many as the children.
  pub throw_if_fields_differ : Fields → DeltaColumns → Result (Unit {0})
  throw_if_fields_differ end children = ok tt
  throw_if_fields_differ (field name type fields) no_columns = ok tt
  throw_if_fields_differ (field name type fields) (columns child rest) =
      throw_if_struct_fields_differ type child >> throw_if_fields_differ fields rest

-- `StringUtil::CIEquals` is a parameter.
module _ (ci_equals : Text → Text → Bool) where
  unfoldable mutual
    unfolding written_name

    pub throw_if_field_id_key_is_written : DeltaColumn → Result (Unit {0})
    throw_if_field_id_key_is_written (column n type nu p i k v children) =
        throw_if_key_below (is_struct type) children

    -- The loop over the children.
    pub throw_if_key_below : Bool → DeltaColumns → Result (Unit {0})
    throw_if_key_below in_struct no_columns = ok tt
    throw_if_key_below in_struct (columns child rest) =
        let later = throw_if_field_id_key_is_written child >> throw_if_key_below in_struct rest in
        if in_struct && ci_equals (written_name child) field_id_key
        then err (
            error not_implemented
              "Delta column \"%s\" has a field written as \"%s\", a name DuckDB's parquet writer reserves for field ids; writing to this table is not supported")
        else later

  abbrev pub is_column_mapped : DeltaColumn → Bool
  is_column_mapped (column n type nu p none k v children) = not (is_empty p)
  is_column_mapped (column n type nu p (some id) k v children) = true

  unfoldable pub any_mapped : DeltaColumns → Bool
  any_mapped no_columns = false
  any_mapped (columns col rest) = is_column_mapped col || any_mapped rest

  -- `by_logical_name`, which keeps the first column of a name.
  unfoldable pub by_logical_name : Text → DeltaColumns → Option DeltaColumn
  by_logical_name name no_columns = none
  by_logical_name name (columns col rest) =
      if text_eq (column_name col) name then some col else by_logical_name name rest

  abbrev pub WriteColumn : Type 0
  WriteColumn = (Text × LogicalType) × Option IdTree

  -- One turn of the loop: the name, the type and the ids of a column.
  unfoldable pub write_column : LogicalType → Option DeltaColumn → Result WriteColumn
  unfolding throw_if_field_id_key_is_written throw_if_struct_fields_differ written_name written_type
      field_id_tree
  write_column type none =
      err (error internal "Delta column \"%s\" is missing from the write schema of table %s")
  write_column type (some col) =
      throw_if_struct_fields_differ type col
      >> throw_if_field_id_key_is_written col
      >> written_type col
      >>= λ written. field_id_tree col >>= λ tree. ok ((written_name col, written), tree)

  unfoldable pub write_columns :
      DeltaColumns → List (Text × LogicalType) → Result (List WriteColumn)
  unfolding by_logical_name write_column
  write_columns schema [] = ok []
  write_columns schema ((name, type) ∷ rest) =
      write_column type (by_logical_name name schema) >>= λ col.
      write_columns schema rest >>= λ cols. ok (col ∷ cols)

  -- `none` leaves the names and types as they are.
  unfoldable pub apply_column_mapping_to_write_schema :
      DeltaColumns → List (Text × LogicalType) → Result (Option (List WriteColumn))
  unfolding any_mapped write_columns
  apply_column_mapping_to_write_schema schema cols =
      if any_mapped schema
      then (write_columns schema cols >>= λ written. ok (some written))
      else ok none
