-- ===== src/Examples/Ids.antt =====
-- The field ids of a column-mapped table at a concrete column (src/storage/delta_insert.cpp).
use duckdb_delta.Prelude.{◌≡◌, refl, true, some, ok, err, error, internal, [], ◌∷◌}
use duckdb_delta.Prelude.Bytes.{bytes, text_eq}
use duckdb_delta.Types.{integer, struct, end, field}
use duckdb_delta.Columns.{no_identifier, DeltaColumn, column, no_columns, columns}
use duckdb_delta.Insert.WriteSchema.{
  IdTree, id_value, id_struct, no_ids, ids, field_id_key, field_id_tree,
  throw_if_field_id_key_is_written, apply_column_mapping_to_write_schema,
}
use duckdb_delta.Insert.WrittenIds.{read_id, column_field_id, read_id-field_id_tree}

abbrev mapped_struct : DeltaColumn
mapped_struct =
    column (bytes "s") (struct (field (bytes "a") integer end)) true (bytes "c1") (some 1)
      no_identifier []
      (columns (column (bytes "a") integer true (bytes "c2") (some 2) no_identifier [] no_columns)
        no_columns)

abbrev ids_of_struct : IdTree
ids_of_struct = id_struct (ids field_id_key (id_value 1) (ids (bytes "c2") (id_value 2) no_ids))

tree_of_struct : field_id_tree mapped_struct ≡ ok (some ids_of_struct)
unfolding field_id_tree
tree_of_struct = refl

key_is_free : throw_if_field_id_key_is_written text_eq mapped_struct ≡ ok tt
unfolding throw_if_field_id_key_is_written
key_is_free = refl

renamed :
    apply_column_mapping_to_write_schema text_eq
      (columns mapped_struct no_columns)
      ((bytes "s", struct (field (bytes "a") integer end)) ∷ [])
    ≡ ok (some (((bytes "c1", struct (field (bytes "c2") integer end)), some ids_of_struct) ∷ []))
unfolding apply_column_mapping_to_write_schema
renamed = refl

missing :
    apply_column_mapping_to_write_schema text_eq
      (columns mapped_struct no_columns)
      ((bytes "S", integer) ∷ [])
    ≡ err (error internal "Delta column \"%s\" is missing from the write schema of table %s")
unfolding apply_column_mapping_to_write_schema
missing = refl

read_id-field_id_tree_example : read_id text_eq (some ids_of_struct) ≡ column_field_id mapped_struct
read_id-field_id_tree_example =
    read_id-field_id_tree text_eq refl refl refl refl mapped_struct (some ids_of_struct) key_is_free
      tree_of_struct
