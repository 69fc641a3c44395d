-- ===== src/FileList/Transform.antt =====
-- `FindPartitionValues` (src/functions/delta_scan/delta_multi_file_list.cpp): the constants that the
-- kernel's transform of a file puts between the columns that the file holds.
use duckdb_delta.Prelude.{
  ℕ, suc, Bool, true, false, ◌&&◌, Option, none, some, List, [], ◌∷◌, ◌==◌, is_empty, length, not,
  ◌++◌, Result, ok, err, error, io, internal, not_implemented, if◌then◌else◌, ◌>>=◌,
}
use duckdb_delta.Prelude.Bytes.{Text, bytes, text_eq}

-- DuckDB's `Value`, and the comparisons of names.
pub record Values : Type 1 where
  pub Value : Type 0
  pub null : Value
  pub is_null : Value → Bool
  pub to_string : Value → Text
  -- `GetValue<bool>`
  pub to_bool : Value → Result Bool
  pub ci_equals : Text → Text → Bool

-- A column of `global_columns`, by the names it goes under.
pub record NamedColumn : Type 0 where
  pub name : Text
  pub physical_name : Text

module _ (D : Values) where
  open D use {Value}

  -- An argument of a transform operation: a comparison of a name, if its left side is a column,
  -- with a value, if `TryGetLiteralValue` finds one in its right side; or any other expression.
  pub data OpArgument : Type 0 where
    compare_equal : Option Text → Option Value → OpArgument
    plain : Option Value → OpArgument

  -- The parsed expression of a transform. `other` is an expression that is no function.
  pub data TransformOp : Type 0 where
    transform_op : Text → List OpArgument → TransformOp
    other_op : TransformOp

  pub data Transform : Type 0 where
    transform_expression : Text → List TransformOp → Transform
    other_expression : Transform

  -- The variables that the loop over an operation's arguments fills.
  pub record Operation : Type 0 where
    pub kind : Text
    pub keep_input : Bool
    pub optional : Bool
    pub field_name : Option Text
    pub values : List Value

  abbrev pub no_operation : Operation
  no_operation = record {
    kind = [];
    keep_input = false;
    optional = false;
    field_name = none;
    values = [];
  }

  unfoldable pub set_argument : Text → Value → Operation → Result Operation
  set_argument name value op =
      if text_eq name (bytes "kind")
      then ok (record op { kind = D.to_string value })
      else if text_eq name (bytes "keep_input")
      then (D.to_bool value >>= λ b. ok (record op { keep_input = b }))
      else if text_eq name (bytes "optional")
      then (D.to_bool value >>= λ b. ok (record op { optional = b }))
      else if text_eq name (bytes "field_name")
      then ok (if D.is_null value then op else record op { field_name = some (D.to_string value) })
      else err
          (error internal "Unexpected name for delta_transform_op returned by delta kernel: %s")

  unfoldable pub read_argument : OpArgument → Operation → Result Operation
  unfolding set_argument
  read_argument (compare_equal none value) op =
      err (error internal "Failed to cast expression to type - expression type mismatch")
  read_argument (compare_equal (some name) none) op =
      err (error internal "Unexpected value for delta_transform_op returned by delta kernel: %s")
  read_argument (compare_equal (some name) (some value)) op = set_argument name value op
  read_argument (plain none) op = err (
      error not_implemented
        "Unexpected expression for delta_transform_op returned by delta kernel: %s")
  read_argument (plain (some value)) op = ok (record op { values = op.values ++ value ∷ [] })

  unfoldable pub read_arguments : List OpArgument → Operation → Result Operation
  unfolding read_argument
  read_arguments [] op = ok op
  read_arguments (argument ∷ rest) op =
      read_argument argument op >>= λ read. read_arguments rest read

  -- The name that the kernel knows a column by.
  unfoldable pub kernel_name : Bool → NamedColumn → Text
  kernel_name mapped col =
      if mapped && not (is_empty col.physical_name) then col.physical_name else col.name

  -- The loop over `cols` from index `i`.
  unfoldable pub find_index : Bool → Text → ℕ → List NamedColumn → Option ℕ
  unfolding kernel_name
  find_index mapped field_name i [] = none
  find_index mapped field_name i (col ∷ cols) =
      if D.ci_equals field_name (kernel_name mapped col)
      then some i
      else find_index mapped field_name (suc i) cols

  -- Where the values of an operation go; `none` is the `continue` of a missing optional field.
  unfoldable pub index_of_found : Bool → Bool → Option ℕ → Result (Option ℕ)
  index_of_found keep_input optional (some i) = ok (some (if keep_input then suc i else i))
  index_of_found keep_input true none = ok none
  index_of_found keep_input false none =
      err (error io "Delta kernel transform names column '%s', which is not in the table schema")

  unfoldable pub index_of_field :
      Bool → List NamedColumn → Operation → Option Text → Result (Option ℕ)
  unfolding find_index index_of_found
  index_of_field mapped cols op none = ok (some 0)
  index_of_field mapped cols op (some field_name) =
      index_of_found op.keep_input op.optional (find_index mapped field_name 0 cols)

  unfoldable pub index_to_insert : Bool → List NamedColumn → Operation → Result (Option ℕ)
  unfolding index_of_field
  index_to_insert mapped cols op =
      if text_eq op.kind (bytes "append")
      then ok (some (length cols))
      else if text_eq op.kind (bytes "field")
      then index_of_field mapped cols op op.field_name
      else ok (some 0)

  -- The map from indices to values, the latest entry first. An index is bounded by two sizes of
  -- vectors in memory, so their sum does not wrap.
  abbrev pub PartitionValues : Type 0
  PartitionValues = List (ℕ × Value)

  unfoldable pub insert_values : ℕ → List Value → PartitionValues → PartitionValues
  insert_values index [] res = res
  insert_values index (value ∷ values) res = insert_values (suc index) values ((index, value) ∷ res)

  abbrev pub insert_at : Option ℕ → List Value → PartitionValues → PartitionValues
  insert_at none values res = res
  insert_at (some index) values res = insert_values index values res

  unfoldable pub apply_operation :
      Bool → List NamedColumn → TransformOp → PartitionValues → Result PartitionValues
  unfolding read_arguments index_to_insert insert_values
  apply_operation mapped cols other_op res =
      err (error internal "Failed to cast expression to type - expression type mismatch")
  apply_operation mapped cols (transform_op name arguments) res =
      if text_eq name (bytes "delta_transform_op")
      then (read_arguments arguments no_operation >>= λ op.
          index_to_insert mapped cols op >>= λ index. ok (insert_at index op.values res))
      else err (error io "Unexpected function for delta_transform_op returned by delta kernel: %s")

  unfoldable pub apply_operations :
      Bool → List NamedColumn → List TransformOp → PartitionValues → Result PartitionValues
  unfolding apply_operation
  apply_operations mapped cols [] res = ok res
  apply_operations mapped cols (op ∷ ops) res =
      apply_operation mapped cols op res >>= λ next. apply_operations mapped cols ops next

  unfoldable pub find_partition_values :
      Transform → List NamedColumn → Bool → Result PartitionValues
  unfolding apply_operations
  find_partition_values other_expression cols mapped =
      err (error internal "Failed to cast expression to type - expression type mismatch")
  find_partition_values (transform_expression name ops) cols mapped =
      if text_eq name (bytes "delta_kernel_transform_expression")
      then apply_operations mapped cols ops []
      else err (error io "Unexpected function of root expression returned by delta kernel: %s")

  -- `transform_partitions[id]`, which is NULL where nothing was put.
  unfoldable pub value_at : PartitionValues → ℕ → Value
  value_at [] id = D.null
  value_at ((index, value) ∷ res) id = if index == id then value else value_at res id
