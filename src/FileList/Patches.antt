-- ===== src/FileList/Patches.antt =====
-- How the visitor of the kernel's expressions writes a transform down (src/delta_utils.cpp):
-- `MakeStructPatchOp`, `VisitFieldPatch` and `VisitStructPatchExpression`, with the lists of
-- children taken.
use duckdb_delta.Prelude.{
  ◌≡◌, Bool, true, false, Option, none, some, List, [], ◌∷◌, ◌++◌, map, Result, ok, err, error,
  invalid, ◌>>=◌,
}
use duckdb_delta.Prelude.Bytes.{Text, bytes}
use duckdb_delta.FileList.Transform.{
  Values, OpArgument, TransformOp, transform_op, other_op, Transform, transform_expression,
  compare_equal,
}

-- The constants of DuckDB that a transform is written with.
pub record Constants (D : Values) : Type 0 where
  pub boolean : Bool → D.Value
  pub string : Text → D.Value
  pub to_bool-boolean : (b : Bool) → D.to_bool (boolean b) ≡ ok b
  pub to_string-string : (t : Text) → D.to_string (string t) ≡ t
  pub is_null-string : (t : Text) → D.is_null (string t) ≡ false
  pub is_null-null : D.is_null D.null ≡ true

module _ (D : Values) (C : Constants D) where
  abbrev named_constant : Text → D.Value → OpArgument D
  named_constant name value = compare_equal (some name) (some value)

  abbrev pub field_name_value : Option Text → D.Value
  field_name_value none = D.null
  field_name_value (some field_name) = C.string field_name

  unfoldable pub make_struct_patch_op :
      Text → Option Text → List (OpArgument D) → Bool → Bool → TransformOp D
  make_struct_patch_op kind field_name insertions keep_input optional =
      transform_op (bytes "delta_transform_op") (
        insertions
        ++ named_constant (bytes "keep_input") (C.boolean keep_input)
          ∷ named_constant (bytes "optional") (C.boolean optional)
          ∷ named_constant (bytes "field_name") (field_name_value field_name)
          ∷ named_constant (bytes "kind") (C.string kind)
          ∷ [])

  -- A patch of a named field, as the kernel hands it to `VisitFieldPatch`.
  pub record FieldPatch : Type 0 where
    pub field_name : Text
    pub insertions : List (OpArgument D)
    pub keep_input : Bool
    pub optional : Bool

  unfoldable pub visit_field_patch : FieldPatch → TransformOp D
  unfolding make_struct_patch_op
  visit_field_patch patch =
      make_struct_patch_op (bytes "field") (some patch.field_name) patch.insertions patch.keep_input
        patch.optional

  -- An operation for insertions without a field, if there are any.
  abbrev pub position_op : Text → List (OpArgument D) → List (TransformOp D)
  position_op kind [] = []
  position_op kind (insertion ∷ rest) =
      make_struct_patch_op kind none (insertion ∷ rest) false false ∷ []

  -- An input path stands behind the operations, as a comparison that is no function.
  abbrev pub input_path_op : List (OpArgument D) → Result (List (TransformOp D))
  input_path_op [] = ok []
  input_path_op (path ∷ []) = ok (other_op ∷ [])
  input_path_op (path ∷ another ∷ rest) =
      err (error invalid "Expected zero or one input path for struct patch expression")

  unfoldable pub visit_struct_patch_expression :
      List (OpArgument D)
      → List FieldPatch
      → List (OpArgument D)
      → List (OpArgument D)
      → Result (Transform D)
  unfolding make_struct_patch_op visit_field_patch
  visit_struct_patch_expression prepended field_patches appended input_path =
      input_path_op input_path >>= λ path. ok (
        transform_expression (bytes "delta_kernel_transform_expression") (
          position_op (bytes "prepend") prepended
          ++ (map visit_field_patch field_patches
              ++ (position_op (bytes "append") appended ++ path))))
