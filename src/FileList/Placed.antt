-- ===== src/FileList/Placed.antt =====
-- The constants of a file's transform reach their own columns: `FindPartitionValues`
-- (src/functions/delta_scan/delta_multi_file_list.cpp) on what the visitor of the kernel's
-- expressions (src/delta_utils.cpp) writes.
use mathlib.Core.List.{append_assoc, append-nil}
use duckdb_delta.Prelude.{
  ℕ, suc, ◌+◌, ◌≡◌, refl, ap, sym, ◌∙◌, Bool, true, false, Option, none, some, List, [], ◌∷◌, ◌++◌,
  map, length, length-append, All, Result, ok, subst, arith, ◌>>=◌, if_true, if_false,
}
use duckdb_delta.Prelude.Bytes.{Text, bytes}
use duckdb_delta.FileList.Transform.{
  Values, NamedColumn, OpArgument, TransformOp, Transform, transform_expression, compare_equal,
  Operation, no_operation, PartitionValues, read_arguments, read_argument, set_argument,
  kernel_name, find_index, index_of_found, index_of_field, index_to_insert, insert_values,
  insert_at, apply_operation, apply_operations, find_partition_values, value_at,
}
use duckdb_delta.FileList.Layout.{
  Constant, Group, run_columns, run_values, group_columns, group_values, constant_at, insertions,
  field_patches, Placed, constant_at-stored, length-snoc, insert_values-Placed,
}
use duckdb_delta.FileList.Patches.{
  Constants, make_struct_patch_op, visit_field_patch, visit_struct_patch_expression, position_op,
}

module _ (D : Values) (C : Constants D) where
  open D use {Value}

  abbrev Run : Type 0
  Run = List (Constant D C)

  abbrev Groups : Type 0
  Groups = List (Group D C)

  find_index-at :
      (mapped : Bool) (name : Text) (i : ℕ) (before : List NamedColumn) (col : NamedColumn)
      (after : List NamedColumn)
      → All (λ d. D.ci_equals name (kernel_name D mapped d) ≡ false) before
      → D.ci_equals name (kernel_name D mapped col) ≡ true
      → find_index D mapped name i (before ++ col ∷ after) ≡ some (i + length before)
  unfolding find_index
  find_index-at mapped name i [] col after h e =
      if_true (D.ci_equals name (kernel_name D mapped col)) _ _ e
      ∙ ap (λ (n : ℕ). some n) (omega arith)
  find_index-at mapped name i (d ∷ before) col after h e =
      if_false (D.ci_equals name (kernel_name D mapped d)) _ _ h.0
      ∙ find_index-at mapped name (suc i) before col after h.1 e
      ∙ ap (λ (n : ℕ). some n) (omega arith)

  read_arguments-insertions :
      (values : List Value) (rest : List (OpArgument D)) (op : Operation D)
      → read_arguments D (insertions D C values ++ rest) op
        ≡ read_arguments D rest (record op { values = op.values ++ values })
  unfolding read_arguments read_argument
  read_arguments-insertions [] rest op =
      ap (λ (vs : List Value). read_arguments D rest (record op { values = vs }))
        (sym (append-nil op.values))
  read_arguments-insertions (value ∷ values) rest op =
      read_arguments-insertions values rest (record op { values = op.values ++ value ∷ [] })
      ∙ ap (λ (vs : List Value). read_arguments D rest (record op { values = vs }))
          (append_assoc op.values (value ∷ []) values)

  -- What the loop over the arguments reads of an operation that the visitor wrote.
  abbrev operation : Text → Option Text → List Value → Bool → Bool → Operation D
  operation kind field_name values keep_input optional = record {
    kind = kind;
    keep_input = keep_input;
    optional = optional;
    field_name = field_name;
    values = values;
  }

  read_field_op :
      (kind field_name : Text) (values : List Value) (keep_input optional : Bool)
      → read_arguments D
          (compare_equal (some (bytes "keep_input")) (some (C.boolean keep_input))
            ∷ compare_equal (some (bytes "optional")) (some (C.boolean optional))
            ∷ compare_equal (some (bytes "field_name")) (some (C.string field_name))
            ∷ compare_equal (some (bytes "kind")) (some (C.string kind))
            ∷ [])
          (operation [] none values false false)
        ≡ ok (operation kind (some field_name) values keep_input optional)
  unfolding read_arguments read_argument set_argument
  read_field_op kind field_name values keep_input optional =
      rw
        (
          C.to_bool-boolean keep_input,
          C.to_bool-boolean optional,
          C.is_null-string field_name,
          C.to_string-string field_name,
          C.to_string-string kind,
        )
        refl

  read_position_op :
      (kind : Text) (values : List Value)
      → read_arguments D
          (compare_equal (some (bytes "keep_input")) (some (C.boolean false))
            ∷ compare_equal (some (bytes "optional")) (some (C.boolean false))
            ∷ compare_equal (some (bytes "field_name")) (some D.null)
            ∷ compare_equal (some (bytes "kind")) (some (C.string kind))
            ∷ [])
          (operation [] none values false false)
        ≡ ok (operation kind none values false false)
  unfolding read_arguments read_argument set_argument
  read_position_op kind values =
      rw (C.to_bool-boolean false, C.is_null-null, C.to_string-string kind) refl

  -- What the operation puts in, once its arguments are read.
  abbrev put_in :
      Bool → List NamedColumn → PartitionValues D → Operation D → Result (PartitionValues D)
  put_in mapped cols res op =
      index_to_insert D mapped cols op >>= λ index. ok (insert_at D index op.values res)

  apply_field_patch :
      (mapped : Bool) (before : List NamedColumn) (col : NamedColumn) (after : List NamedColumn)
      (values : List Value) (res : PartitionValues D)
      → All (λ d. D.ci_equals (kernel_name D mapped col) (kernel_name D mapped d) ≡ false) before
      → D.ci_equals (kernel_name D mapped col) (kernel_name D mapped col) ≡ true
      → apply_operation D mapped
          (before ++ col ∷ after)
          (visit_field_patch D C (record {
            field_name = kernel_name D mapped col;
            insertions = insertions D C values;
            keep_input = true;
            optional = false;
          }))
          res
        ≡ ok (insert_values D (suc (length before)) values res)
  unfolding apply_operation visit_field_patch make_struct_patch_op index_to_insert index_of_field
      index_of_found
  apply_field_patch mapped before col after values res h e =
      let name = kernel_name D mapped col in
      let cols = before ++ col ∷ after in
      ap (λ (r : Result (Operation D)). r >>= put_in mapped cols res)
        (read_arguments-insertions values
            (compare_equal (some (bytes "keep_input")) (some (C.boolean true))
              ∷ compare_equal (some (bytes "optional")) (some (C.boolean false))
              ∷ compare_equal (some (bytes "field_name")) (some (C.string name))
              ∷ compare_equal (some (bytes "kind")) (some (C.string (bytes "field")))
              ∷ [])
            (no_operation D)
          ∙ read_field_op (bytes "field") name values true false)
      ∙ ap
          (λ (found : Option ℕ).
            index_of_found D true false found >>= λ index. ok (insert_at D index values res))
          (find_index-at mapped name 0 before col after h e)
      ∙ ap (λ (n : ℕ). ok (insert_values D (suc n) values res)) (omega arith)

  -- A column that the file holds goes by a name unlike that of every column before it.
  abbrev pub Apart : Bool → List NamedColumn → Groups → Type 0
  Apart mapped before [] = Unit
  Apart mapped before ((col, run) ∷ groups) =
      All (λ d. D.ci_equals (kernel_name D mapped col) (kernel_name D mapped d) ≡ false) before
      × (D.ci_equals (kernel_name D mapped col) (kernel_name D mapped col) ≡ true)
      × Apart mapped (before ++ col ∷ run_columns D C run) groups

  -- The operations for the groups put every constant at its column.
  abbrev Reaches :
      Bool
      → List NamedColumn
      → List (TransformOp D)
      → PartitionValues D
      → List (Option Value)
      → Type 0
  Reaches mapped cols ops res columns =
      (res' : PartitionValues D) × (apply_operations D mapped cols ops res ≡ ok res')
      × Placed D C columns res'

  patch_ops : Bool → Groups → List (TransformOp D)
  patch_ops mapped groups = map (visit_field_patch D C) (field_patches D C mapped groups)

  length-run_columns : (run : Run) → length (run_columns D C run) ≡ length (run_values D C run)
  length-run_columns [] = refl
  length-run_columns ((col, value) ∷ run) = ap suc (length-run_columns run)

  length-map-some : (values : List Value) → length (map some values) ≡ length values
  length-map-some [] = refl
  length-map-some (value ∷ values) = ap suc (length-map-some values)

  length-snoc_column :
      (before : List NamedColumn) (columns : List (Option Value)) (col : NamedColumn)
      (column : Option Value)
      → length before ≡ length columns
      → length (before ++ col ∷ []) ≡ length (columns ++ column ∷ [])
  length-snoc_column before columns col column l =
      omega (arith, length-append before (col ∷ []), length-append columns (column ∷ []))

  length-run :
      (run : Run) (before : List NamedColumn) (values : List (Option Value))
      → length before ≡ length values
      → length (before ++ run_columns D C run) ≡ length (values ++ map some (run_values D C run))
  length-run run before values e = omega (
    arith,
    length-append before (run_columns D C run),
    length-append values (map {A = Value} some (run_values D C run)),
    length-run_columns run,
    length-map-some (run_values D C run),
  )

  apply_groups :
      (groups : Groups) (mapped : Bool) (cols before : List NamedColumn)
      (columns : List (Option Value)) (res : PartitionValues D)
      → cols ≡ before ++ group_columns D C groups
      → length before ≡ length columns
      → Placed D C columns res
      → Apart mapped before groups
      → Reaches mapped cols (patch_ops mapped groups) res (columns ++ group_values D C groups)
  unfolding apply_operations patch_ops
  apply_groups [] mapped cols before columns res e l p apart = (
    res,
    refl,
    subst (λ (c : List (Option Value)). Placed D C c res) (sym (append-nil columns)) p,
  )
  apply_groups ((col, []) ∷ groups) mapped cols before columns res e l p apart =
      let (res', done, placed) =
        apply_groups groups mapped cols (before ++ col ∷ []) (columns ++ none ∷ []) res
          (e ∙ sym (append_assoc before (col ∷ []) (group_columns D C groups)))
          (length-snoc_column before columns col none l)
          (λ i. p i ∙ sym (constant_at-stored D C columns i)) apart.2 in
      (
        res',
        done,
        subst (λ (c : List (Option Value)). Placed D C c res')
            (append_assoc columns (none ∷ []) (group_values D C groups)) placed,
      )
  apply_groups ((col, constant ∷ run) ∷ groups) mapped cols before columns res e l p apart =
      let whole = constant ∷ run in
      let values = run_values D C whole in
      let behind = columns ++ none ∷ [] in
      let put = insert_values D (suc (length before)) values res in
      let after = run_columns D C whole ++ group_columns D C groups in
      let (res', done, placed) =
        apply_groups groups mapped cols (before ++ col ∷ run_columns D C whole)
          (behind ++ map some values) put
          (e ∙ sym (append_assoc before (col ∷ run_columns D C whole) (group_columns D C groups)))
          (ap (length {A = NamedColumn})
              (sym (append_assoc before (col ∷ []) (run_columns D C whole)))
            ∙ length-run whole (before ++ col ∷ []) behind
                (length-snoc_column before columns col none l))
          (insert_values-Placed D C values behind res (suc (length before))
            (length-snoc D C columns none ∙ ap suc (sym l))
            (λ i. p i ∙ sym (constant_at-stored D C columns i)))
          apart.2 in
      (
        res',
        ap
              (λ (cs : List NamedColumn).
                apply_operation D mapped cs
                  (visit_field_patch D C (record {
                    field_name = kernel_name D mapped col;
                    insertions = insertions D C values;
                    keep_input = true;
                    optional = false;
                  }))
                  res
                >>= λ next. apply_operations D mapped cols (patch_ops mapped groups) next)
              e
            ∙ ap
                (λ (r : Result (PartitionValues D)).
                  r >>= λ next. apply_operations D mapped cols (patch_ops mapped groups) next)
                (apply_field_patch mapped before col after values res apart.0 apart.1)
            ∙ done,
        subst (λ (c : List (Option Value)). Placed D C c res')
            (append_assoc behind (map some values) (group_values D C groups)
              ∙ append_assoc columns (none ∷ []) (map some values ++ group_values D C groups))
            placed,
      )

  apply_prepended :
      (run : Run) (mapped : Bool) (cols : List NamedColumn) (rest : List (TransformOp D))
      → apply_operations D mapped cols
          (position_op D C (bytes "prepend") (insertions D C (run_values D C run)) ++ rest)
          []
        ≡ apply_operations D mapped cols rest (insert_values D 0 (run_values D C run) [])
  unfolding apply_operations apply_operation make_struct_patch_op index_to_insert
  apply_prepended [] mapped cols rest = unfold insert_values in refl
  apply_prepended (constant ∷ run) mapped cols rest =
      let values = run_values D C (constant ∷ run) in
      ap
        (λ (r : Result (Operation D)).
          (r >>= put_in mapped cols []) >>= λ next. apply_operations D mapped cols rest next)
        (read_arguments-insertions values
            (compare_equal (some (bytes "keep_input")) (some (C.boolean false))
              ∷ compare_equal (some (bytes "optional")) (some (C.boolean false))
              ∷ compare_equal (some (bytes "field_name")) (some D.null)
              ∷ compare_equal (some (bytes "kind")) (some (C.string (bytes "prepend")))
              ∷ [])
            (no_operation D)
          ∙ read_position_op (bytes "prepend") values)

  -- Of a table whose stored columns have names of their own, the transform that the visitor writes
  -- for the kernel's patches gives every constant column its own value, and no other column any:
  -- those before the first stored column are prepended, and each further run is inserted behind the
  -- stored column that it follows.
  pub find_partition_values-placed :
      (mapped : Bool) (run : Run) (groups : Groups)
      → Apart mapped (run_columns D C run) groups
      → (transform : Transform D) × (res : PartitionValues D) × (visit_struct_patch_expression D C
            (insertions D C (run_values D C run))
            (field_patches D C mapped groups)
            []
            []
          ≡ ok transform)
        × (find_partition_values D transform
              (run_columns D C run ++ group_columns D C groups)
              mapped
            ≡ ok res)
        × ((i : ℕ)
            → value_at D res i
              ≡ constant_at D C (map some (run_values D C run) ++ group_values D C groups) i)
  unfolding find_partition_values value_at visit_struct_patch_expression patch_ops
  find_partition_values-placed mapped run groups apart =
      let cols = run_columns D C run ++ group_columns D C groups in
      let (res, done, placed) =
        apply_groups groups mapped cols (run_columns D C run) (map some (run_values D C run))
          (insert_values D 0 (run_values D C run) []) refl (length-run run [] [] refl)
          (insert_values-Placed D C (run_values D C run) [] [] 0 refl (λ i. refl)) apart in
      (
        transform_expression (bytes "delta_kernel_transform_expression") (
            position_op D C (bytes "prepend") (insertions D C (run_values D C run))
            ++ (patch_ops mapped groups ++ [])),
        res,
        refl,
        apply_prepended run mapped cols (patch_ops mapped groups ++ [])
            ∙ ap
                (λ (ops : List (TransformOp D)).
                  apply_operations D mapped cols ops (insert_values D 0 (run_values D C run) []))
                (append-nil (patch_ops mapped groups))
            ∙ done,
        placed,
      )
