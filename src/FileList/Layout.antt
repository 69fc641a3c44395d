-- ===== src/FileList/Layout.antt =====
-- A table's columns as the kernel's transform sees them, with the constants between those that a
-- file holds, and the map that `FindPartitionValues`
-- (src/functions/delta_scan/delta_multi_file_list.cpp) fills.
use mathlib.Core.List.{append_assoc, append-nil}
use duckdb_delta.Prelude.{
  ℕ, zero, suc, ◌≡◌, refl, ap, sym, ◌∙◌, Bool, true, false, Option, none, some, List, [], ◌∷◌, ◌++◌,
  map, length, ◌==◌, subst, arith, if◌then◌else◌,
}
use duckdb_delta.FileList.Transform.{
  Values, NamedColumn, OpArgument, plain, PartitionValues, kernel_name, insert_values, value_at,
}
use duckdb_delta.FileList.Patches.{Constants, FieldPatch}

module _ (D : Values) (C : Constants D) where
  open D use {Value}

  -- A table's columns: a run of constants first, and then each column that the file holds with the
  -- constants between it and the next.
  abbrev pub Constant : Type 0
  Constant = NamedColumn × Value

  abbrev pub Group : Type 0
  Group = NamedColumn × List Constant

  abbrev pub run_columns : List Constant → List NamedColumn
  run_columns [] = []
  run_columns ((col, value) ∷ run) = col ∷ run_columns run

  abbrev pub run_values : List Constant → List Value
  run_values [] = []
  run_values ((col, value) ∷ run) = value ∷ run_values run

  abbrev pub group_columns : List Group → List NamedColumn
  group_columns [] = []
  group_columns ((col, run) ∷ groups) = col ∷ (run_columns run ++ group_columns groups)

  -- The value of each column, if it is a constant.
  abbrev pub group_values : List Group → List (Option Value)
  group_values [] = []
  group_values ((col, run) ∷ groups) = none ∷ (map some (run_values run) ++ group_values groups)

  abbrev pub constant_at : List (Option Value) → ℕ → Value
  constant_at [] i = D.null
  constant_at (none ∷ columns) zero = D.null
  constant_at (some value ∷ columns) zero = value
  constant_at (column ∷ columns) (suc i) = constant_at columns i

  -- What the kernel asks for: the run after a column is inserted behind that column's field.
  abbrev pub insertions : List Value → List (OpArgument D)
  insertions values = map (λ v. plain (some v)) values

  abbrev pub field_patches : Bool → List Group → List (FieldPatch D C)
  field_patches mapped [] = []
  field_patches mapped ((col, []) ∷ groups) = field_patches mapped groups
  field_patches mapped ((col, constant ∷ run) ∷ groups) =
      record {
        field_name = kernel_name D mapped col;
        insertions = insertions (run_values (constant ∷ run));
        keep_input = true;
        optional = false;
      }
      ∷ field_patches mapped groups

  -- The constants so far, and where the next column stands.
  abbrev pub Placed : List (Option Value) → PartitionValues D → Type 0
  Placed before res = (i : ℕ) → value_at D res i ≡ constant_at before i

  constant_at-snoc :
      (before : List (Option Value)) (value : Value) (i : ℕ)
      → constant_at (before ++ some value ∷ []) i
        ≡ (if length before == i then value else constant_at before i)
  constant_at-snoc [] value zero = refl
  constant_at-snoc [] value (suc i) = ground arith
  constant_at-snoc (none ∷ before) value zero = ground arith
  constant_at-snoc (some v ∷ before) value zero = ground arith
  constant_at-snoc (none ∷ before) value (suc i) = ground (arith, constant_at-snoc before value i)
  constant_at-snoc (some v ∷ before) value (suc i) = ground (arith, constant_at-snoc before value i)

  pub constant_at-stored :
      (before : List (Option Value)) (i : ℕ)
      → constant_at (before ++ none ∷ []) i ≡ constant_at before i
  constant_at-stored [] zero = refl
  constant_at-stored [] (suc i) = refl
  constant_at-stored (none ∷ before) zero = refl
  constant_at-stored (some v ∷ before) zero = refl
  constant_at-stored (none ∷ before) (suc i) = constant_at-stored before i
  constant_at-stored (some v ∷ before) (suc i) = constant_at-stored before i

  pub length-snoc :
      (before : List (Option Value)) (column : Option Value)
      → length (before ++ column ∷ []) ≡ suc (length before)
  length-snoc [] column = refl
  length-snoc (x ∷ before) column = ap suc (length-snoc before column)

  pub insert_values-Placed :
      (values : List Value) (before : List (Option Value)) (res : PartitionValues D) (k : ℕ)
      → length before ≡ k
      → Placed before res
      → Placed (before ++ map some values) (insert_values D k values res)
  unfolding insert_values value_at
  insert_values-Placed [] before res k e p =
      subst (λ (b : List (Option Value)). Placed b res) (sym (append-nil before)) p
  insert_values-Placed (value ∷ values) before res k e p =
      subst
        (λ (b : List (Option Value)). Placed b (insert_values D (suc k) values ((k, value) ∷ res)))
        (append_assoc before (some value ∷ []) (map some values))
        (insert_values-Placed values (before ++ some value ∷ []) ((k, value) ∷ res) (suc k)
          (length-snoc before (some value) ∙ ap suc e)
          (λ i.
            ap (λ (v : Value). if k == i then value else v) (p i)
            ∙ ap (λ (n : ℕ). if n == i then value else constant_at before i) (sym e)
            ∙ sym (constant_at-snoc before value i)))
