-- ===== src/Insert/WrittenIds.antt =====
-- The field ids that the copy of a column-mapped table is given, as the parquet writer reads them
-- (src/storage/delta_insert.cpp).
use duckdb_delta.Prelude.{
  ℕ, ◌≡◌, refl, ap, sym, ◌∙◌, inl, inr, Bool, true, false, Option, none, some, ltb, Result, ok,
  >>=-ok, >>-ok, ok-injective, Bool-cases, if◌then◌else◌, if_true, if_false, ◌>>=◌,
}
use duckdb_delta.Prelude.Bytes.{Text, bytes}
use duckdb_delta.Types.{struct, list, map_type}
use duckdb_delta.Columns.{DeltaColumn, DeltaColumns, column, no_columns, columns}
use duckdb_delta.Insert.Columns.{written_name}
use duckdb_delta.Insert.WriteSchema.{
  IdTree, id_value, id_struct, IdTrees, no_ids, ids, field_id_key, own_id, tree_of, add_child,
  field_id_tree, struct_ids, first_ids, second_ids, entry_ids, throw_if_field_id_key_is_written,
  throw_if_key_below,
}

abbrev pub column_field_id : DeltaColumn → Option ℕ
column_field_id (column n type nu p i k v children) = i

abbrev value_of : IdTree → Option ℕ
value_of (id_value id) = some id
value_of (id_struct trees) = none

module _ (ci_equals : Text → Text → Bool) where
  unfoldable pub read_key : IdTrees → Option ℕ
  read_key no_ids = none
  read_key (ids name tree rest) =
      let later = read_key rest in if ci_equals name field_id_key then value_of tree else later

  -- A column's id is the entry itself, or what its struct has under the reserved name.
  abbrev pub read_id : Option IdTree → Option ℕ
  read_id none = none
  read_id (some (id_value id)) = some id
  read_id (some (id_struct trees)) = read_key trees

  module _ (same_key : ci_equals field_id_key field_id_key ≡ true)
      (element : ci_equals (bytes "element") field_id_key ≡ false)
      (key : ci_equals (bytes "key") field_id_key ≡ false)
      (value : ci_equals (bytes "value") field_id_key ≡ false) where
    read_id-tree_of :
        (id : Option ℕ) (trees : IdTrees) → read_key trees ≡ none → read_id (tree_of id trees) ≡ id
    unfolding read_key
    read_id-tree_of none no_ids h = refl
    read_id-tree_of (some id) no_ids h = refl
    read_id-tree_of none (ids name tree rest) h = h
    read_id-tree_of (some id) (ids name tree rest) h =
        if_true (ci_equals field_id_key field_id_key) _ _ same_key

    own_id-same : (i id : Option ℕ) → own_id i ≡ ok id → id ≡ i
    own_id-same none id h = sym (ok-injective h)
    own_id-same (some n) id h = elim (Bool-cases (ltb n 2147483648)) [
      | inl fits ↦ sym (
          ok-injective
            (sym (ap (λ (r : Result ℕ). r >>= λ m. ok (some m)) (if_true _ _ _ fits)) ∙ h))
      | inr wide ↦
          cc (sym (ap (λ (r : Result ℕ). r >>= λ m. ok (some m)) (if_false _ _ _ wide)) ∙ h)
    ]

    read_key-add_child :
        (name : Text) (tree : Option IdTree) (rest : IdTrees)
        → ci_equals name field_id_key ≡ false
        → read_key rest ≡ none
        → read_key (add_child name tree rest) ≡ none
    unfolding read_key
    read_key-add_child name none rest other h = h
    read_key-add_child name (some tree) rest other h = if_false _ _ _ other ∙ h

    read_key-struct_ids :
        (children : DeltaColumns) (trees : IdTrees)
        → throw_if_key_below ci_equals true children ≡ ok tt
        → struct_ids children ≡ ok trees
        → read_key trees ≡ none
    unfolding struct_ids throw_if_key_below read_key
    read_key-struct_ids no_columns trees g h = ap read_key (sym (ok-injective h))
    read_key-struct_ids (columns child rest) trees g h =
        elim (Bool-cases (ci_equals (written_name child) field_id_key)) [
          | inl reserved ↦ cc (sym (if_true _ _ _ reserved) ∙ g)
          | inr other ↦
              let (tree, own, next) =
                >>=-ok (field_id_tree child)
                  (λ tree.
                    struct_ids rest >>= λ trees. ok (add_child (written_name child) tree trees))
                  trees h in
              let (later, below, made) =
                >>=-ok (struct_ids rest) (λ trees. ok (add_child (written_name child) tree trees))
                  trees next in
              let (first, others) =
                >>-ok (throw_if_field_id_key_is_written ci_equals child)
                  (throw_if_key_below ci_equals true rest) tt (sym (if_false _ _ _ other) ∙ g) in
              ap read_key (sym (ok-injective made))
              ∙ read_key-add_child (written_name child) tree later other
                  (read_key-struct_ids rest later others below)
        ]

    read_id-whole :
        (i : Option ℕ) (below : Result IdTrees) (tree : Option IdTree)
        → (own_id i >>= λ id. below >>= λ trees. ok (tree_of id trees)) ≡ ok tree
        → ((trees : IdTrees) → below ≡ ok trees → read_key trees ≡ none)
        → read_id tree ≡ i
    read_id-whole i below tree h none_below =
        let (id, own, next) =
          >>=-ok (own_id i) (λ id. below >>= λ trees. ok (tree_of id trees)) tree h in
        let (trees, there, made) = >>=-ok below (λ trees. ok (tree_of id trees)) tree next in
        ap read_id (sym (ok-injective made))
        ∙ read_id-tree_of id trees (none_below trees there)
        ∙ own_id-same i id own

    read_key-first_ids :
        (name : Text) (children : DeltaColumns) (trees : IdTrees)
        → ci_equals name field_id_key ≡ false
        → first_ids name children ≡ ok trees
        → read_key trees ≡ none
    unfolding first_ids read_key
    read_key-first_ids name no_columns trees other h = cc
    read_key-first_ids name (columns child rest) trees other h =
        let (tree, own, made) =
          >>=-ok (field_id_tree child) (λ tree. ok (add_child name tree no_ids)) trees h in
        ap read_key (sym (ok-injective made)) ∙ read_key-add_child name tree no_ids other refl

    read_key-entry_ids :
        (children : DeltaColumns) (trees : IdTrees)
        → entry_ids children ≡ ok trees
        → read_key trees ≡ none
    unfolding entry_ids read_key
    read_key-entry_ids no_columns trees h = cc
    read_key-entry_ids (columns k no_columns) trees h =
        let (tree, own, next) =
          >>=-ok (field_id_tree k)
            (λ tree. second_ids no_columns >>= λ trees. ok (add_child (bytes "key") tree trees))
            trees h in
        cc next
    read_key-entry_ids (columns k (columns v rest)) trees h =
        let (tree, own, next) =
          >>=-ok (field_id_tree k)
            (λ tree.
              second_ids (columns v rest) >>= λ trees. ok (add_child (bytes "key") tree trees))
            trees h in
        let (later, second, made) =
          >>=-ok (second_ids (columns v rest)) (λ trees. ok (add_child (bytes "key") tree trees))
            trees next in
        ap read_key (sym (ok-injective made))
        ∙ read_key-add_child (bytes "key") tree later key
            (read_key-first_ids (bytes "value") (columns v rest) later value second)

    -- If no field is written under the reserved name and the entry of a column can be made, then the
    -- writer reads from it the column's own field id, or none where the column has none.
    pub read_id-field_id_tree :
        (col : DeltaColumn) (tree : Option IdTree)
        → throw_if_field_id_key_is_written ci_equals col ≡ ok tt
        → field_id_tree col ≡ ok tree
        → read_id tree ≡ column_field_id col
    unfolding field_id_tree throw_if_field_id_key_is_written read_key
    read_id-field_id_tree (column n (struct fields) nu p i k v children) tree g h =
        read_id-whole i (struct_ids children) tree h
          (λ trees below. read_key-struct_ids children trees g below)
    read_id-field_id_tree (column n (list e) nu p i k v children) tree g h =
        read_id-whole i (first_ids (bytes "element") children) tree h
          (λ trees below. read_key-first_ids (bytes "element") children trees element below)
    read_id-field_id_tree (column n (map_type a b) nu p i k v children) tree g h =
        read_id-whole i (entry_ids children) tree h
          (λ trees below. read_key-entry_ids children trees below)
    read_id-field_id_tree (column n type nu p i k v children) tree g h =
        read_id-whole i (ok no_ids) tree h (λ trees below. ap read_key (sym (ok-injective below)))
