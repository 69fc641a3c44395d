-- ===== src/Schema/Builder.antt =====
-- `FindUnsupportedType`, `VisitField` and `Build` (src/delta_schema_builder.cpp), and
-- `ThrowIfDeltaCannotStore`, `HoldsMapWithListKey` and `ThrowIfMapKeyIsList`
-- (src/storage/delta_create_table.cpp). The kernel's visitor functions are parameters.
use duckdb_delta.Prelude.{
  ℕ, Bool, true, false, ◌||◌, Option, none, some, List, [], ◌∷◌, Result, ok, err, Error, error,
  internal, not_implemented, and_then, if◌then◌else◌, ◌>>◌,
}
use duckdb_delta.Prelude.Bytes.{Text, bytes}
use duckdb_delta.Types.{
  LogicalType, Fields, boolean, tinyint, smallint, integer, bigint, float, double, varchar, blob,
  date, timestamp, timestamp_tz, variant, decimal, struct, list, array, map_type, other, end, field,
}

abbrev pub found_first : Option LogicalType → Option LogicalType → Option LogicalType
found_first (some t) second = some t
found_first none second = second

-- The type inside that Delta cannot store, if any.
unfoldable mutual
  pub find_unsupported_type : LogicalType → Option LogicalType
  find_unsupported_type boolean = none
  find_unsupported_type tinyint = none
  find_unsupported_type smallint = none
  find_unsupported_type integer = none
  find_unsupported_type bigint = none
  find_unsupported_type float = none
  find_unsupported_type double = none
  find_unsupported_type varchar = none
  find_unsupported_type blob = none
  find_unsupported_type date = none
  find_unsupported_type timestamp_tz = none
  find_unsupported_type timestamp = none
  find_unsupported_type (decimal width scale) = none
  find_unsupported_type variant = none
  find_unsupported_type (struct fields) = find_unsupported_field fields
  find_unsupported_type (list element) = find_unsupported_type element
  find_unsupported_type (map_type key value) =
      found_first (find_unsupported_type key) (find_unsupported_type value)
  find_unsupported_type (array element size) = some (array element size)
  find_unsupported_type (other id) = some (other id)

  pub find_unsupported_field : Fields → Option LogicalType
  find_unsupported_field end = none
  find_unsupported_field (field name type rest) =
      found_first (find_unsupported_type type) (find_unsupported_field rest)

-- The leaves, each with a function of the kernel's of its own.
pub data KernelLeaf : Type 0 where
  kernel_boolean kernel_byte kernel_short kernel_integer kernel_long kernel_float kernel_double :
      KernelLeaf
  kernel_string kernel_binary kernel_date kernel_timestamp kernel_timestamp_ntz : KernelLeaf
  kernel_decimal : ℕ → ℕ → KernelLeaf

-- `ffi::visit_field_...`, each by name and nullability, unpacked.
pub record SchemaVisitor : Type 1 where
  pub State : Type 0
  pub visit_field_leaf : KernelLeaf → Text → Bool → State → State × Result ℕ
  pub visit_field_variant : Text → ℕ → Bool → State → State × Result ℕ
  pub visit_field_struct : Text → List ℕ → Bool → State → State × Result ℕ
  pub visit_field_array : Text → ℕ → Bool → State → State × Result ℕ
  pub visit_field_map : Text → ℕ → ℕ → Bool → State → State × Result ℕ

module _ (V : SchemaVisitor) where
  open V use {
    State, visit_field_leaf, visit_field_variant, visit_field_struct, visit_field_array,
    visit_field_map,
  }

  abbrev pub unless_unsupported : Option LogicalType → State → State × Result ℕ → State × Result ℕ
  unless_unsupported (some unsupported) s visited = (
    s,
    err (error not_implemented "Delta CREATE TABLE does not support column '%s' of type %s%s"),
  )
  unless_unsupported none s visited = visited

  abbrev pub visit_variant : Text → Bool → State → State × Result ℕ
  visit_variant name nullable s =
      and_then (visit_field_leaf kernel_binary (bytes "metadata") false s) (λ s₁ metadata.
        and_then (visit_field_leaf kernel_binary (bytes "value") false s₁) (λ s₂ value.
          and_then (visit_field_struct name (metadata ∷ value ∷ []) false s₂)
            (λ s₃ physical. visit_field_variant name physical nullable s₃)))

  unfoldable mutual
    unfolding find_unsupported_type

    pub visit_field : LogicalType → Text → Bool → State → State × Result ℕ
    visit_field boolean name nullable s = visit_field_leaf kernel_boolean name nullable s
    visit_field tinyint name nullable s = visit_field_leaf kernel_byte name nullable s
    visit_field smallint name nullable s = visit_field_leaf kernel_short name nullable s
    visit_field integer name nullable s = visit_field_leaf kernel_integer name nullable s
    visit_field bigint name nullable s = visit_field_leaf kernel_long name nullable s
    visit_field float name nullable s = visit_field_leaf kernel_float name nullable s
    visit_field double name nullable s = visit_field_leaf kernel_double name nullable s
    visit_field varchar name nullable s = visit_field_leaf kernel_string name nullable s
    visit_field blob name nullable s = visit_field_leaf kernel_binary name nullable s
    visit_field date name nullable s = visit_field_leaf kernel_date name nullable s
    visit_field timestamp_tz name nullable s = visit_field_leaf kernel_timestamp name nullable s
    visit_field timestamp name nullable s = visit_field_leaf kernel_timestamp_ntz name nullable s
    visit_field (decimal width scale) name nullable s =
        visit_field_leaf (kernel_decimal width scale) name nullable s
    visit_field variant name nullable s = visit_variant name nullable s
    visit_field (struct fields) name nullable s =
        unless_unsupported (find_unsupported_type (struct fields)) s
          (and_then (visit_children fields s) (λ s' ids. visit_field_struct name ids nullable s'))
    visit_field (list element) name nullable s =
        unless_unsupported (find_unsupported_type (list element)) s (
          and_then (visit_field element (bytes "element") true s)
            (λ s' id. visit_field_array name id nullable s'))
    visit_field (map_type key value) name nullable s =
        unless_unsupported (find_unsupported_type (map_type key value)) s (
          and_then (visit_field key (bytes "key") false s) (λ s₁ key_id.
            and_then (visit_field value (bytes "value") true s₁)
              (λ s₂ value_id. visit_field_map name key_id value_id nullable s₂)))
    visit_field (array element size) name nullable s =
        unless_unsupported (find_unsupported_type (array element size)) s (
          s,
          err (
              error internal
                "Delta schema builder has no case for type %s, which FindUnsupportedType accepts"),
        )
    visit_field (other id) name nullable s =
        unless_unsupported (find_unsupported_type (other id)) s (
          s,
          err (
              error internal
                "Delta schema builder has no case for type %s, which FindUnsupportedType accepts"),
        )

    pub visit_children : Fields → State → State × Result (List ℕ)
    visit_children end s = (s, ok [])
    visit_children (field name type rest) s =
        and_then (visit_field type name true s)
          (λ s₁ id. and_then (visit_children rest s₁) (λ s₂ ids. (s₂, ok (id ∷ ids))))

  -- `Build`: the error is kept and the kernel is told that there is no such field.
  unfoldable pub answer_kernel : State × Result ℕ → State × (ℕ × Option Error)
  answer_kernel (s, ok id) = (s, (id, none))
  answer_kernel (s, err e) = (s, (0, some e))

  unfoldable pub build : Fields → State → State × (ℕ × Option Error)
  unfolding visit_field answer_kernel
  build columns s = answer_kernel (
      and_then (visit_children columns s)
        (λ s' ids. visit_field_struct (bytes "root") ids false s'))

-- `ThrowIfDeltaCannotStore` over the columns of a table.
abbrev pub refuse_unsupported : Option LogicalType → Result (Unit {0})
refuse_unsupported none = ok tt
refuse_unsupported (some t) = err (
    error not_implemented
      "%s does not support column '%s' of type %s%s: Delta has no such type. %s")

unfoldable pub throw_if_delta_cannot_store : Fields → Result (Unit {0})
unfolding find_unsupported_type
throw_if_delta_cannot_store end = ok tt
throw_if_delta_cannot_store (field name type rest) =
    refuse_unsupported (find_unsupported_type type) >> throw_if_delta_cannot_store rest

abbrev is_list : LogicalType → Bool
is_list (list element) = true
is_list _ = false

unfoldable mutual
  pub holds_map_with_list_key : LogicalType → Bool
  holds_map_with_list_key (struct fields) = field_holds_map_with_list_key fields
  holds_map_with_list_key (list element) = holds_map_with_list_key element
  holds_map_with_list_key (map_type key value) =
      is_list key || holds_map_with_list_key key || holds_map_with_list_key value
  holds_map_with_list_key _ = false

  pub field_holds_map_with_list_key : Fields → Bool
  field_holds_map_with_list_key end = false
  field_holds_map_with_list_key (field name type rest) =
      holds_map_with_list_key type || field_holds_map_with_list_key rest

unfoldable pub throw_if_map_key_is_list : Fields → Result (Unit {0})
unfolding holds_map_with_list_key
throw_if_map_key_is_list end = ok tt
throw_if_map_key_is_list (field name type rest) =
    if holds_map_with_list_key type
    then err (
        error not_implemented
          "a MAP with a LIST key is a non-nullable list in Delta, which INSERT cannot write yet")
    else throw_if_map_key_is_list rest
