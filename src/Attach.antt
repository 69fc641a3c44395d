-- ===== src/Attach.antt =====
-- The options of ATTACH: `DeltaCatalogAttach` (src/delta_extension.cpp), up to the lookup of the parent
-- catalog's commit function.
pub mod Exclusive
use duckdb_delta.Prelude.{
  ℕ, Bool, true, false, Option, none, some, List, [], ◌∷◌, Result, ok, err, error, invalid_input,
  binder, ◌==◌, if◌then◌else◌, ◌>>=◌, ◌>>◌,
}
use duckdb_delta.Prelude.Bytes.{Text, bytes, text_eq}
use duckdb_delta.Kernel.{ℤ}
use duckdb_delta.TimeTravel.{
  invalid_index, Timestamp, timestamp_to_epoch_ms, reject_future_timestamp,
}
use duckdb_delta.Transaction.{AccessMode, read_only}

-- An option's value, by DuckDB's casts of it.
pub record OptionValue : Type 0 where
  pub as_bool : Result Bool
  pub as_text : Result Text
  pub as_ubigint : Result ℕ
  pub as_bigint : Result ℤ
  pub as_timestamp_tz : Result Timestamp

-- The option names that the loop tells apart.
pub data AttachOption : Type 0 where
  pin_snapshot pushdown_partition_info pushdown_filters version timestamp internal_table_name :
      AttachOption
  child_catalog_mode parent_catalog parent_catalog_schema parent_commit log_tail : AttachOption
  max_catalog_version unity_table_id unrecognized : AttachOption

unfoldable pub option_of_name : Text → AttachOption
option_of_name name =
    if text_eq name (bytes "pin_snapshot")
    then pin_snapshot
    else if text_eq name (bytes "pushdown_partition_info")
    then pushdown_partition_info
    else if text_eq name (bytes "pushdown_filters")
    then pushdown_filters
    else if text_eq name (bytes "version")
    then version
    else if text_eq name (bytes "timestamp")
    then timestamp
    else if text_eq name (bytes "internal_table_name")
    then internal_table_name
    else if text_eq name (bytes "child_catalog_mode")
    then child_catalog_mode
    else if text_eq name (bytes "parent_catalog")
    then parent_catalog
    else if text_eq name (bytes "parent_catalog_schema")
    then parent_catalog_schema
    else if text_eq name (bytes "parent_commit")
    then parent_commit
    else if text_eq name (bytes "log_tail")
    then log_tail
    else if text_eq name (bytes "max_catalog_version")
    then max_catalog_version
    else if text_eq name (bytes "unity_table_id")
    then unity_table_id
    else unrecognized

pub data DeltaFilterPushdownMode : Type 0 where
  pushdown_none pushdown_all pushdown_constant_only pushdown_dynamic_only : DeltaFilterPushdownMode

-- `StringUtil::Lower` is DuckDB's.
unfoldable pub mode_of_string : (Text → Text) → Text → Result DeltaFilterPushdownMode
mode_of_string lower s =
    if text_eq (lower s) (bytes "none")
    then ok pushdown_none
    else if text_eq (lower s) (bytes "all")
    then ok pushdown_all
    else if text_eq (lower s) (bytes "constant_only")
    then ok pushdown_constant_only
    else if text_eq (lower s) (bytes "dynamic_only")
    then ok pushdown_dynamic_only
    else err (error invalid_input "Unknown Filter pushdown mode: %s")

-- `now_ms` is the transaction's clock.
module _ (lower : Text → Text) (get_epoch_ms : ℤ → ℤ) (now_ms : ℤ) where
  -- The fields of `DeltaCatalog` that an option sets.
  pub record Attached : Type 0 where
    pub access_mode : AccessMode
    pub use_cache : Bool
    pub use_specific_version : ℕ
    pub has_specific_timestamp : Bool
    pub specific_timestamp : Timestamp
    pub pushdown_partition_info : Bool
    pub filter_pushdown_mode : DeltaFilterPushdownMode
    pub internal_table_name : Text
    pub child_catalog_mode : Bool
    pub parent_catalog_name : Text
    pub parent_catalog_schema : Text
    pub parent_commit : Bool
    pub catalog_log_tail : Option OptionValue
    pub max_catalog_version : ℤ
    pub unity_table_id : Text

  abbrev pub exclusive : Result Attached
  exclusive = err (error invalid_input "ATTACH: 'version' and 'timestamp' are mutually exclusive")

  unfoldable pub set_version : OptionValue → Attached → Result Attached
  set_version value c =
      if c.has_specific_timestamp
      then exclusive
      else value.as_ubigint >>= λ v.
          ok (record c { use_cache = true; use_specific_version = v; access_mode = read_only })

  unfoldable pub set_timestamp : OptionValue → Attached → Result Attached
  unfolding timestamp_to_epoch_ms reject_future_timestamp
  set_timestamp value c =
      if c.use_specific_version == invalid_index
      then (value.as_timestamp_tz >>= λ t. timestamp_to_epoch_ms get_epoch_ms t >>= λ ms.
          reject_future_timestamp now_ms ms
          >> ok (record c {
            use_cache = true;
            has_specific_timestamp = true;
            specific_timestamp = t;
            access_mode = read_only;
          }))
      else exclusive

  unfoldable pub apply_option : AttachOption → OptionValue → Attached → Result Attached
  unfolding set_version set_timestamp mode_of_string
  apply_option pin_snapshot value c = value.as_bool >>= λ b. ok (record c { use_cache = b })
  apply_option pushdown_partition_info value c =
      value.as_bool >>= λ b. ok (record c { pushdown_partition_info = b })
  apply_option pushdown_filters value c = value.as_text >>= λ s.
      mode_of_string lower s >>= λ mode. ok (record c { filter_pushdown_mode = mode })
  apply_option version value c = set_version value c
  apply_option timestamp value c = set_timestamp value c
  apply_option internal_table_name value c =
      value.as_text >>= λ s. ok (record c { internal_table_name = s })
  apply_option child_catalog_mode value c =
      value.as_bool >>= λ b. ok (record c { child_catalog_mode = b })
  apply_option parent_catalog value c =
      value.as_text >>= λ s. ok (record c { parent_catalog_name = s })
  apply_option parent_catalog_schema value c =
      value.as_text >>= λ s. ok (record c { parent_catalog_schema = s })
  apply_option parent_commit value c = value.as_bool >>= λ b. ok (record c { parent_commit = b })
  apply_option log_tail value c = ok (record c { catalog_log_tail = some value })
  apply_option max_catalog_version value c =
      value.as_bigint >>= λ z. ok (record c { max_catalog_version = z })
  apply_option unity_table_id value c = value.as_text >>= λ s. ok (record c { unity_table_id = s })
  apply_option unrecognized value c = err (error binder "Unrecognized option for Delta attach: %s")

  -- The loop over the options, in the order of the map.
  unfoldable pub apply_options : List (Text × OptionValue) → Attached → Result Attached
  unfolding apply_option option_of_name
  apply_options [] c = ok c
  apply_options ((name, value) ∷ rest) c =
      apply_option (option_of_name name) value c >>= λ c'. apply_options rest c'
