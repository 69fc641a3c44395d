-- ===== src/TableProperties.antt =====
-- The table properties that Delta has: `DeltaTableProperties` (src/delta_table_properties.cpp).
pub mod Spelling
use duckdb_delta.Prelude.{
  Bool, Option, none, some, List, [], ◌∷◌, ◌++◌, map, Result, ok, err, error, invalid_input,
  if◌then◌else◌,
}
use duckdb_delta.Prelude.Bytes.{Text, bytes, text_eq, starts_with}

-- `KERNEL_TABLE_PROPERTIES`
abbrev pub kernel_table_properties : List Text
kernel_table_properties =
    bytes "delta.appendOnly"
    ∷ bytes "delta.autoOptimize.autoCompact"
    ∷ bytes "delta.autoOptimize.optimizeWrite"
    ∷ bytes "delta.checkpointInterval"
    ∷ bytes "delta.checkpoint.writeStatsAsJson"
    ∷ bytes "delta.checkpoint.writeStatsAsStruct"
    ∷ bytes "delta.columnMapping.mode"
    ∷ bytes "delta.columnMapping.maxColumnId"
    ∷ bytes "delta.dataSkippingNumIndexedCols"
    ∷ bytes "delta.dataSkippingStatsColumns"
    ∷ bytes "delta.deletedFileRetentionDuration"
    ∷ bytes "delta.enableChangeDataFeed"
    ∷ bytes "delta.enableDeletionVectors"
    ∷ bytes "delta.enableTypeWidening"
    ∷ bytes "delta.enableIcebergCompatV1"
    ∷ bytes "delta.enableIcebergCompatV2"
    ∷ bytes "delta.enableIcebergCompatV3"
    ∷ bytes "delta.isolationLevel"
    ∷ bytes "delta.logRetentionDuration"
    ∷ bytes "delta.enableExpiredLogCleanup"
    ∷ bytes "delta.randomizeFilePrefixes"
    ∷ bytes "delta.randomPrefixLength"
    ∷ bytes "delta.setTransactionRetentionDuration"
    ∷ bytes "delta.targetFileSize"
    ∷ bytes "delta.tuneFileSizesForRewrites"
    ∷ bytes "delta.checkpointPolicy"
    ∷ bytes "delta.enableRowTracking"
    ∷ bytes "delta.rowTracking.materializedRowIdColumnName"
    ∷ bytes "delta.rowTracking.materializedRowCommitVersionColumnName"
    ∷ bytes "delta.rowTrackingSuspended"
    ∷ bytes "delta.parquet.format.version"
    ∷ bytes "delta.parquet.compression.codec"
    ∷ bytes "delta.enableInCommitTimestamps"
    ∷ bytes "delta.inCommitTimestampEnablementVersion"
    ∷ bytes "delta.inCommitTimestampEnablementTimestamp"
    ∷ []

-- `DUCKDB_DELTA_TABLE_PROPERTIES`
abbrev pub duckdb_delta_table_properties : List Text
duckdb_delta_table_properties = bytes "delta.enableVariantShredding" ∷ []

-- `KERNEL_TABLE_FEATURES`
abbrev pub kernel_table_features : List Text
kernel_table_features =
    bytes "appendOnly"
    ∷ bytes "invariants"
    ∷ bytes "checkConstraints"
    ∷ bytes "changeDataFeed"
    ∷ bytes "generatedColumns"
    ∷ bytes "identityColumns"
    ∷ bytes "inCommitTimestamp"
    ∷ bytes "rowTracking"
    ∷ bytes "domainMetadata"
    ∷ bytes "icebergCompatV1"
    ∷ bytes "icebergCompatV2"
    ∷ bytes "icebergCompatV3"
    ∷ bytes "icebergNativeV4-preview"
    ∷ bytes "clustering"
    ∷ bytes "materializePartitionColumns"
    ∷ bytes "catalogManaged"
    ∷ bytes "catalogOwned-preview"
    ∷ bytes "columnMapping"
    ∷ bytes "deletionVectors"
    ∷ bytes "timestampNtz"
    ∷ bytes "typeWidening"
    ∷ bytes "typeWidening-preview"
    ∷ bytes "v2Checkpoint"
    ∷ bytes "vacuumProtocolCheck"
    ∷ bytes "variantType"
    ∷ bytes "variantType-preview"
    ∷ bytes "variantShredding"
    ∷ bytes "variantShredding-preview"
    ∷ bytes "adaptiveMetadata-preview"
    ∷ bytes "allowColumnDefaults"
    ∷ bytes "geospatial"
    ∷ []

-- `PROTOCOL_PROPERTIES`
abbrev pub protocol_properties : List Text
protocol_properties = bytes "delta.minReaderVersion" ∷ bytes "delta.minWriterVersion" ∷ []

unfoldable pub known_keys : List Text
known_keys =
    kernel_table_properties
    ++ (duckdb_delta_table_properties
        ++ (map (λ (feature : Text). bytes "delta.feature." ++ feature) kernel_table_features
            ++ protocol_properties))

-- `StringUtil::Lower` and `StringUtil::CIEquals` are DuckDB's.
module _ (lower : Text → Text) (ci_equals : Text → Text → Bool) where
  unfoldable pub is_delta_key : Text → Bool
  is_delta_key key = starts_with (lower key) (bytes "delta.")

  unfoldable pub find_key : Text → List Text → Option Text
  find_key key [] = none
  find_key key (known ∷ rest) = if ci_equals known key then some known else find_key key rest

  unfoldable pub find_known_key : Text → Option Text
  unfolding find_key known_keys
  find_known_key key = find_key key known_keys

  abbrev pub check_spelling : Text → Option Text → Result (Unit {0})
  check_spelling key none = err (error invalid_input "%s: unknown Delta table property '%s'\n%s")
  check_spelling key (some known) =
      if text_eq known key
      then ok tt
      else err (
          error invalid_input
            "%s: Delta table property keys are case-sensitive: '%s' is spelled '%s'")

  unfoldable pub throw_if_unknown_delta_key : Text → Result (Unit {0})
  unfolding is_delta_key find_known_key
  throw_if_unknown_delta_key key =
      if is_delta_key key then check_spelling key (find_known_key key) else ok tt
