-- ===== src/Kernel.antt =====
-- What the extension calls and does not implement: delta-kernel-rs behind its C interface
-- (include/delta_kernel_ffi.hpp) and DuckDB's file system. Every call that reads or writes storage
-- takes the `World`, the storage and all that is outside the process.
use duckdb_delta.Prelude.{ℕ, Bool, Option, List, String, Result}
use duckdb_delta.Prelude.Bytes.{Text}
use duckdb_delta.DataFile.{DeltaPartition, DeltaColumnStats}

pub data ℤ : Type 0 where
  pos : ℕ → ℤ
  negsuc : ℕ → ℤ

-- One row of the engine data that `CreateAddFilesEngineData` hands over.
pub record AddAction : Type 0 where
  pub path : Text
  pub partition_values : List DeltaPartition
  pub size : ℕ
  pub modification_time : ℕ
  pub row_count : ℕ
  pub stats : List (List Text × DeltaColumnStats)

-- `ffi::Commit`, the staged commit that a catalog has to take over.
pub record StagedCommit : Type 0 where
  pub file_name : Text
  pub file_size : ℤ
  pub timestamp : ℤ
  pub version : ℤ
  pub file_modification_timestamp : ℤ

pub record Kernel : Type 1 where
  pub World : Type 0
  pub Snapshot : Type 0
  pub KernelTransaction : Type 0
  pub Builder : Type 0
  pub Committer : Type 0
  pub EngineData : Type 0
  -- DuckDB's file system
  -- a file's time is in microseconds; `Timestamp::GetEpochMs`
  pub get_epoch_ms : ℕ → ℕ
  pub get_last_modified_time : World → Text → Result ℕ
  pub try_remove_file : World → Text → World × Result Bool
  -- snapshots
  pub get_path : Snapshot → Text
  pub get_version : Snapshot → ℕ
  pub is_catalog_managed : Snapshot → Bool
  -- what an `OptionalValue<int64_t>` holds before it is given a value
  pub unset_version : Option ℤ
  pub get_app_id_version : Snapshot → Text → Result (Option ℤ)
  -- update transactions; a null handle is `none`
  pub new_update_table_txn_builder : Snapshot → Result Builder
  pub get_uc_committer : Text → Result Committer
  pub build_with_committer : Builder → Committer → Result KernelTransaction
  pub build : Builder → Result KernelTransaction
  pub get_engine_data : List AddAction → Result EngineData
  pub add_files : Option KernelTransaction → EngineData → Option KernelTransaction
  pub with_transaction_id : Option KernelTransaction → Text → ℕ → Result KernelTransaction
  -- The commit may call back, with a staged commit or without one, any number of times.
  pub commit :
      {T : Type 0}
      → (Option StagedCommit → T × World → (T × World) × Option String)
      → Option KernelTransaction
      → T × World
      → (T × World) × Result ℕ
