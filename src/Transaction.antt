-- ===== src/Transaction.antt =====
-- `DeltaTransaction` (src/include/storage/delta_transaction.hpp, src/storage/delta_transaction.cpp).
pub mod Write
pub mod Commit
pub mod Manager
pub mod Appends
pub mod Idempotency
pub mod Failure
use duckdb_delta.Prelude.{
  ℕ, ◌+◌, ◌^◌, Bool, true, false, not, ◌&&◌, ◌||◌, Option, none, some, List, [], ◌∷◌, ◌++◌, String,
  is_empty, ltb, ◌==◌, if◌then◌else◌, Result, ok, err, Error, error, undefined, invalid_input,
  internal, transaction, invalid, ◌>>=◌, ◌>>◌,
}
use duckdb_delta.Prelude.Bytes.{Text, text_eq}
use duckdb_delta.DataFile.{DeltaDataFile}
use duckdb_delta.Kernel.{ℤ, pos, negsuc, AddAction, StagedCommit, Kernel}

pub data DeltaTransactionState : Type 0 where
  transaction_not_yet_started transaction_started transaction_finished : DeltaTransactionState

pub data AccessMode : Type 0 where
  automatic read_only read_write : AccessMode

pub record TransactionVersion : Type 0 where
  pub new_version : ℕ
  pub expected_version : Option ℕ

-- What the commit function of the parent catalog leaves in its second column, or throws.
pub data CallbackOutcome : Type 0 where
  value : Option Bool → CallbackOutcome
  raises : Error → CallbackOutcome
  raises_other : CallbackOutcome

module _ (K : Kernel) where
  open K use {World, Snapshot, KernelTransaction, Builder, Committer, EngineData}

  pub record DeltaTransaction : Type 0 where
    pub table_entry : Option Snapshot
    pub transaction_state : DeltaTransactionState
    pub access_mode : AccessMode
    pub outstanding_appends : List DeltaDataFile
    pub kernel_transaction : Option KernelTransaction
    pub write_entry : Option Snapshot
    pub app_versions : List (Text × TransactionVersion)
    pub parent_commit : Bool
    pub commit_function : Option (StagedCommit → World → World × CallbackOutcome)
    pub unity_table_id : Text
    pub context : Bool
    pub current_context : Bool
    pub parent_table_entry : Bool
    pub active_error : Option Error

  -- A method leaves the transaction and the world as they are when it returns or throws.
  abbrev pub State : Type 0
  State = DeltaTransaction × World

  abbrev pub M : Type 0 → Type 0
  M A = State → State × Result A
