-- ===== src/Transaction/Write.antt =====
-- How a transaction takes files in: `CleanUpFiles`, `Rollback`, `CreateCatalogCommitter`,
-- `InitializeTransaction` and `Append` (src/storage/delta_transaction.cpp), and the rows of
-- `WriteMetaData`.
use duckdb_delta.Prelude.{
  Bool, true, false, not, ◌&&◌, Option, none, some, List, [], ◌∷◌, ◌++◌, is_empty, if◌then◌else◌,
  Result, ok, err, error, undefined, invalid_input, invalid, ◌>>=◌, and_then,
}
use duckdb_delta.Prelude.Bytes.{Text}
use duckdb_delta.DataFile.{DeltaDataFile}
use duckdb_delta.Kernel.{AddAction, Kernel}
use duckdb_delta.Uri.{add_path}
use duckdb_delta.Transaction.{
  DeltaTransaction, DeltaTransactionState, AccessMode, read_only, transaction_not_yet_started,
  transaction_started, transaction_finished, M, State,
}

unfoldable pub is_read_only : AccessMode → Bool
is_read_only read_only = true
is_read_only _ = false

module _ (K : Kernel) where
  open K use {World, Snapshot, KernelTransaction, Builder, Committer, EngineData}

  unfoldable pub start : DeltaTransaction K → DeltaTransaction K
  start t = record t { transaction_state = transaction_not_yet_started }

  -- `WriteMetaData`: the row of one file. The exception is that of `substr`.
  unfoldable pub add_action : Text → DeltaDataFile → Result AddAction
  add_action table_path file = elim (add_path table_path file.file_name) [
    | none ↦ err (error invalid "basic_string::substr")
    | some path ↦ ok (record {
      path = path;
      partition_values = file.partition_values;
      size = file.file_size_bytes;
      modification_time = K.get_epoch_ms file.last_modified_time;
      row_count = file.row_count;
      stats = file.column_stats;
    })
  ]

  unfoldable pub add_actions : Text → List DeltaDataFile → Result (List AddAction)
  unfolding add_action
  add_actions table_path [] = ok []
  add_actions table_path (file ∷ files) =
      add_action table_path file >>= λ row. add_actions table_path files >>= λ rows. ok (row ∷ rows)

  unfoldable pub create_add_files_engine_data : Text → List DeltaDataFile → Result EngineData
  unfolding add_actions
  create_add_files_engine_data table_path files = add_actions table_path files >>= K.get_engine_data

  -- The loop of `CleanUpFiles`: a removal that throws leaves the rest.
  unfoldable pub remove_files : List DeltaDataFile → World → World × Result (Unit {0})
  remove_files [] w = (w, ok tt)
  remove_files (file ∷ files) w =
      let (w', removed) = K.try_remove_file w file.file_name in
      elim removed [ ok done ↦ remove_files files w' | err e ↦ (w', err e) ]

  -- The files are removed only while the client is still there.
  unfoldable pub remove_appends : Bool → List DeltaDataFile → World → World × Result (Unit {0})
  unfolding remove_files
  remove_appends true files w = remove_files files w
  remove_appends false files w = (w, ok tt)

  unfoldable pub clear_appends :
      DeltaTransaction K → World × Result (Unit {0}) → State K × Result (Unit {0})
  clear_appends t (w, ok done) = ((record t { outstanding_appends = [] }, w), ok tt)
  clear_appends t (w, err e) = ((t, w), err e)

  unfoldable pub clean_up_files : M K (Unit {0})
  unfolding remove_appends clear_appends
  clean_up_files (t, w) = clear_appends t (remove_appends t.context t.outstanding_appends w)

  unfoldable pub rollback_in : DeltaTransactionState → M K (Unit {0})
  unfolding clean_up_files
  rollback_in transaction_started (t, w) =
      clean_up_files (record t { transaction_state = transaction_finished }, w)
  rollback_in transaction_not_yet_started s = (s, ok tt)
  rollback_in transaction_finished s = (s, ok tt)

  unfoldable pub rollback : M K (Unit {0})
  unfolding rollback_in
  rollback (t, w) = rollback_in t.transaction_state (t, w)

  -- `CreateCatalogCommitter`. The callback and the placeholders it passes are in `commit`.
  unfoldable pub create_catalog_committer : DeltaTransaction K → Text → Result Committer
  create_catalog_committer t table_path =
      K.get_uc_committer (if is_empty t.unity_table_id then table_path else t.unity_table_id)

  -- The kernel transaction of `InitializeTransaction`, by the builder.
  unfoldable pub build_transaction : DeltaTransaction K → Snapshot → Result KernelTransaction
  unfolding create_catalog_committer
  build_transaction t entry =
      if not t.parent_commit && K.is_catalog_managed entry
      then err
          (error invalid_input "a catalog-managed Delta table: attach the catalog that owns it")
      else K.new_update_table_txn_builder entry >>= λ builder.
          if t.parent_commit
          then create_catalog_committer t (K.get_path entry) >>= K.build_with_committer builder
          else K.build builder

  -- The part of `InitializeTransaction` past `D_ASSERT(table_entry)`.
  unfoldable pub begin_writing : Option Snapshot → M K (Unit {0})
  unfolding build_transaction
  begin_writing none s = (s, err undefined)
  begin_writing (some entry) (t, w) = elim (build_transaction t entry) [
    | err e ↦ ((t, w), err e)
    | ok k ↦ ((record t { kernel_transaction = some k; write_entry = some entry }, w), ok tt)
  ]

  unfoldable pub initialize_transaction : M K (Unit {0})
  unfolding begin_writing is_read_only
  initialize_transaction (t, w) =
      if is_read_only t.access_mode
      then (
        (record t { current_context = true }, w),
        err (error invalid_input "Can not append to a read only table"),
      )
      else begin_writing t.table_entry
          (record t { current_context = true; transaction_state = transaction_started }, w)

  -- The loop of `Append` over the new files, in place: a file that cannot be opened leaves the
  -- later ones as they were.
  unfoldable pub stamp_files : World → List DeltaDataFile → List DeltaDataFile × Result (Unit {0})
  stamp_files w [] = ([], ok tt)
  stamp_files w (file ∷ files) =
      let rest = stamp_files w files in
      elim (K.get_last_modified_time w file.file_name) [
        | err e ↦ (file ∷ files, err e)
        | ok time ↦ (record file { last_modified_time = time } ∷ rest.0, rest.1)
      ]

  -- The part of `Append` that hands the stamped files to the kernel.
  unfoldable pub add_new_files : Option Snapshot → List DeltaDataFile → M K (Unit {0})
  unfolding create_add_files_engine_data
  add_new_files entry [] s = (s, ok tt)
  add_new_files none (f ∷ fs) s = (s, err undefined)
  add_new_files (some entry) (f ∷ fs) (t, w) =
      elim (create_add_files_engine_data (K.get_path entry) (f ∷ fs)) [
        | err e ↦ ((t, w), err e)
        | ok rows ↦
            ((record t { kernel_transaction = K.add_files t.kernel_transaction rows }, w), ok tt)
      ]

  -- `Append` past the initialization.
  unfoldable pub append_files : List DeltaDataFile → M K (Unit {0})
  unfolding stamp_files add_new_files
  append_files files (t, w) =
      let stamped = stamp_files w files in
      let t' = record t { outstanding_appends = t.outstanding_appends ++ stamped.0 } in
      elim stamped.1 [
        | err e ↦ ((t', w), err e)
        | ok done ↦ add_new_files t.table_entry stamped.0 (t', w)
      ]

  unfoldable pub append_in : DeltaTransactionState → List DeltaDataFile → M K (Unit {0})
  unfolding initialize_transaction append_files
  append_in transaction_not_yet_started files s =
      and_then (initialize_transaction s) (λ s' done. append_files files s')
  append_in transaction_started files s = append_files files s
  append_in transaction_finished files s = append_files files s

  unfoldable pub append : List DeltaDataFile → M K (Unit {0})
  unfolding append_in
  append files (t, w) = append_in t.transaction_state files (t, w)
