-- ===== src/Examples/Transactions.antt =====
-- A transaction that writes one file, over a kernel that asks the catalog to commit
-- (src/storage/delta_transaction.cpp, src/storage/delta_transaction_manager.cpp).
use duckdb_delta.Prelude.{
  ℕ, ◌/◌, ◌≡◌, refl, inl, true, false, Option, none, some, List, [], ◌∷◌, ◌++◌, String, Result, ok,
  err, Error, error, error_type, internal, All,
}
use duckdb_delta.Prelude.Bytes.{Text, bytes}
use duckdb_delta.DataFile.{DeltaDataFile}
use duckdb_delta.Kernel.{Kernel, AddAction, pos}
use duckdb_delta.Transaction.{
  DeltaTransaction, AccessMode, automatic, read_only, transaction_not_yet_started,
  transaction_finished,
}
use duckdb_delta.Uri.{add_path}
use duckdb_delta.Transaction.Write.{append, is_read_only, rollback}
use duckdb_delta.Transaction.Commit.{commit}
use duckdb_delta.Transaction.Manager.{commit_or_clean}
use duckdb_delta.Transaction.Appends.{append-refuses, Refused}
use duckdb_delta.Transaction.Idempotency.{commit-checks_versions, Accepted}
use duckdb_delta.Transaction.Failure.{
  commit_or_clean-removes, commit_or_clean-error, OnlyCallsBack, CleanedUp,
}

abbrev answered : {T : Type 0} → (T × List Text) × Option String → (T × List Text) × Result ℕ
answered (s, none) = (s, ok 8)
answered (s, some m) = (s, err (error internal m))

-- The world lists the removed files; the handle lists the rows handed over; the table at version 7
-- holds version 3 of every application.
abbrev toy : Kernel
toy = record {
  World = List Text;
  Snapshot = Text;
  KernelTransaction = List AddAction;
  Builder = Text;
  Committer = Text;
  EngineData = List AddAction;
  get_epoch_ms = λ micros. micros / 1000;
  get_last_modified_time = λ w name. ok 42000;
  try_remove_file = λ w name. (w ++ name ∷ [], ok true);
  get_path = λ s. s;
  get_version = λ s. 7;
  is_catalog_managed = λ s. false;
  unset_version = none;
  get_app_id_version = λ s id. ok (some (pos 3));
  new_update_table_txn_builder = λ s. ok s;
  get_uc_committer = λ p. ok p;
  build_with_committer = λ b c. ok [];
  build = λ b. ok [];
  get_engine_data = λ rows. ok rows;
  add_files = λ handle rows. some rows;
  with_transaction_id = λ handle id n. ok [];
  commit = λ callback handle s. answered (callback none s);
}

answered-keeps :
    {T : Type 0} (P : T → Type 0) (r : (T × List Text) × Option String)
    → P r.0.0
    → P (answered r).0.0
answered-keeps P (s, none) p = p
answered-keeps P (s, some m) p = p

toy-OnlyCallsBack : OnlyCallsBack toy
toy-OnlyCallsBack T P callback handle s keep p = answered-keeps P (callback none s) (keep none s p)

abbrev file : DeltaDataFile
file = record {
  file_name = bytes "/t/a b.parquet";
  row_count = 10;
  file_size_bytes = 512;
  footer_size = 64;
  partition_values = [];
  last_modified_time = 0;
  column_stats = [];
}

abbrev table : AccessMode → DeltaTransaction toy
table mode = record {
  table_entry = some (bytes "/t");
  transaction_state = transaction_not_yet_started;
  access_mode = mode;
  outstanding_appends = [];
  kernel_transaction = none;
  write_entry = none;
  app_versions = (bytes "app", record { new_version = 4; expected_version = some 3 }) ∷ [];
  parent_commit = false;
  commit_function = none;
  unity_table_id = [];
  context = true;
  current_context = false;
  parent_table_entry = false;
  active_error = none;
}

abbrev written : DeltaTransaction toy
written = (append toy (file ∷ []) (table automatic, [])).0.0

append-refuses_example :
    Refused toy (table read_only) [] (append toy (file ∷ []) (table read_only, []))
unfolding is_read_only
append-refuses_example =
    append-refuses toy (table read_only) [] (file ∷ []) (bytes "/t") refl refl (inl refl)

commit-checks_versions_example :
    ((commit toy (written, [])).1 ≡ ok tt → All (Accepted toy (bytes "/t")) written.app_versions)
    × (¬ All (Accepted toy (bytes "/t")) written.app_versions
        → (t' : DeltaTransaction toy) × (e : Error) × (commit toy (written, [])
            ≡ ((t', []), err e)))
unfolding append add_path
commit-checks_versions_example = commit-checks_versions toy written [] (bytes "/t") refl refl refl

abbrev callback_error : Error
callback_error = error internal "No parent table entry in Catalog Commit Callback"

commit_or_clean-removes_example :
    let r = commit_or_clean toy (written, []) in
    CleanedUp toy written (commit toy (written, [])).0.1 callback_error r
    × (r.0.0.transaction_state ≡ transaction_finished)
    × (rollback toy r.0 ≡ (r.0, ok tt))
unfolding append commit add_path
commit_or_clean-removes_example =
    commit_or_clean-removes toy written [] callback_error toy-OnlyCallsBack refl refl refl

commit_or_clean-error_example :
    ((commit toy (written, [])).1 ≡ ok tt
      → commit_or_clean toy (written, []) ≡ ((commit toy (written, [])).0, none))
    × ((e : Error)
        → (commit toy (written, [])).1 ≡ err e
        → (e' : Error) × ((commit_or_clean toy (written, [])).1 ≡ some e')
          × (error_type e' ≡ error_type e))
commit_or_clean-error_example = commit_or_clean-error toy (written, [])
