-- ===== src/Transaction/Manager.antt =====
-- `DeltaTransactionManager` (src/storage/delta_transaction_manager.cpp), and the constructor of
-- `DeltaTransaction` (src/storage/delta_transaction.cpp). The map `transactions` goes by the
-- transaction's identity, here a number.
use duckdb_delta.Prelude.{
  ℕ, Bool, true, false, Option, none, some, List, [], ◌∷◌, ◌==◌, if◌then◌else◌, Result, ok, err,
  Error, undefined, multiple,
}
use duckdb_delta.Prelude.Bytes.{Text}
use duckdb_delta.Kernel.{StagedCommit, Kernel}
use duckdb_delta.Transaction.{
  DeltaTransaction, AccessMode, CallbackOutcome, transaction_not_yet_started, State,
}
use duckdb_delta.Transaction.Write.{clean_up_files, rollback, start}
use duckdb_delta.Transaction.Commit.{commit}

module _ (K : Kernel) where
  open K use {World}

  -- The fields of the catalog that a transaction copies.
  pub record CatalogSettings : Type 0 where
    pub access_mode : AccessMode
    pub parent_commit : Bool
    pub commit_function : Option (StagedCommit → World → World × CallbackOutcome)
    pub unity_table_id : Text

  unfoldable pub new_transaction : CatalogSettings → DeltaTransaction K
  unfolding start
  new_transaction c = start K (record {
    table_entry = none;
    transaction_state = transaction_not_yet_started;
    access_mode = c.access_mode;
    outstanding_appends = [];
    kernel_transaction = none;
    write_entry = none;
    app_versions = [];
    parent_commit = c.parent_commit;
    commit_function = c.commit_function;
    unity_table_id = c.unity_table_id;
    context = true;
    current_context = false;
    parent_table_entry = false;
    active_error = none;
  })

  abbrev pub Manager : Type 0
  Manager = List (ℕ × DeltaTransaction K)

  unfoldable pub find_transaction : ℕ → Manager → Option (DeltaTransaction K)
  find_transaction id [] = none
  find_transaction id ((key, t) ∷ m) = if key == id then some t else find_transaction id m

  unfoldable pub erase_transaction : ℕ → Manager → Manager
  erase_transaction id [] = []
  erase_transaction id ((key, t) ∷ m) =
      if key == id then erase_transaction id m else (key, t) ∷ erase_transaction id m

  -- The transaction object changes in place.
  unfoldable pub put_transaction : ℕ → DeltaTransaction K → Manager → Manager
  put_transaction id t [] = []
  put_transaction id t ((key, old) ∷ m) =
      (key, (if key == id then t else old)) ∷ put_transaction id t m

  unfoldable pub start_transaction : CatalogSettings → ℕ → Manager → Manager
  unfolding new_transaction
  start_transaction c id m = (id, new_transaction c) ∷ m

  unfoldable pub conflict_error : Error → State K × Result (Unit {0}) → State K × Error
  conflict_error original (s, ok done) = (s, original)
  conflict_error original (s, err e) = (s, multiple original e)

  unfoldable pub handle_conflict : Error → State K → State K × Error
  unfolding clean_up_files conflict_error
  handle_conflict original s = conflict_error original (clean_up_files K s)

  unfoldable pub settle : State K × Result (Unit {0}) → State K × Option Error
  unfolding handle_conflict
  settle (s, ok done) = (s, none)
  settle (s, err e) = ((handle_conflict e s).0, some (handle_conflict e s).1)

  -- `CommitTransaction` on the transaction object: `none` is success, and only then is the
  -- transaction forgotten.
  unfoldable pub commit_or_clean : State K → State K × Option Error
  unfolding commit settle
  commit_or_clean s = settle (commit K s)

  unfoldable pub commit_transaction : ℕ → Manager × World → (Manager × World) × Option Error
  unfolding commit_or_clean find_transaction erase_transaction put_transaction
  commit_transaction id (m, w) = elim (find_transaction id m) [
    | none ↦ ((m, w), some undefined)
    | some t ↦
        let ((t', w'), error) = commit_or_clean (t, w) in
        elim error [
          | none ↦ ((erase_transaction id m, w'), none)
          | some e ↦ ((put_transaction id t' m, w'), some e)
        ]
  ]

  unfoldable pub rollback_transaction : ℕ → Manager × World → (Manager × World) × Option Error
  unfolding rollback find_transaction erase_transaction put_transaction
  rollback_transaction id (m, w) = elim (find_transaction id m) [
    | none ↦ ((m, w), some undefined)
    | some t ↦
        let ((t', w'), result) = rollback K (t, w) in
        elim result [
          | ok done ↦ ((erase_transaction id m, w'), none)
          | err e ↦ ((put_transaction id t' m, w'), some e)
        ]
  ]
