-- ===== src/Transaction/Commit.antt =====
-- `CommitCallback`, `Commit` and `SetTransactionVersion` (src/storage/delta_transaction.cpp), and the
-- transaction manager above them (src/storage/delta_transaction_manager.cpp).
use duckdb_delta.Prelude.{
  ℕ, ◌^◌, Bool, true, false, not, Option, none, some, List, [], ◌∷◌, ◌++◌, String, is_empty, ltb,
  ◌==◌, if◌then◌else◌, Result, ok, err, Error, error, undefined, error_message, internal,
  transaction, ◌>>=◌, and_then,
}
use duckdb_delta.Prelude.Bytes.{Text, text_eq}
use duckdb_delta.Kernel.{ℤ, pos, negsuc, StagedCommit, Kernel}
use duckdb_delta.Transaction.{
  DeltaTransaction, DeltaTransactionState, TransactionVersion, CallbackOutcome, value, raises,
  raises_other, transaction_not_yet_started, transaction_started, transaction_finished, M, State,
}

-- `actual_version == expected_version`, of an int64 and an unsigned number or NULL.
unfoldable pub versions_match : Option ℤ → Option ℕ → Bool
versions_match none none = true
versions_match none (some m) = false
versions_match (some z) none = false
versions_match (some (pos n)) (some m) = n == m
versions_match (some (negsuc n)) (some m) = false

-- `NumericCast<int64_t>`
unfoldable pub numeric_cast_int64 : ℕ → Result ℕ
numeric_cast_int64 n = if ltb n (2 ^ 63) then ok n else err (error internal "numeric cast")

-- Whether the version that the log holds for an application is not the expected one. After a failing
-- lookup, with no version expected, the code compares what its variable holds without a value: `unset`.
unfoldable pub version_differs : Option ℤ → Result (Option ℤ) → Option ℕ → Bool
unfolding versions_match
version_differs unset (ok actual) expected = not (versions_match actual expected)
version_differs unset (err e) none = not (versions_match unset none)
version_differs unset (err e) (some m) = true

unfoldable pub has_app_version : Text → List (Text × TransactionVersion) → Bool
has_app_version app_id [] = false
has_app_version app_id ((key, v) ∷ rest) =
    if text_eq key app_id then true else has_app_version app_id rest

module _ (K : Kernel) where
  open K use {World, Snapshot, KernelTransaction}

  -- `app_versions.insert`, which keeps what is there.
  unfoldable pub set_transaction_version :
      Text → ℕ → Option ℕ → DeltaTransaction K → DeltaTransaction K
  unfolding has_app_version
  set_transaction_version app_id new_version expected t =
      if has_app_version app_id t.app_versions then t else record t {
        app_versions =
            t.app_versions
            ++ (app_id, record { new_version = new_version; expected_version = expected }) ∷ [];
      }

  -- `CommitCallback` past its first two tests, up to its `catch`.
  unfoldable pub invoke_commit_function :
      DeltaTransaction K → Option StagedCommit → World → World × CallbackOutcome
  invoke_commit_function t none w =
      (w, raises (error internal "CommitCallback received request without commit_info"))
  invoke_commit_function t (some staged) w = elim t.commit_function [
    | none ↦ (w, raises (error internal "No commit function found in Catalog Commit Callback"))
    | some function ↦ function staged w
  ]

  unfoldable pub callback_outcome :
      DeltaTransaction K → Option StagedCommit → World → World × CallbackOutcome
  unfolding invoke_commit_function
  callback_outcome t request w =
      if not t.current_context
      then (w, raises (error internal "No current client context in Catalog Commit Callback"))
      else elim t.write_entry [
        | none ↦ (w, raises (error internal "No write entry in Catalog Commit Callback"))
        | some entry ↦
            if t.parent_table_entry
            then invoke_commit_function t request w
            else (w, raises (error internal "No parent table entry in Catalog Commit Callback"))
      ]

  -- What the callback returns over the foreign interface, with the error it stores: an exception
  -- cannot cross.
  unfoldable pub answer_callback :
      DeltaTransaction K → World × CallbackOutcome → State K × Option String
  answer_callback t (w, value none) = ((t, w), some "Commit conflict")
  answer_callback t (w, value (some b)) = ((t, w), none)
  answer_callback t (w, raises e) =
      ((record t { active_error = some e }, w), some (error_message e))
  answer_callback t (w, raises_other) =
      ((t, w), some "Unknown error occurred when committing to a Unity Catalog managed commit")

  unfoldable pub commit_callback : Option StagedCommit → State K → State K × Option String
  unfolding callback_outcome answer_callback
  commit_callback request (t, w) = answer_callback t (callback_outcome t request w)

  -- The registered versions, each checked against the log and handed to the kernel transaction,
  -- which is consumed also when that fails.
  unfoldable pub register_version :
      Snapshot
      → Text
      → TransactionVersion
      → DeltaTransaction K
      → DeltaTransaction K × Result (Unit {0})
  unfolding version_differs numeric_cast_int64
  register_version entry app_id v t =
      if version_differs K.unset_version (K.get_app_id_version entry app_id) v.expected_version
      then (
        t,
        err (
            error transaction
              "DeltaTransaction version did not match the expected previous version"),
      )
      else elim (numeric_cast_int64 v.new_version >>= λ n.
          K.with_transaction_id t.kernel_transaction app_id n) [
            | err e ↦ (record t { kernel_transaction = none }, err e)
            | ok k ↦ (record t { kernel_transaction = some k }, ok tt)
          ]

  unfoldable pub register_versions :
      Snapshot
      → List (Text × TransactionVersion)
      → DeltaTransaction K
      → DeltaTransaction K × Result (Unit {0})
  unfolding register_version
  register_versions entry [] t = (t, ok tt)
  register_versions entry ((app_id, v) ∷ rest) t =
      and_then (register_version entry app_id v t) (λ t' done. register_versions entry rest t')

  -- The error that `Commit` throws for a failed kernel commit.
  unfoldable pub commit_error : Option Error → Error → Error
  commit_error (some active) e = active
  commit_error none e = e

  unfoldable pub finish_commit : State K × Result ℕ → State K × Result (Unit {0})
  unfolding commit_error
  finish_commit ((t, w), ok version) = ((t, w), ok tt)
  finish_commit ((t, w), err e) = ((t, w), err (commit_error t.active_error e))

  -- The handle is consumed by the call.
  unfoldable pub kernel_commit : M K (Unit {0})
  unfolding finish_commit commit_callback
  kernel_commit (t, w) =
      finish_commit
        (K.commit commit_callback t.kernel_transaction (record t { kernel_transaction = none }, w))

  -- `Commit` of recorded files, through the table entry.
  unfoldable pub commit_files : Option Snapshot → M K (Unit {0})
  unfolding register_versions kernel_commit
  commit_files none s = (s, err undefined)
  commit_files (some entry) (t, w) =
      let (t', registered) = register_versions entry t.app_versions t in
      and_then ((t', w), registered) (λ s done. kernel_commit s)

  -- `Commit` past its test of the state.
  unfoldable pub commit_started : M K (Unit {0})
  unfolding commit_files
  commit_started (t, w) =
      if is_empty t.outstanding_appends then ((t, w), ok tt) else commit_files t.table_entry (t, w)

  unfoldable pub commit_in : DeltaTransactionState → M K (Unit {0})
  unfolding commit_started
  commit_in transaction_started (t, w) =
      commit_started (record t { transaction_state = transaction_finished }, w)
  commit_in transaction_not_yet_started s = (s, ok tt)
  commit_in transaction_finished s = (s, ok tt)

  unfoldable pub commit : M K (Unit {0})
  unfolding commit_in
  commit (t, w) = commit_in t.transaction_state (t, w)
