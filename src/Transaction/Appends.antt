-- ===== src/Transaction/Appends.antt =====
-- What `Append` (src/storage/delta_transaction.cpp) records and hands to the kernel, and what it
-- refuses before a file is recorded.
use duckdb_delta.Prelude.{
  ◌≡◌, refl, ap, sym, ◌∙◌, ◌⊎◌, inl, inr, true, false, Option, some, List, [], ◌∷◌, ◌++◌, arith,
  Result, ok, err, error, invalid_input, String, and_then, subst, Bool-cases,
}
use duckdb_delta.DataFile.{DeltaDataFile}
use duckdb_delta.Kernel.{Kernel}
use duckdb_delta.Transaction.{
  DeltaTransaction, State, DeltaTransactionState, transaction_not_yet_started, transaction_started,
  transaction_finished,
}
use duckdb_delta.Transaction.Write.{
  append, append_in, append_files, create_add_files_engine_data, initialize_transaction,
  begin_writing, build_transaction, is_read_only,
}

module _ (K : Kernel) where
  open K use {World, Snapshot, KernelTransaction, EngineData}

  -- The same files in the same order, each with the time that the file system has for it.
  abbrev pub Stamped : World → List DeltaDataFile → List DeltaDataFile → Type 0
  Stamped w [] [] = Unit {0}
  Stamped w [] (s ∷ ss) = ⊥
  Stamped w (f ∷ fs) [] = ⊥
  Stamped w (f ∷ fs) (s ∷ ss) =
      (K.get_last_modified_time w f.file_name ≡ ok s.last_modified_time)
      × (s ≡ record f { last_modified_time = s.last_modified_time })
      × Stamped w fs ss

  -- The kernel's transaction that an append hands its rows to: a new one for the table if the
  -- transaction has not begun to write, and otherwise the one that the transaction has.
  abbrev pub WritesWith :
      DeltaTransactionState → DeltaTransaction K → Snapshot → Option KernelTransaction → Type 0
  WritesWith transaction_not_yet_started t entry handle =
      (k : KernelTransaction) × (handle ≡ some k)
      × (build_transaction K
            (record t { current_context = true; transaction_state = transaction_started }) entry
          ≡ ok k)
  WritesWith transaction_started t entry handle = handle ≡ t.kernel_transaction
  WritesWith transaction_finished t entry handle = handle ≡ t.kernel_transaction

  -- Files that were recorded, and rows that were handed over to a kernel transaction.
  pub record Handed (t : DeltaTransaction K) (w : World) (files : List DeltaDataFile)
      (handle : Option KernelTransaction) (t' : DeltaTransaction K) : Type 0 where
    pub stamped : List DeltaDataFile
    pub times : Stamped w files stamped
    pub recorded : t'.outstanding_appends ≡ t.outstanding_appends ++ stamped
    pub entry : Snapshot
    pub writes_to : t.table_entry ≡ some entry
    pub rows : EngineData
    pub made : create_add_files_engine_data K (K.get_path entry) stamped ≡ ok rows
    pub handed_over : t'.kernel_transaction ≡ K.add_files handle rows

  -- The outcome of an append that returned.
  pub record Staged (t : DeltaTransaction K) (w : World) (files : List DeltaDataFile)
      (t' : DeltaTransaction K) : Type 0 where
    pub handle : Option KernelTransaction
    pub handed : Handed t w files handle t'
    pub writes_with : WritesWith t.transaction_state t handed.entry handle

  -- What a successful initialization leaves.
  abbrev Begun : DeltaTransaction K → World → State K → Type 0
  Begun t w s =
      (s.0.outstanding_appends ≡ t.outstanding_appends)
      × (s.0.table_entry ≡ t.table_entry)
      × (s.0.transaction_state ≡ t.transaction_state)
      × (s.1 ≡ w)

  -- The kernel transaction that it has made for the table.
  abbrev Built : Option Snapshot → DeltaTransaction K → State K → Type 0
  Built entry t s =
      (e : Snapshot) × (k : KernelTransaction) × (entry ≡ some e)
      × (build_transaction K t e ≡ ok k)
      × (s.0.kernel_transaction ≡ some k)

  -- A refusal that changes neither the recorded files nor the kernel's.
  abbrev pub Refused : DeltaTransaction K → World → State K × Result (Unit {0}) → Type 0
  Refused t w r =
      (t' : DeltaTransaction K) × (message : String) × (r
        ≡ ((t', w), err (error invalid_input message)))
      × (t'.outstanding_appends ≡ t.outstanding_appends)
      × (t'.kernel_transaction ≡ t.kernel_transaction)

  begin_writing-refuses :
      (t : DeltaTransaction K) (w : World) (entry : Snapshot)
      → t.parent_commit ≡ false
      → K.is_catalog_managed entry ≡ true
      → Refused t w (begin_writing K (some entry) (t, w))
  unfolding begin_writing build_transaction
  begin_writing-refuses t w entry p m = (
    t,
    "a catalog-managed Delta table: attach the catalog that owns it",
    ground arith,
    refl,
    refl,
  )

  initialize_transaction-refuses :
      (t : DeltaTransaction K) (w : World) (entry : Snapshot)
      → t.table_entry ≡ some entry
      → (is_read_only t.access_mode ≡ true)
        ⊎ ((t.parent_commit ≡ false) × (K.is_catalog_managed entry ≡ true))
      → Refused t w (initialize_transaction K (t, w))
  unfolding initialize_transaction
  initialize_transaction-refuses t w entry e (inl ro) = (
    record t { current_context = true },
    "Can not append to a read only table",
    rw ro refl,
    refl,
    refl,
  )
  initialize_transaction-refuses t w entry e (inr (p, m)) =
      elim (Bool-cases (is_read_only t.access_mode)) [
        | inl ro ↦ (
          record t { current_context = true },
          "Can not append to a read only table",
          rw ro refl,
          refl,
          refl,
        )
        | inr rw' ↦ rw rw' (
            subst
              (λ x. Refused t w (
                begin_writing K x (
                  record t { current_context = true; transaction_state = transaction_started },
                  w,
                )))
              (sym e)
              (begin_writing-refuses
                (record t { current_context = true; transaction_state = transaction_started }) w
                entry p m))
      ]

  -- A transaction that has not begun to write refuses the files of a read-only table, and those of
  -- a catalog-managed table whose commits do not go through its catalog: no file is recorded,
  -- nothing is handed to the kernel and nothing is written.
  pub append-refuses :
      (t : DeltaTransaction K) (w : World) (files : List DeltaDataFile) (entry : Snapshot)
      → t.transaction_state ≡ transaction_not_yet_started
      → t.table_entry ≡ some entry
      → (is_read_only t.access_mode ≡ true)
        ⊎ ((t.parent_commit ≡ false) × (K.is_catalog_managed entry ≡ true))
      → Refused t w (append K files (t, w))
  unfolding append append_in
  append-refuses t w files entry st e why =
      let r = initialize_transaction-refuses t w entry e why in
      (
        r.0,
        r.1,
        ap (λ (x : DeltaTransactionState). append_in K x files (t, w)) st
            ∙ ap
                (λ (x : State K × Result (Unit {0})). and_then x (λ s done. append_files K files s))
                r.2,
        r.3,
        r.4,
      )
