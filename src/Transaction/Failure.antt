-- ===== src/Transaction/Failure.antt =====
-- What a failed commit and a rollback leave behind: `Commit`, `Rollback`, `CleanUpFiles`
-- (src/storage/delta_transaction.cpp), `CommitTransaction` and `HandleConflict`
-- (src/storage/delta_transaction_manager.cpp).
use duckdb_delta.Prelude.{
  ℕ, ◌≡◌, refl, ap, sym, ◌∙◌, inl, inr, Bool, true, Option, none, some, List, [], ◌∷◌, arith,
  String, Result, ok, err, Error, and_then, is_empty, Bool-cases, error_type, subst, ◌⊎◌, multiple,
  Result-cases,
}
use duckdb_delta.Prelude.Bytes.{Text}
use duckdb_delta.DataFile.{DeltaDataFile}
use duckdb_delta.Kernel.{Kernel, StagedCommit}
use duckdb_delta.Transaction.{
  DeltaTransaction, DeltaTransactionState, TransactionVersion, State, transaction_started,
  transaction_finished, CallbackOutcome, value, raises, raises_other,
}
use duckdb_delta.Transaction.Write.{
  remove_files, remove_appends, clear_appends, clean_up_files, rollback, rollback_in,
}
use duckdb_delta.Transaction.Commit.{
  commit, commit_in, commit_started, commit_files, register_versions, register_version,
  kernel_commit, finish_commit, commit_callback, answer_callback, callback_outcome,
}
use duckdb_delta.Transaction.Manager.{handle_conflict, conflict_error, settle, commit_or_clean}

-- The kernel takes the callback's context as an opaque pointer: whatever the callback keeps true
-- of it, a commit keeps true.
abbrev pub OnlyCallsBack : Kernel → Type 1
OnlyCallsBack K =
    (T : Type 0) (P : T → Type 0)
    (callback : Option StagedCommit → T × K.World → (T × K.World) × Option String)
    (handle : Option K.KernelTransaction) (s : T × K.World)
    → ((r : Option StagedCommit) (u : T × K.World) → P u.0 → P (callback r u).0.0)
    → P s.0
    → P (K.commit callback handle s).0.0

err-injective : (x e : Error) → ◌≡◌ {A = Result (Unit {0})} (err x) (err e) → x ≡ e
err-injective x e h = cc

module _ (K : Kernel) where
  open K use {World, Snapshot, KernelTransaction}

  -- The removal of each file is tried, in order, and none of the tries throws.
  abbrev pub AllTried : List DeltaDataFile → World → World → Type 0
  AllTried [] w w' = w' ≡ w
  AllTried (f ∷ fs) w w' =
      (b : Bool) × ((K.try_remove_file w f.file_name).1 ≡ ok b)
      × AllTried fs (K.try_remove_file w f.file_name).0 w'

  -- The removals are tried in order up to one that throws.
  abbrev pub StopsAt : List DeltaDataFile → World → World → Error → Type 0
  StopsAt [] w w' x = ⊥
  StopsAt (f ∷ fs) w w' x =
      (((K.try_remove_file w f.file_name).1 ≡ err x) × (w' ≡ (K.try_remove_file w f.file_name).0))
      ⊎ ((b : Bool) × ((K.try_remove_file w f.file_name).1 ≡ ok b)
          × StopsAt fs (K.try_remove_file w f.file_name).0 w' x)

  -- What a commit leaves of the transaction it was called on.
  pub record Keeps (t u : DeltaTransaction K) : Type 0 where
    pub files : u.outstanding_appends ≡ t.outstanding_appends
    pub client : u.context ≡ t.context
    pub phase : u.transaction_state ≡ t.transaction_state

  answer_callback-Keeps :
      (t u : DeltaTransaction K) (o : World × CallbackOutcome)
      → Keeps t u
      → Keeps t (answer_callback K u o).0.0
  unfolding answer_callback
  answer_callback-Keeps t u (w, value none) k = k
  answer_callback-Keeps t u (w, value (some b)) k = k
  answer_callback-Keeps t u (w, raises e) k = record {
    files = k.files;
    client = k.client;
    phase = k.phase;
  }
  answer_callback-Keeps t u (w, raises_other) k = k

  commit_callback-Keeps :
      (t : DeltaTransaction K) (r : Option StagedCommit) (u : State K)
      → Keeps t u.0
      → Keeps t (commit_callback K r u).0.0
  unfolding commit_callback
  commit_callback-Keeps t r (u, w) k = answer_callback-Keeps t u (callback_outcome K u r w) k

  register_version-Keeps :
      (t : DeltaTransaction K) (entry : Snapshot) (app_id : Text) (v : TransactionVersion)
      (u : DeltaTransaction K)
      → Keeps t u
      → Keeps t (register_version K entry app_id v u).0
  unfolding register_version
  register_version-Keeps t entry app_id v u k = ground arith

  and_then-keeps :
      {S : Type 0} (P : S → Type 0) (r : S × Result (Unit {0}))
      (f : S → Unit {0} → S × Result (Unit {0}))
      → P r.0
      → ((s : S) → P s → P (f s tt).0)
      → P (and_then r f).0
  and_then-keeps P (s, ok tt) f p q = q s p
  and_then-keeps P (s, err e) f p q = p

  register_versions-Keeps :
      (t : DeltaTransaction K) (entry : Snapshot) (versions : List (Text × TransactionVersion))
      (u : DeltaTransaction K)
      → Keeps t u
      → Keeps t (register_versions K entry versions u).0
  unfolding register_versions
  register_versions-Keeps t entry [] u k = k
  register_versions-Keeps t entry ((app_id, v) ∷ rest) u k =
      and_then-keeps (Keeps t) (register_version K entry app_id v u)
        (λ t' done. register_versions K entry rest t') (register_version-Keeps t entry app_id v u k)
        (λ s p. register_versions-Keeps t entry rest s p)

  finish_commit-state : (r : State K × Result ℕ) → (finish_commit K r).0 ≡ r.0
  unfolding finish_commit
  finish_commit-state ((t, w), ok version) = refl
  finish_commit-state ((t, w), err e) = refl

  module _ (opaque : OnlyCallsBack K) where
    kernel_commit-Keeps :
        (t : DeltaTransaction K) (s : State K) → Keeps t s.0 → Keeps t (kernel_commit K s).0.0
    unfolding kernel_commit
    kernel_commit-Keeps t (u, w) k =
        subst (λ (x : State K). Keeps t x.0)
          (sym (
            finish_commit-state (
              K.commit (commit_callback K) u.kernel_transaction
                (record u { kernel_transaction = none }, w))))
          (opaque (DeltaTransaction K) (Keeps t) (commit_callback K) u.kernel_transaction
            (record u { kernel_transaction = none }, w) (λ r v p. commit_callback-Keeps t r v p)
            (record { files = k.files; client = k.client; phase = k.phase }))

    commit_files-Keeps :
        (entry : Option Snapshot) (t : DeltaTransaction K) (w : World)
        → Keeps t (commit_files K entry (t, w)).0.0
    unfolding commit_files
    commit_files-Keeps none t w = record { files = refl; client = refl; phase = refl }
    commit_files-Keeps (some entry) t w =
        let r = register_versions K entry t.app_versions t in
        and_then-keeps (λ (s : State K). Keeps t s.0) ((r.0, w), r.1) (λ s done. kernel_commit K s)
          (register_versions-Keeps t entry t.app_versions t
            (record { files = refl; client = refl; phase = refl }))
          (λ s p. kernel_commit-Keeps t s p)

    commit_started-Keeps :
        (t : DeltaTransaction K) (w : World) → Keeps t (commit_started K (t, w)).0.0
    unfolding commit_started
    commit_started-Keeps t w = elim (Bool-cases (is_empty t.outstanding_appends)) [
      | inl e ↦ rw e (record { files = refl; client = refl; phase = refl })
      | inr e ↦ rw e (commit_files-Keeps t.table_entry t w)
    ]

  -- The removals came to an end, or one of them threw.
  abbrev Tried : List DeltaDataFile → World → World × Result (Unit {0}) → Type 0
  Tried files w r =
      (AllTried files w r.0 × (r.1 ≡ ok tt)) ⊎ ((x : Error) × StopsAt files w r.0 x × (r.1 ≡ err x))

  Tried-next :
      (f : DeltaDataFile) (fs : List DeltaDataFile) (w : World) (b : Bool)
      (r : World × Result (Unit {0}))
      → (K.try_remove_file w f.file_name).1 ≡ ok b
      → Tried fs (K.try_remove_file w f.file_name).0 r
      → Tried (f ∷ fs) w r
  Tried-next f fs w b r e (inl (all, done)) = inl ((b, e, all), done)
  Tried-next f fs w b r e (inr (x, stops, failed)) = inr (x, inr (b, e, stops), failed)

  remove_files-next :
      (f : DeltaDataFile) (fs : List DeltaDataFile) (w : World) (b : Bool)
      → (K.try_remove_file w f.file_name).1 ≡ ok b
      → remove_files K (f ∷ fs) w ≡ remove_files K fs (K.try_remove_file w f.file_name).0
  unfolding remove_files
  remove_files-next f fs w b e = rw (e, remove_files) refl

  remove_files-stop :
      (f : DeltaDataFile) (fs : List DeltaDataFile) (w : World) (x : Error)
      → (K.try_remove_file w f.file_name).1 ≡ err x
      → remove_files K (f ∷ fs) w ≡ ((K.try_remove_file w f.file_name).0, err x)
  unfolding remove_files
  remove_files-stop f fs w x e = rw (e, remove_files) refl

  remove_files-Tried :
      (files : List DeltaDataFile) (w : World) → Tried files w (remove_files K files w)
  unfolding remove_files
  remove_files-Tried [] w = inl (refl, refl)
  remove_files-Tried (f ∷ fs) w = elim (Result-cases (K.try_remove_file w f.file_name).1) [
    | inl (b, e) ↦ subst (Tried (f ∷ fs) w) (sym (remove_files-next f fs w b e)) (
        Tried-next f fs w b (remove_files K fs (K.try_remove_file w f.file_name).0) e
          (remove_files-Tried fs (K.try_remove_file w f.file_name).0))
    | inr (x, e) ↦
        subst (Tried (f ∷ fs) w) (sym (remove_files-stop f fs w x e)) (inr (x, inl (e, refl), refl))
  ]

  -- What the manager makes of a failed commit that left `(t, w)`.
  abbrev Cleaned : DeltaTransaction K → World → Error → State K × Error → Type 0
  Cleaned t w e r =
      (AllTried t.outstanding_appends w r.0.1
        × (r.0.0 ≡ record t { outstanding_appends = [] })
        × (r.1 ≡ e))
      ⊎ ((x : Error) × StopsAt t.outstanding_appends w r.0.1 x × (r.0.0 ≡ t) × (r.1 ≡ multiple e x))

  conflict_error-Cleaned :
      (t : DeltaTransaction K) (w : World) (e : Error) (r : World × Result (Unit {0}))
      → Tried t.outstanding_appends w r
      → Cleaned t w e (conflict_error K e (clear_appends K t r))
  unfolding conflict_error clear_appends
  conflict_error-Cleaned t w e (w', ok tt) (inl (all, done)) = inl (all, refl, refl)
  conflict_error-Cleaned t w e (w', ok tt) (inr (x, stops, failed)) = cc failed
  conflict_error-Cleaned t w e (w', err y) (inl (all, done)) = cc done
  conflict_error-Cleaned t w e (w', err y) (inr (x, stops, failed)) =
      inr (x, stops, refl, ap (λ (z : Error). multiple e z) (err-injective y x failed))

  handle_conflict-Cleaned :
      (t : DeltaTransaction K) (w : World) (e : Error)
      → t.context ≡ true
      → Cleaned t w e (handle_conflict K e (t, w))
  unfolding handle_conflict clean_up_files remove_appends
  handle_conflict-Cleaned t w e alive =
      subst
        (λ (b : Bool).
          Cleaned t w e
            (conflict_error K e (clear_appends K t (remove_appends K b t.outstanding_appends w))))
        (sym alive)
        (conflict_error-Cleaned t w e (remove_files K t.outstanding_appends w)
          (remove_files-Tried t.outstanding_appends w))

  settle-conflict :
      (r : State K × Result (Unit {0})) (e : Error)
      → r.1 ≡ err e
      → settle K r ≡ ((handle_conflict K e r.0).0, some (handle_conflict K e r.0).1)
  unfolding settle
  settle-conflict (s, ok done) e h = cc
  settle-conflict (s, err x) e h =
      ap (λ (y : Error). ((handle_conflict K y s).0, some (handle_conflict K y s).1))
        (err-injective x e h)

  conflict_error-type :
      (e : Error) (r : State K × Result (Unit {0}))
      → error_type (conflict_error K e r).1 ≡ error_type e
  unfolding conflict_error
  conflict_error-type e (s, ok done) = refl
  conflict_error-type e (s, err x) = refl

  settle-report :
      (r : State K × Result (Unit {0}))
      → (r.1 ≡ ok tt → settle K r ≡ (r.0, none))
        × ((e : Error)
            → r.1 ≡ err e
            → (e' : Error) × ((settle K r).1 ≡ some e') × (error_type e' ≡ error_type e))
  unfolding settle handle_conflict
  settle-report (s, ok done) = (λ h. refl, λ e h. cc)
  settle-report (s, err x) = (
    λ h. cc,
    λ e h. (
      (handle_conflict K x s).1,
      refl,
      conflict_error-type x (clean_up_files K s) ∙ ap error_type (err-injective x e h),
    ),
  )

  commit-Keeps :
      (t : DeltaTransaction K) (w : World)
      → OnlyCallsBack K
      → t.transaction_state ≡ transaction_started
      → Keeps (record t { transaction_state = transaction_finished }) (commit K (t, w)).0.0
  unfolding commit commit_in
  commit-Keeps t w opaque st =
      subst
        (λ (r : State K × Result (Unit {0})).
          Keeps (record t { transaction_state = transaction_finished }) r.0.0)
        (sym (ap (λ (x : DeltaTransactionState). commit_in K x (t, w)) st))
        (commit_started-Keeps opaque (record t { transaction_state = transaction_finished }) w)

  -- After a failed commit: the files of `t` are cleaned up in the storage that the commit left.
  abbrev pub CleanedUp : DeltaTransaction K → World → Error → State K × Option Error → Type 0
  CleanedUp t w e r =
      (AllTried t.outstanding_appends w r.0.1 × (r.0.0.outstanding_appends ≡ []) × (r.1 ≡ some e))
      ⊎ ((x : Error) × StopsAt t.outstanding_appends w r.0.1 x
          × (r.0.0.outstanding_appends ≡ t.outstanding_appends)
          × (r.1 ≡ some (multiple e x)))

  Cleaned-CleanedUp :
      (t u : DeltaTransaction K) (w : World) (e : Error) (r : State K × Error)
      → Keeps (record t { transaction_state = transaction_finished }) u
      → Cleaned u w e r
      → CleanedUp t w e (r.0, some r.1) × (r.0.0.transaction_state ≡ transaction_finished)
  Cleaned-CleanedUp t u w e r k (inl (all, left, same)) = (
    inl (
      subst (λ (fs : List DeltaDataFile). AllTried fs w r.0.1) k.files all,
      ap (λ (x : DeltaTransaction K). x.outstanding_appends) left,
      ap (λ (x : Error). some x) same,
    ),
    ap (λ (x : DeltaTransaction K). x.transaction_state) left ∙ k.phase,
  )
  Cleaned-CleanedUp t u w e r k (inr (x, stops, left, both)) = (
    inr (
      x,
      subst (λ (fs : List DeltaDataFile). StopsAt fs w r.0.1 x) k.files stops,
      ap (λ (y : DeltaTransaction K). y.outstanding_appends) left ∙ k.files,
      ap (λ (y : Error). some y) both,
    ),
    ap (λ (y : DeltaTransaction K). y.transaction_state) left ∙ k.phase,
  )

  -- With a kernel that changes the context of a commit's callback only by calling back: a started
  -- transaction whose commit fails while the client is there is finished, and the removal of the
  -- files that were recorded has been tried, each once and in order, in the storage that the kernel's
  -- attempt left. If no try throws, all have been tried, the transaction holds no file any more and
  -- the commit's error is reported. If a try throws, the later files are not tried, the transaction
  -- keeps its files, and both errors are reported. A rollback that follows changes nothing more in
  -- either case.
  pub commit_or_clean-removes :
      (t : DeltaTransaction K) (w : World) (e : Error)
      → OnlyCallsBack K
      → t.transaction_state ≡ transaction_started
      → t.context ≡ true
      → (commit K (t, w)).1 ≡ err e
      → let r = commit_or_clean K (t, w) in
        CleanedUp t (commit K (t, w)).0.1 e r
        × (r.0.0.transaction_state ≡ transaction_finished)
        × (rollback K r.0 ≡ (r.0, ok tt))
  unfolding commit_or_clean rollback rollback_in
  commit_or_clean-removes t w e opaque st alive h =
      let c = (commit K (t, w)).0 in
      let k = commit-Keeps t w opaque st in
      let (cleaned, phase) =
        Cleaned-CleanedUp t c.0 c.1 e (handle_conflict K e c) k
          (handle_conflict-Cleaned c.0 c.1 e (k.client ∙ alive)) in
      let final = sym (settle-conflict (commit K (t, w)) e h) in
      let finished =
        ap (λ (r : State K × Option Error). r.0.0.transaction_state) (sym final) ∙ phase in
      (
        subst (CleanedUp t c.1 e) final cleaned,
        finished,
        ap (λ (x : DeltaTransactionState). rollback_in K x (commit_or_clean K (t, w)).0) finished,
      )

  -- The error that the manager reports has the type of the one that the commit threw, also when the
  -- removal of the files throws another; and it reports none just when the commit returned.
  pub commit_or_clean-error :
      (s : State K)
      → ((commit K s).1 ≡ ok tt → commit_or_clean K s ≡ ((commit K s).0, none))
        × ((e : Error)
            → (commit K s).1 ≡ err e
            → (e' : Error) × ((commit_or_clean K s).1 ≡ some e') × (error_type e' ≡ error_type e))
  unfolding commit_or_clean
  commit_or_clean-error s = settle-report (commit K s)
