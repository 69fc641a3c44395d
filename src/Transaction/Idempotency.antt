-- ===== src/Transaction/Idempotency.antt =====
-- The versions that applications register with a transaction: `SetTransactionVersion` and the loop
-- at the front of `Commit` (src/storage/delta_transaction.cpp).
use duckdb_delta.Prelude.{
  ℕ, none, ◌^◌, ◌<◌, ◌≡◌, refl, ap, sym, ◌∙◌, ◌⊎◌, inl, inr, false, Option, some, List, [], ◌∷◌,
  arith, Result, ok, err, Error, and_then, is_empty, All, ltb→lt,
}
use duckdb_delta.Prelude.Bytes.{Text}
use duckdb_delta.Kernel.{Kernel, ℤ, pos, negsuc}
use duckdb_delta.Transaction.{
  DeltaTransaction, TransactionVersion, State, transaction_started, transaction_finished,
  DeltaTransactionState,
}
use duckdb_delta.Transaction.Commit.{
  commit, commit_in, commit_files, commit_started, register_versions, register_version,
  version_differs, versions_match, numeric_cast_int64, kernel_commit,
}

-- The version found for an application is the expected one: both are absent, or they are the same
-- number. Where the lookup failed, none may be expected.
abbrev pub Expected : Option ℤ → Result (Option ℤ) → Option ℕ → Type 0
Expected unset (ok none) none = Unit {0}
Expected unset (ok none) (some m) = ⊥
Expected unset (ok (some (pos n))) (some m) = n ≡ m
Expected unset (ok (some (negsuc n))) (some m) = ⊥
Expected unset (ok (some z)) none = ⊥
Expected unset (err e) none = unset ≡ none
Expected unset (err e) (some m) = ⊥

version_differs-Expected :
    (unset : Option ℤ) (found : Result (Option ℤ)) (expected : Option ℕ)
    → version_differs unset found expected ≡ false
    → Expected unset found expected
unfolding version_differs versions_match
version_differs-Expected unset (ok none) none h = tt
version_differs-Expected unset (ok none) (some m) h = cc
version_differs-Expected unset (ok (some (pos n))) (some m) h = ground arith
version_differs-Expected unset (ok (some (negsuc n))) (some m) h = cc
version_differs-Expected unset (ok (some (pos n))) none h = cc
version_differs-Expected unset (ok (some (negsuc n))) none h = cc
version_differs-Expected none (err e) none h = refl
version_differs-Expected (some (pos n)) (err e) none h = cc
version_differs-Expected (some (negsuc n)) (err e) none h = cc
version_differs-Expected unset (err e) (some m) h = cc

module _ (K : Kernel) where
  open K use {World, Snapshot}

  -- The log holds the expected version of the application, and the new one fits the log's integer.
  abbrev pub Accepted : Snapshot → Text × TransactionVersion → Type 0
  Accepted entry (app_id, v) =
      Expected K.unset_version (K.get_app_id_version entry app_id) v.expected_version
      × (v.new_version < 2 ^ 63)

  register_version-passes :
      (entry : Snapshot) (app_id : Text) (v : TransactionVersion) (t t' : DeltaTransaction K)
      → register_version K entry app_id v t ≡ (t', ok tt)
      → (version_differs K.unset_version (K.get_app_id_version entry app_id) v.expected_version
          ≡ false)
        × (v.new_version < 2 ^ 63)
  unfolding register_version numeric_cast_int64
  register_version-passes entry app_id v t t' h = ground (arith, ltb→lt v.new_version (2 ^ 63))

  register_version-Accepted :
      (entry : Snapshot) (app_id : Text) (v : TransactionVersion) (t t' : DeltaTransaction K)
      → register_version K entry app_id v t ≡ (t', ok tt)
      → Accepted entry (app_id, v)
  register_version-Accepted entry app_id v t t' h =
      let (agrees, fits) = register_version-passes entry app_id v t t' h in
      (
        version_differs-Expected K.unset_version (K.get_app_id_version entry app_id)
            v.expected_version agrees,
        fits,
      )

  Registered-cases :
      (r : DeltaTransaction K × Result (Unit {0}))
      → ((t : DeltaTransaction K) × (r ≡ (t, ok tt)))
        ⊎ ((t : DeltaTransaction K) × (e : Error) × (r ≡ (t, err e)))
  Registered-cases (t, ok tt) = inl (t, refl)
  Registered-cases (t, err e) = inr (t, e, refl)

  register_versions-Accepted :
      (entry : Snapshot) (versions : List (Text × TransactionVersion)) (t t' : DeltaTransaction K)
      → register_versions K entry versions t ≡ (t', ok tt)
      → All (Accepted entry) versions
  unfolding register_versions
  register_versions-Accepted entry [] t t' h = tt
  register_versions-Accepted entry ((app_id, v) ∷ rest) t t' h =
      elim (Registered-cases (register_version K entry app_id v t)) [
        | inl (u, e) ↦ (
          register_version-Accepted entry app_id v t u e,
          register_versions-Accepted entry rest u t' (rw e at h),
        )
        | inr (u, x, e) ↦ cc (ap (λ (r : DeltaTransaction K × Result (Unit {0})). r.1) (rw e at h))
      ]

  -- A version that differs stops the registration with a transaction exception, unless an earlier
  -- one has stopped it.
  register_versions-differ :
      (entry : Snapshot) (versions : List (Text × TransactionVersion)) (t : DeltaTransaction K)
      → ¬ All (Accepted entry) versions
      → (t' : DeltaTransaction K) × (e : Error) × (register_versions K entry versions t
          ≡ (t', err e))
  register_versions-differ entry versions t h =
      elim (Registered-cases (register_versions K entry versions t)) [
        | inl (u, e) ↦ absurd (h (register_versions-Accepted entry versions t u e))
        | inr (u, x, e) ↦ (u, x, e)
      ]

  -- `commit` on a started transaction with files to commit.
  commit_started-register :
      (t : DeltaTransaction K) (w : World) (entry : Snapshot)
      → t.transaction_state ≡ transaction_started
      → t.table_entry ≡ some entry
      → is_empty t.outstanding_appends ≡ false
      → let r =
          register_versions K entry t.app_versions
            (record t { transaction_state = transaction_finished }) in
        commit K (t, w) ≡ and_then ((r.0, w), r.1) (λ s done. kernel_commit K s)
  unfolding commit commit_in commit_started commit_files
  commit_started-register t w entry st e ne =
      ap (λ (x : DeltaTransactionState). commit_in K x (t, w)) st
      ∙ rw ne (
          ap
            (λ (x : Option Snapshot).
              commit_files K x (record t { transaction_state = transaction_finished }, w))
            e)

  and_then-done :
      {S : Type 0} (u : S) (r : Result (Unit {0})) (f : S → Unit {0} → S × Result (Unit {0}))
      → (and_then (u, r) f).1 ≡ ok tt
      → r ≡ ok tt
  and_then-done u (ok tt) f h = refl
  and_then-done u (err e) f h = h

  -- A commit of recorded files that returns has found every registered application at the version
  -- that was expected of it, and every new version in range. If one of them is not so, the commit
  -- fails before the kernel writes anything: the world is as it was.
  pub commit-checks_versions :
      (t : DeltaTransaction K) (w : World) (entry : Snapshot)
      → t.transaction_state ≡ transaction_started
      → t.table_entry ≡ some entry
      → is_empty t.outstanding_appends ≡ false
      → ((commit K (t, w)).1 ≡ ok tt → All (Accepted entry) t.app_versions)
        × (¬ All (Accepted entry) t.app_versions
            → (t' : DeltaTransaction K) × (e : Error) × (commit K (t, w) ≡ ((t', w), err e)))
  commit-checks_versions t w entry st e ne = (
    λ done.
        let r =
          register_versions K entry t.app_versions
            (record t { transaction_state = transaction_finished }) in
        let registered =
          and_then-done (r.0, w) r.1 (λ s done'. kernel_commit K s)
            (sym (
                ap (λ (x : State K × Result (Unit {0})). x.1)
                  (commit_started-register t w entry st e ne))
              ∙ done) in
        register_versions-Accepted entry t.app_versions
          (record t { transaction_state = transaction_finished }) r.0 (λ i. (r.0, registered i)),
    λ differ.
        let r =
          register_versions-differ entry t.app_versions
            (record t { transaction_state = transaction_finished }) differ in
        (
          r.0,
          r.1,
          commit_started-register t w entry st e ne
              ∙ ap
                  (λ (x : DeltaTransaction K × Result (Unit {0})).
                    and_then ((x.0, w), x.1) (λ s done. kernel_commit K s))
                  r.2,
        ),
  )
