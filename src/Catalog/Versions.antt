-- ===== src/Catalog/Versions.antt =====
-- The version that a lookup asks for, in the course of a transaction: `ResolveTimestamp` and the
-- first half of `LookupEntry` (src/storage/delta_schema_entry.cpp).
use duckdb_delta.Prelude.{
  ℕ, ◌≡◌, ◌≢◌, refl, ap, sym, ◌∙◌, inl, inr, Bool, true, false, not, ◌&&◌, Option, none, some, List,
  ◌∷◌, arith, Result, ok, err, ◌==◌, and_then, and_then-ok, and_then-keeps, step-injective,
  step-throws, ◌>>=◌, Bool-cases, Option-cases, Result-cases, ==_refl,
}
use duckdb_delta.Kernel.{ℤ, pos, negsuc}
use duckdb_delta.TimeTravel.{
  invalid_index, AtClause, DeltaTimeTravelSpec, latest, from_version, from_timestamp,
  from_at_clause, timestamp_to_epoch_ms, eqb_ℤ, Timestamp, get_version,
}
use duckdb_delta.Catalog.Source.{TableSource}
use duckdb_delta.Catalog.Entries.{EntryCache, set_timestamp_version, find_timestamp}
use duckdb_delta.Catalog.Lookup.{
  LookupConfig, LookupState, fill_cached, initialize_entry, transaction_head, resolve_timestamp,
  bind_attached_timestamp, remembered_or_resolve, spec_version, requested_version,
}

eqb_ℤ-refl : (z : ℤ) → eqb_ℤ z z ≡ true
eqb_ℤ-refl (pos n) = ==_refl n
eqb_ℤ-refl (negsuc n) = ==_refl n

ok-some : {x v : ℕ} → ◌≡◌ {A = Result ℕ} (ok x) (ok v) → ◌≡◌ {A = Option ℕ} (some x) (some v)
ok-some h = cc

pub and_invalid-false : (b : Bool) (v : ℕ) → v ≢ invalid_index → (b && (v == invalid_index)) ≡ false
and_invalid-false b v h = ground arith

find_timestamp-head :
    (ms : ℤ) (v : ℕ) (rest : List (ℤ × ℕ)) → find_timestamp ms ((ms, v) ∷ rest) ≡ some v
unfolding find_timestamp
find_timestamp-head ms v rest = rw (eqb_ℤ-refl ms) refl

module _ (S : TableSource) (get_epoch_ms : ℤ → ℤ) where
  open S use {World, Entry, version}

  abbrev State : Type 0
  State = LookupState S get_epoch_ms

  abbrev attached : State → ℕ
  attached s = s.use_specific_version

  abbrev times : State → List (ℤ × ℕ)
  times s = s.entries.timestamp_versions

  pub fill_cached-attached :
      (w : World) (v : ℕ) (old : Option Entry) (s : State)
      → attached (fill_cached S get_epoch_ms w v old s).0 ≡ attached s
  unfolding fill_cached
  fill_cached-attached w v (some x) s = refl
  fill_cached-attached w v none s = elim (Result-cases (S.create_table_entry w v none)) [
    | inl (x, made) ↦ rw (made, attached) refl
    | inr (x, failed) ↦ rw (failed, attached) refl
  ]

  initialize_entry-attached :
      (w : World) (v : ℕ) (old : Option Entry) (s : State)
      → attached (initialize_entry S get_epoch_ms w v old s).0 ≡ attached s
  unfolding initialize_entry
  initialize_entry-attached w v old s = refl

  -- Reading the head does not move the attached version.
  pub transaction_head-attached :
      (c : LookupConfig) (w : World) (s : State)
      → attached (transaction_head S get_epoch_ms c w s).0 ≡ attached s
  unfolding transaction_head
  transaction_head-attached c w s = elim (Bool-cases (not c.use_cache)) [
    | inl fresh ↦ rw fresh (
        and_then-keeps (λ (k : State). attached k ≡ attached s)
          (fill_cached S get_epoch_ms w invalid_index s.cached_table s)
          (λ s' e. initialize_entry S get_epoch_ms w invalid_index (some e) s')
          (fill_cached-attached w invalid_index s.cached_table s)
          (λ s' e filled h. initialize_entry-attached w invalid_index (some e) s' ∙ h))
    | inr pinned ↦
        elim (Bool-cases
          (not c.has_specific_timestamp && (s.use_specific_version == invalid_index))) [
            | inl head ↦ rw (pinned, head) (fill_cached-attached w invalid_index s.cached_table s)
            | inr named ↦
                rw (pinned, named) (initialize_entry-attached w invalid_index s.cached_table s)
          ]
  ]

  pub resolve_timestamp-attached :
      (c : LookupConfig) (w : World) (t : Timestamp) (s : State)
      → attached (resolve_timestamp S get_epoch_ms c w t s).0 ≡ attached s
  unfolding resolve_timestamp
  resolve_timestamp-attached c w t s =
      and_then-keeps (λ (k : State). attached k ≡ attached s)
        (transaction_head S get_epoch_ms c w s)
        (λ s' head.
          (s', timestamp_to_epoch_ms get_epoch_ms t >>= S.resolve_timestamp_within w head))
        (transaction_head-attached c w s) (λ s' head e h. h)

  Within-ne :
      (w : World) (head : Entry) (ms : Result ℤ) (v : ℕ)
      → (ms >>= S.resolve_timestamp_within w head) ≡ ok v
      → v ≢ invalid_index
  Within-ne w head (ok ms) v h = S.resolve_timestamp_within-ne w head ms v h
  Within-ne w head (err e) v h = cc

  pub resolve_timestamp-ne :
      (c : LookupConfig) (w : World) (t : Timestamp) (s s' : State) (v : ℕ)
      → resolve_timestamp S get_epoch_ms c w t s ≡ (s', ok v)
      → v ≢ invalid_index
  unfolding resolve_timestamp
  resolve_timestamp-ne c w t s s' v r =
      let (u, head, read, last) =
        and_then-ok (transaction_head S get_epoch_ms c w s)
          (λ s' head.
            (s', timestamp_to_epoch_ms get_epoch_ms t >>= S.resolve_timestamp_within w head))
          s' v r in
      Within-ne w head (timestamp_to_epoch_ms get_epoch_ms t) v
        (ap (λ (x : State × Result ℕ). x.1) last)

  attached-bound :
      (c : LookupConfig) (w : World) (s : State)
      → (c.has_specific_timestamp && (s.use_specific_version == invalid_index)) ≡ false
      → bind_attached_timestamp S get_epoch_ms c w s ≡ (s, ok tt)
  unfolding bind_attached_timestamp
  attached-bound c w s h = rw h refl

  -- Once a lookup has bound the attached timestamp, none binds it again.
  pub bind_attached_timestamp-again :
      (c : LookupConfig) (w w' : World) (s s₁ s₂ : State)
      → bind_attached_timestamp S get_epoch_ms c w s ≡ (s₁, ok tt)
      → attached s₂ ≡ attached s₁
      → bind_attached_timestamp S get_epoch_ms c w' s₂ ≡ (s₂, ok tt)
  unfolding bind_attached_timestamp
  bind_attached_timestamp-again c w w' s s₁ s₂ r e =
      elim (Bool-cases (c.has_specific_timestamp && (s.use_specific_version == invalid_index))) [
        | inl pending ↦
            let (u, v, resolved, last) =
              and_then-ok (resolve_timestamp S get_epoch_ms c w c.specific_timestamp s)
                (λ (s' : State) v. (record s' { use_specific_version = v }, ok tt)) s₁ tt
                (rw (pending, bind_attached_timestamp) at r) in
            attached-bound c w' s₂ (
              and_invalid-false c.has_specific_timestamp s₂.use_specific_version (λ invalid.
                resolve_timestamp-ne c w c.specific_timestamp s u v resolved
                  (ap (λ (x : State × Result (Unit {0})). attached x.0) last ∙ sym e ∙ invalid)))
        | inr bound ↦ attached-bound c w' s₂ (
            ap (λ (n : ℕ). c.has_specific_timestamp && (n == invalid_index))
              (e
                ∙ sym (
                    ap (λ (x : State × Result (Unit {0})). attached x.0)
                      (rw (bound, bind_attached_timestamp) at r)))
            ∙ bound)
      ]

  -- The version of a timestamp is the first one set for it.
  set_timestamp_version-finds :
      (ms : ℤ) (v : ℕ) (c : EntryCache Entry version)
      → let r = set_timestamp_version Entry version ms v c in
        find_timestamp ms r.0.timestamp_versions ≡ some r.1
  unfolding set_timestamp_version
  set_timestamp_version-finds ms v c =
      elim (Option-cases (find_timestamp ms c.timestamp_versions)) [
        | inl new ↦ rw (new, set_timestamp_version) (find_timestamp-head ms v c.timestamp_versions)
        | inr (x, old) ↦ rw (old, set_timestamp_version) old
      ]

  remembered_or_resolve-finds :
      (c : LookupConfig) (w : World) (t : Timestamp) (ms : ℤ) (found : Option ℕ) (s s' : State)
      (v : ℕ)
      → find_timestamp ms (times s) ≡ found
      → remembered_or_resolve S get_epoch_ms c w t ms found s ≡ (s', ok v)
      → (attached s' ≡ attached s) × (find_timestamp ms (times s') ≡ some v)
  unfolding remembered_or_resolve
  remembered_or_resolve-finds c w t ms (some x) s s' v h r =
      let (same, found) = step-injective s s' x v r in
      (
        sym (ap attached same),
        sym (ap (λ (k : State). find_timestamp ms (times k)) same) ∙ h ∙ ap some found,
      )
  remembered_or_resolve-finds c w t ms none s s' v h r =
      let (u, x, resolved, last) =
        and_then-ok (resolve_timestamp S get_epoch_ms c w t s)
          (λ (s' : State) v.
            let r = set_timestamp_version Entry version ms v s'.entries in
            (record s' { entries = r.0 }, ok r.1))
          s' v r in
      (
        sym (ap (λ (k : State × Result ℕ). attached k.0) last)
            ∙ sym (ap (λ (k : State × Result ℕ). attached k.0) resolved)
            ∙ resolve_timestamp-attached c w t s,
        sym (ap (λ (k : State × Result ℕ). find_timestamp ms (times k.0)) last)
            ∙ set_timestamp_version-finds ms x u.entries
            ∙ ok-some (ap (λ (k : State × Result ℕ). k.1) last),
      )

  spec_version-again :
      (c : LookupConfig) (w w' : World) (spec : DeltaTimeTravelSpec) (s s₁ s₂ : State) (v : ℕ)
      → spec_version S get_epoch_ms c w spec s ≡ (s₁, ok v)
      → times s₂ ≡ times s₁
      → (attached s₁ ≡ attached s) × (spec_version S get_epoch_ms c w' spec s₂ ≡ (s₂, ok v))
  unfolding spec_version get_version remembered_or_resolve
  spec_version-again c w w' latest s s₁ s₂ v r e = step-throws s s₁ _ v r
  spec_version-again c w w' (from_version x) s s₁ s₂ v r e =
      let (same, found) = step-injective s s₁ x v r in
      (sym (ap attached same), ap (λ (n : ℕ). (s₂, ok n)) found)
  spec_version-again c w w' (from_timestamp t) s s₁ s₂ v r e =
      let (u, ms, read, last) =
        and_then-ok (s, timestamp_to_epoch_ms get_epoch_ms t)
          (λ s' ms. remembered_or_resolve S get_epoch_ms c w t ms (find_timestamp ms (times s')) s')
          s₁ v r in
      let (kept, found) =
        remembered_or_resolve-finds c w t ms (find_timestamp ms (times u)) u s₁ v refl last in
      (
        kept ∙ sym (ap (λ (k : State × Result ℤ). attached k.0) read),
        ap
              (λ (k : State × Result ℤ).
                and_then (s₂, k.1)
                  (λ s' ms.
                    remembered_or_resolve S get_epoch_ms c w' t ms (find_timestamp ms (times s'))
                      s'))
              read
            ∙ ap (λ (x : Option ℕ). remembered_or_resolve S get_epoch_ms c w' t ms x s₂)
                (ap (find_timestamp ms) e ∙ found),
      )

  -- A lookup that asks again is told the same version, whatever has been committed since.
  pub requested_version-again :
      (c : LookupConfig) (w w' : World) (clause : Option AtClause) (s s₁ s₂ : State) (v : ℕ)
      → requested_version S get_epoch_ms c w clause s ≡ (s₁, ok v)
      → attached s₂ ≡ attached s₁
      → times s₂ ≡ times s₁
      → (attached s₁ ≡ attached s) × (requested_version S get_epoch_ms c w' clause s₂ ≡ (s₂, ok v))
  unfolding requested_version
  requested_version-again c w w' none s s₁ s₂ v r a e =
      let (same, found) = step-injective s s₁ (attached s) v r in
      (sym (ap attached same), ap (λ (n : ℕ). (s₂, ok n)) (a ∙ sym (ap attached same) ∙ found))
  requested_version-again c w w' (some clause) s s₁ s₂ v r a e =
      let (u, spec, read, last) =
        and_then-ok (s, from_at_clause clause) (λ s' spec. spec_version S get_epoch_ms c w spec s')
          s₁ v r in
      let (kept, again) = spec_version-again c w w' spec u s₁ s₂ v last e in
      (
        kept ∙ sym (ap (λ (k : State × Result DeltaTimeTravelSpec). attached k.0) read),
        ap
              (λ (k : State × Result DeltaTimeTravelSpec).
                and_then (s₂, k.1) (λ s' spec. spec_version S get_epoch_ms c w' spec s'))
              read
            ∙ again,
      )
