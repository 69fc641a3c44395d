-- ===== src/Catalog/Kept.antt =====
-- What a lookup leaves of the cached table and the entries, step by step
-- (src/storage/delta_schema_entry.cpp, src/storage/delta_transaction.cpp).
use duckdb_delta.Prelude.{
  ℕ, ◌≡◌, refl, ap, sym, ◌∙◌, inl, inr, Bool, true, false, not, ◌&&◌, Option, none, some, arith,
  Result, ok, ◌==◌, if◌then◌else◌, and_then, and_then-ok, and_then-keeps, Bool-cases, Option-cases,
  ==_iff, subst,
}
use duckdb_delta.Kernel.{ℤ}
use duckdb_delta.TimeTravel.{
  invalid_index, AtClause, DeltaTimeTravelSpec, latest, from_version, from_timestamp,
  from_at_clause, timestamp_to_epoch_ms, Timestamp,
}
use duckdb_delta.Catalog.Source.{TableSource}
use duckdb_delta.Catalog.Entries.{
  EntryCache, get_table_entry, set_timestamp_version, find_timestamp,
}
use duckdb_delta.Catalog.Pinned.{
  Consistent, Keyed, Pinned, fill_cached-Consistent, initialize_entry-Consistent,
  resolve_timestamp-Consistent,
}
use duckdb_delta.Catalog.Versions.{
  resolve_timestamp-attached, resolve_timestamp-ne, and_invalid-false,
}
use duckdb_delta.Catalog.Lookup.{
  LookupConfig, LookupState, fill_cached, initialize_entry, resolve_timestamp,
  bind_attached_timestamp, remembered_or_resolve, spec_version, requested_version, lookup_uncached,
  lookup_at, lookup_table, has_value,
}

and_invalid-both :
    (b : Bool) (v : ℕ) → (b && (v == invalid_index)) ≡ true → (b ≡ true) × (v ≡ invalid_index)
and_invalid-both b v h = ground arith

and_invalid-unbound :
    (b : Bool) (v : ℕ) → (b && (v == invalid_index)) ≡ false → v ≡ invalid_index → b ≡ false
and_invalid-unbound b v h e = ground arith

some-injective : {A : Type 0} (x e : A) → ◌≡◌ {A = Option A} (some x) (some e) → x ≡ e
some-injective x e h = cc

module _ (S : TableSource) (get_epoch_ms : ℤ → ℤ) where
  open S use {World, Entry, version}

  abbrev State : Type 0
  State = LookupState S get_epoch_ms

  set_timestamp_version-Keyed :
      (ms : ℤ) (v : ℕ) (c : EntryCache Entry version)
      → Keyed S get_epoch_ms c.versioned_table_entries
      → Keyed S get_epoch_ms (set_timestamp_version Entry version ms v c).0.versioned_table_entries
  unfolding set_timestamp_version
  set_timestamp_version-Keyed ms v c k =
      elim (Option-cases (find_timestamp ms c.timestamp_versions)) [
        | inl new ↦ rw (new, set_timestamp_version) k
        | inr (x, old) ↦ rw (old, set_timestamp_version) k
      ]

  -- Consistent, and attached at the version that it was.
  abbrev pub Stays : LookupConfig → ℕ → State → Type 0
  Stays c u s = Consistent S get_epoch_ms c s × (s.use_specific_version ≡ u)

  set_timestamp_version-Stays :
      (c : LookupConfig) (u : ℕ) (ms : ℤ) (v : ℕ) (s : State)
      → Stays c u s
      → Stays c u (record s { entries = (set_timestamp_version Entry version ms v s.entries).0 })
  unfolding set_timestamp_version
  set_timestamp_version-Stays c u ms v s k =
      ((set_timestamp_version-Keyed ms v s.entries k.0.0, k.0.1), k.1)

  remembered_or_resolve-Stays :
      (c : LookupConfig) (w : World) (t : Timestamp) (ms : ℤ) (found : Option ℕ) (u : ℕ) (s : State)
      → Stays c u s
      → Stays c u (remembered_or_resolve S get_epoch_ms c w t ms found s).0
  unfolding remembered_or_resolve
  remembered_or_resolve-Stays c w t ms (some v) u s k = k
  remembered_or_resolve-Stays c w t ms none u s k =
      and_then-keeps (Stays c u) (resolve_timestamp S get_epoch_ms c w t s)
        (λ s' v.
          let r = set_timestamp_version Entry version ms v s'.entries in
          (record s' { entries = r.0 }, ok r.1))
        (
          resolve_timestamp-Consistent S get_epoch_ms c w t s k.0,
          resolve_timestamp-attached S get_epoch_ms c w t s ∙ k.1,
        )
        (λ s' v e h. set_timestamp_version-Stays c u ms v s' h)

  spec_version-Stays :
      (c : LookupConfig) (w : World) (spec : DeltaTimeTravelSpec) (u : ℕ) (s : State)
      → Stays c u s
      → Stays c u (spec_version S get_epoch_ms c w spec s).0
  unfolding spec_version
  spec_version-Stays c w latest u s k = k
  spec_version-Stays c w (from_version v) u s k = k
  spec_version-Stays c w (from_timestamp t) u s k =
      and_then-keeps (Stays c u) (s, timestamp_to_epoch_ms get_epoch_ms t)
        (λ s' ms.
          remembered_or_resolve S get_epoch_ms c w t ms
            (find_timestamp ms s'.entries.timestamp_versions) s')
        k (λ s' ms e h. remembered_or_resolve-Stays c w t ms _ u s' h)

  pub requested_version-Stays :
      (c : LookupConfig) (w : World) (clause : Option AtClause) (u : ℕ) (s : State)
      → Stays c u s
      → Stays c u (requested_version S get_epoch_ms c w clause s).0
  unfolding requested_version
  requested_version-Stays c w none u s k = k
  requested_version-Stays c w (some clause) u s k =
      and_then-keeps (Stays c u) (s, from_at_clause clause)
        (λ s' spec. spec_version S get_epoch_ms c w spec s') k
        (λ s' spec e h. spec_version-Stays c w spec u s' h)

  -- An attached timestamp that the catalog has is bound to a version.
  abbrev pub Bound : LookupConfig → State → Type 0
  Bound c s = (c.has_specific_timestamp && (s.use_specific_version == invalid_index)) ≡ false

  -- Binding the version of a timestamp: nothing was cached before.
  bind-Pinned :
      (c : LookupConfig) (u v : ℕ) (cached : Option Entry)
      → c.has_specific_timestamp ≡ true
      → u ≡ invalid_index
      → Pinned S get_epoch_ms c u cached
      → Pinned S get_epoch_ms c v cached
  bind-Pinned c u v none timed unbound k = tt
  bind-Pinned c u v (some e) timed unbound k = λ pinned. cc ((k pinned).1 unbound)

  pub bind_attached_timestamp-Consistent :
      (c : LookupConfig) (w : World) (s : State)
      → Consistent S get_epoch_ms c s
      → Consistent S get_epoch_ms c (bind_attached_timestamp S get_epoch_ms c w s).0
        × ((s₁ : State) → bind_attached_timestamp S get_epoch_ms c w s ≡ (s₁, ok tt) → Bound c s₁)
  unfolding bind_attached_timestamp
  bind_attached_timestamp-Consistent c w s k =
      elim (Bool-cases (c.has_specific_timestamp && (s.use_specific_version == invalid_index))) [
        | inl pending ↦ rw pending (
          and_then-keeps (Consistent S get_epoch_ms c)
              (resolve_timestamp S get_epoch_ms c w c.specific_timestamp s)
              (λ (s' : State) v. (record s' { use_specific_version = v }, ok tt))
              (resolve_timestamp-Consistent S get_epoch_ms c w c.specific_timestamp s k)
              (λ s' v e h. (
                h.0,
                bind-Pinned c s'.use_specific_version v s'.cached_table
                    (and_invalid-both c.has_specific_timestamp s.use_specific_version pending).0
                    (sym (ap (λ (x : State × Result ℕ). x.0.use_specific_version) e)
                      ∙ resolve_timestamp-attached S get_epoch_ms c w c.specific_timestamp s
                      ∙ (and_invalid-both c.has_specific_timestamp s.use_specific_version
                          pending).1)
                    h.1,
              )),
          λ s₁ r.
              let (u, v, resolved, last) =
                and_then-ok (resolve_timestamp S get_epoch_ms c w c.specific_timestamp s)
                  (λ (s' : State) v. (record s' { use_specific_version = v }, ok tt)) s₁ tt r in
              and_invalid-false c.has_specific_timestamp s₁.use_specific_version (λ invalid.
                resolve_timestamp-ne S get_epoch_ms c w c.specific_timestamp s u v resolved (
                  ap (λ (x : State × Result (Unit {0})). x.0.use_specific_version) last ∙ invalid)),
        )
        | inr bound ↦ rw bound (
          k,
          λ s₁ r.
              ap
                (λ (x : State × Result (Unit {0})).
                  c.has_specific_timestamp && (x.0.use_specific_version == invalid_index))
                (sym r)
              ∙ bound,
        )
      ]

  pub lookup_uncached-pinned :
      (c : LookupConfig) (w : World) (v : ℕ) (s : State) (same : Bool)
      → c.use_cache ≡ true
      → (s.use_specific_version == v) ≡ same
      → lookup_uncached S get_epoch_ms c w v s ≡ (
          if same
          then fill_cached S get_epoch_ms w v s.cached_table s
          else initialize_entry S get_epoch_ms w v none s)
  unfolding lookup_uncached
  lookup_uncached-pinned c w v s same pinned e = rw (pinned, e) refl

  pub lookup_uncached-fresh :
      (c : LookupConfig) (w : World) (v : ℕ) (s : State)
      → c.use_cache ≡ false
      → lookup_uncached S get_epoch_ms c w v s
        ≡ and_then
            (fill_cached S get_epoch_ms w v s.cached_table s)
            (λ s' x. initialize_entry S get_epoch_ms w v (some x) s')
  unfolding lookup_uncached
  lookup_uncached-fresh c w v s fresh = rw fresh refl

  pub lookup_uncached-Consistent :
      (c : LookupConfig) (w : World) (v : ℕ) (s : State)
      → Bound c s
      → Consistent S get_epoch_ms c s
      → Consistent S get_epoch_ms c (lookup_uncached S get_epoch_ms c w v s).0
  lookup_uncached-Consistent c w v s b k = elim (Bool-cases c.use_cache) [
    | inl pinned ↦ elim (Bool-cases (s.use_specific_version == v)) [
      | inl same ↦
          subst (λ (r : State × Result Entry). Consistent S get_epoch_ms c r.0)
            (sym (lookup_uncached-pinned c w v s true pinned same))
            (fill_cached-Consistent S get_epoch_ms c w v s.cached_table s
              (λ p. (
                λ ne. sym ((==_iff s.use_specific_version v).0 same),
                λ h. and_invalid-unbound c.has_specific_timestamp s.use_specific_version b h,
              ))
              k)
      | inr other ↦
          subst (λ (r : State × Result Entry). Consistent S get_epoch_ms c r.0)
            (sym (lookup_uncached-pinned c w v s false pinned other))
            (initialize_entry-Consistent S get_epoch_ms c w v none s k)
    ]
    | inr fresh ↦
        subst (λ (r : State × Result Entry). Consistent S get_epoch_ms c r.0)
          (sym (lookup_uncached-fresh c w v s fresh))
          (and_then-keeps (Consistent S get_epoch_ms c)
            (fill_cached S get_epoch_ms w v s.cached_table s)
            (λ s' x. initialize_entry S get_epoch_ms w v (some x) s')
            (fill_cached-Consistent S get_epoch_ms c w v s.cached_table s (λ pinned. cc) k)
            (λ s' x e h. initialize_entry-Consistent S get_epoch_ms c w v (some x) s' h))
  ]

  lookup_at-Consistent :
      (c : LookupConfig) (w : World) (v : ℕ) (found : Option Entry) (s : State)
      → Bound c s
      → Consistent S get_epoch_ms c s
      → Consistent S get_epoch_ms c (lookup_at S get_epoch_ms c w v found s).0
  unfolding lookup_at
  lookup_at-Consistent c w v (some e) s b k = k
  lookup_at-Consistent c w v none s b k =
      elim (Bool-cases (not (has_value S get_epoch_ms s.cached_table) && not (S.table_exists w))) [
        | inl absent ↦ rw absent k
        | inr there ↦ rw there (
            and_then-keeps (Consistent S get_epoch_ms c) (lookup_uncached S get_epoch_ms c w v s)
              (λ (s' : State) (e : Entry). (s', ok (some e)))
              (lookup_uncached-Consistent c w v s b k) (λ s' e r h. h))
      ]

  -- A lookup keeps the catalog's cached table and the transaction's entries at the versions they
  -- stand for, on every path, those that throw included.
  pub lookup_table-Consistent :
      (c : LookupConfig) (w : World) (clause : Option AtClause) (s : State)
      → Consistent S get_epoch_ms c s
      → Consistent S get_epoch_ms c (lookup_table S get_epoch_ms c w clause s).0
  unfolding lookup_table
  lookup_table-Consistent c w clause s k =
      let (kept, bound) = bind_attached_timestamp-Consistent c w s k in
      and_then-keeps (Consistent S get_epoch_ms c) (bind_attached_timestamp S get_epoch_ms c w s)
        (λ s₁ done.
          and_then (requested_version S get_epoch_ms c w clause s₁) (λ s₂ v.
            lookup_at S get_epoch_ms c w v (get_table_entry Entry version v s₂.entries) s₂))
        kept
        (λ s₁ done e k₁.
          let stays = requested_version-Stays c w clause s₁.use_specific_version s₁ (k₁, refl) in
          and_then-keeps (Consistent S get_epoch_ms c)
            (requested_version S get_epoch_ms c w clause s₁)
            (λ s₂ v. lookup_at S get_epoch_ms c w v (get_table_entry Entry version v s₂.entries) s₂)
            stays.0
            (λ s₂ v e₂ k₂.
              lookup_at-Consistent c w v (get_table_entry Entry version v s₂.entries) s₂
                (ap (λ (n : ℕ). c.has_specific_timestamp && (n == invalid_index))
                    (sym (ap (λ (x : State × Result ℕ). x.0.use_specific_version) e₂) ∙ stays.1)
                  ∙ bound s₁ e)
                k₂))
