-- ===== src/Catalog/Requested.antt =====
-- The version of the entry that a lookup returns (src/storage/delta_schema_entry.cpp).
use duckdb_delta.Prelude.{
  ok-injective, ℕ, ◌≡◌, ◌≢◌, refl, ap, sym, ◌∙◌, inl, inr, true, false, not, ◌&&◌, Option, none,
  some, Result, ok, ◌==◌, and_then, and_then-ok, step-injective, Bool-cases, ==_iff, subst,
}
use duckdb_delta.Kernel.{ℤ}
use duckdb_delta.TimeTravel.{invalid_index, AtClause}
use duckdb_delta.Catalog.Source.{TableSource}
use duckdb_delta.Catalog.Entries.{get_table_entry}
use duckdb_delta.Catalog.Pinned.{
  Consistent, Pinned, get_table_entry-version, fill_cached-Consistent, initialize_entry-Consistent,
}
use duckdb_delta.Catalog.Kept.{
  lookup_uncached-pinned, lookup_uncached-fresh, bind_attached_timestamp-Consistent,
  requested_version-Stays,
}
use duckdb_delta.Catalog.Repeatable.{initialize_entry-get, fill_cached-get, lookup_at-Answers}
use duckdb_delta.Catalog.Versions.{requested_version-again}
use duckdb_delta.Catalog.Lookup.{
  LookupConfig, LookupState, fill_cached, initialize_entry, bind_attached_timestamp,
  requested_version, lookup_uncached, lookup_at, lookup_table, has_value,
}

some-injective : {A : Type 0} (x e : A) → ◌≡◌ {A = Option A} (some x) (some e) → x ≡ e
some-injective x e h = cc

module _ (S : TableSource) (get_epoch_ms : ℤ → ℤ) where
  open S use {World, Entry, version}

  abbrev State : Type 0
  State = LookupState S get_epoch_ms

  initialize_entry-version :
      (c : LookupConfig) (w : World) (v : ℕ) (old : Option Entry) (s s' : State) (e : Entry)
      → v ≢ invalid_index
      → Consistent S get_epoch_ms c s
      → initialize_entry S get_epoch_ms w v old s ≡ (s', ok e)
      → version e ≡ v
  initialize_entry-version c w v old s s' e ne k r =
      get_table_entry-version S get_epoch_ms v s'.entries e ne
        (subst (λ (x : State × Result Entry). Consistent S get_epoch_ms c x.0) r
          (initialize_entry-Consistent S get_epoch_ms c w v old s k)).0
        (initialize_entry-get S get_epoch_ms w v old s s' e r).1

  -- What was cached for the attached version holds it.
  fill_cached-version :
      (c : LookupConfig) (w : World) (v : ℕ) (s s' : State) (e : Entry)
      → c.use_cache ≡ true
      → s.use_specific_version ≡ v
      → v ≢ invalid_index
      → Consistent S get_epoch_ms c s
      → fill_cached S get_epoch_ms w v s.cached_table s ≡ (s', ok e)
      → version e ≡ v
  fill_cached-version c w v s s' e pinned same ne k r =
      let (frame, cached, entries) =
        fill_cached-get S get_epoch_ms w v s.cached_table s s' e refl r in
      let k' =
        subst (λ (x : State × Result Entry). Consistent S get_epoch_ms c x.0) r
          (fill_cached-Consistent S get_epoch_ms c w v s.cached_table s
            (λ p. (λ h. sym same, λ h. absurd (ne (sym same ∙ h)))) k) in
      let held = subst (λ x. Pinned S get_epoch_ms c s'.use_specific_version x) cached k'.1 in
      (held pinned).0 (λ h. ne (sym (frame.attached ∙ same) ∙ h)) ∙ frame.attached ∙ same

  lookup_uncached-version :
      (c : LookupConfig) (w : World) (v : ℕ) (s s' : State) (e : Entry)
      → v ≢ invalid_index
      → Consistent S get_epoch_ms c s
      → lookup_uncached S get_epoch_ms c w v s ≡ (s', ok e)
      → version e ≡ v
  lookup_uncached-version c w v s s' e ne k r = elim (Bool-cases c.use_cache) [
    | inl pinned ↦ elim (Bool-cases (s.use_specific_version == v)) [
      | inl same ↦
          fill_cached-version c w v s s' e pinned ((==_iff s.use_specific_version v).0 same) ne k
            (sym (lookup_uncached-pinned S get_epoch_ms c w v s true pinned same) ∙ r)
      | inr other ↦
          initialize_entry-version c w v none s s' e ne k
            (sym (lookup_uncached-pinned S get_epoch_ms c w v s false pinned other) ∙ r)
    ]
    | inr fresh ↦
        let (t, x, filled, made) =
          and_then-ok (fill_cached S get_epoch_ms w v s.cached_table s)
            (λ s' x. initialize_entry S get_epoch_ms w v (some x) s') s' e
            (sym (lookup_uncached-fresh S get_epoch_ms c w v s fresh) ∙ r) in
        initialize_entry-version c w v (some x) t s' e ne
          (subst (λ (x : State × Result Entry). Consistent S get_epoch_ms c x.0) filled
            (fill_cached-Consistent S get_epoch_ms c w v s.cached_table s (λ pinned. cc) k))
          made
  ]

  lookup_at-version :
      (c : LookupConfig) (w : World) (v : ℕ) (found : Option Entry) (s s' : State) (e : Entry)
      → v ≢ invalid_index
      → Consistent S get_epoch_ms c s
      → get_table_entry Entry version v s.entries ≡ found
      → lookup_at S get_epoch_ms c w v found s ≡ (s', ok (some e))
      → version e ≡ v
  unfolding lookup_at
  lookup_at-version c w v (some x) s s' e ne k h r =
      let (same, found) = step-injective s s' (some x) (some e) r in
      get_table_entry-version S get_epoch_ms v s.entries e ne k.0 (h ∙ found)
  lookup_at-version c w v none s s' e ne k h r =
      elim (Bool-cases (not (has_value S get_epoch_ms s.cached_table) && not (S.table_exists w))) [
        | inl absent ↦
            cc (ap (λ (x : State × Result (Option Entry)). x.1) (rw (absent, lookup_at) at r))
        | inr there ↦
            let (t, x, done, last) =
              and_then-ok (lookup_uncached S get_epoch_ms c w v s)
                (λ (s' : State) (e : Entry). (s', ok (some e))) s' (some e)
                (rw (there, lookup_at) at r) in
            let (same, found) = step-injective t s' (some x) (some e) last in
            lookup_uncached-version c w v s s' e ne k
              (done ∙ λ i. (same i, ok (some-injective x e found i)))
      ]

  -- In a consistent state, the entry that a lookup returns is at the version that was asked for: the
  -- one of AT VERSION, the one that AT TIMESTAMP stands for in this transaction, or without an AT
  -- clause the one the catalog is attached at. A lookup that asks for the latest version is left out.
  pub lookup_table-version :
      (c : LookupConfig) (w : World) (clause : Option AtClause) (s s' : State) (e : Entry) (v : ℕ)
      → Consistent S get_epoch_ms c s
      → lookup_table S get_epoch_ms c w clause s ≡ (s', ok (some e))
      → requested_version S get_epoch_ms c w clause s' ≡ (s', ok v)
      → v ≢ invalid_index
      → version e ≡ v
  unfolding lookup_table
  lookup_table-version c w clause s s' e v k r asks ne =
      let (s₁, done, bound, rest) =
        and_then-ok (bind_attached_timestamp S get_epoch_ms c w s)
          (λ s₁ done. and_then (requested_version S get_epoch_ms c w clause s₁) (λ s₂ v.
            lookup_at S get_epoch_ms c w v (get_table_entry Entry version v s₂.entries) s₂))
          s' (some e) r in
      let (s₂, x, asked, last) =
        and_then-ok (requested_version S get_epoch_ms c w clause s₁)
          (λ s₂ v. lookup_at S get_epoch_ms c w v (get_table_entry Entry version v s₂.entries) s₂)
          s' (some e) rest in
      let k₁ =
        subst (λ (x : State × Result (Unit {0})). Consistent S get_epoch_ms c x.0) bound
          (bind_attached_timestamp-Consistent S get_epoch_ms c w s k).0 in
      let k₂ =
        subst (λ (x : State × Result ℕ). Consistent S get_epoch_ms c x.0) asked
          (requested_version-Stays S get_epoch_ms c w clause s₁.use_specific_version s₁
            (k₁, refl)).0 in
      let (frame, answers) =
        lookup_at-Answers S get_epoch_ms c w x (get_table_entry Entry version x s₂.entries) s₂ s' e
          refl last in
      let (kept, again) =
        requested_version-again S get_epoch_ms c w w clause s₁ s₂ s' x asked frame.attached
          frame.times in
      let same = ok-injective (ap (λ (x : State × Result ℕ). x.1) (sym again ∙ asks)) in
      lookup_at-version c w x (get_table_entry Entry version x s₂.entries) s₂ s' e
        (λ h. ne (sym same ∙ h)) k₂ refl last
      ∙ same
