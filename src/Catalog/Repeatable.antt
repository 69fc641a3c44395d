-- ===== src/Catalog/Repeatable.antt =====
-- Repeatable reads: what `LookupEntry` (src/storage/delta_schema_entry.cpp) answers a second time in
-- the same transaction, when the table's log may have grown in between.
use duckdb_delta.Prelude.{
  ℕ, ◌≡◌, refl, ap, sym, ◌∙◌, inl, inr, true, not, ◌&&◌, Option, none, some, List, ◌∷◌, Result, ok,
  err, ◌==◌, if◌then◌else◌, and_then, and_then-ok, step-injective, step-throws, Bool-cases,
  Result-cases, ==_refl,
}
use duckdb_delta.Kernel.{ℤ}
use duckdb_delta.TimeTravel.{invalid_index, AtClause}
use duckdb_delta.Catalog.Source.{TableSource}
use duckdb_delta.Catalog.Entries.{
  EntryCache, get_table_entry, initialize_table_entry, initialize_latest, initialize_versioned,
  find_version, found_or,
}
use duckdb_delta.Catalog.Versions.{bind_attached_timestamp-again, requested_version-again}
use duckdb_delta.Catalog.Lookup.{
  LookupConfig, LookupState, fill_cached, initialize_entry, bind_attached_timestamp,
  requested_version, lookup_uncached, lookup_at, lookup_table, has_value,
}

find_version-head :
    {A : Type 0} (v : ℕ) (a : A) (rest : List (ℕ × A)) → find_version v ((v, a) ∷ rest) ≡ some a
unfolding find_version
find_version-head v a rest = rw (==_refl v) refl

module _ (S : TableSource) (get_epoch_ms : ℤ → ℤ) where
  open S use {World, Entry, version}

  abbrev State : Type 0
  State = LookupState S get_epoch_ms

  abbrev Cache : Type 0
  Cache = EntryCache Entry version

  initialize_latest-get :
      (old : Option Entry) (created : Result Entry) (c c' : Cache) (e : Entry)
      → c.table_entry ≡ old
      → initialize_latest Entry version old created c ≡ (c', ok e)
      → (c'.table_entry ≡ some e) × (c'.timestamp_versions ≡ c.timestamp_versions)
  unfolding initialize_latest
  initialize_latest-get (some x) created c c' e h r =
      let (same, found) = step-injective c c' x e r in
      (
        sym (ap (λ (k : Cache). k.table_entry) same) ∙ h ∙ ap some found,
        sym (ap (λ (k : Cache). k.timestamp_versions) same),
      )
  initialize_latest-get none (ok x) c c' e h r =
      let (same, found) = step-injective (record c { table_entry = some x }) c' x e r in
      (
        sym (ap (λ (k : Cache). k.table_entry) same) ∙ ap some found,
        sym (ap (λ (k : Cache). k.timestamp_versions) same),
      )
  initialize_latest-get none (err x) c c' e h r = step-throws c c' x e r

  initialize_versioned-get :
      (v : ℕ) (old : Option Entry) (created : Result Entry) (c c' : Cache) (e : Entry)
      → find_version v c.versioned_table_entries ≡ old
      → initialize_versioned Entry version v old created c ≡ (c', ok e)
      → (find_version v c'.versioned_table_entries ≡ some e)
        × (c'.timestamp_versions ≡ c.timestamp_versions)
  unfolding initialize_versioned
  initialize_versioned-get v (some x) created c c' e h r =
      let (same, found) = step-injective c c' x e r in
      (
        sym (ap (λ (k : Cache). find_version v k.versioned_table_entries) same) ∙ h ∙ ap some found,
        sym (ap (λ (k : Cache). k.timestamp_versions) same),
      )
  initialize_versioned-get v none (ok x) c c' e h r =
      let (same, found) =
        step-injective (record c { versioned_table_entries = (v, x) ∷ c.versioned_table_entries })
          c' x e r in
      (
        sym (ap (λ (k : Cache). find_version v k.versioned_table_entries) same)
            ∙ find_version-head v x c.versioned_table_entries
            ∙ ap some found,
        sym (ap (λ (k : Cache). k.timestamp_versions) same),
      )
  initialize_versioned-get v none (err x) c c' e h r = step-throws c c' x e r

  -- What `InitializeTableEntry` returned is what `GetTableEntry` finds from then on.
  initialize_table_entry-get :
      (v : ℕ) (created : Result Entry) (c c' : Cache) (e : Entry)
      → initialize_table_entry Entry version v created c ≡ (c', ok e)
      → (get_table_entry Entry version v c' ≡ some e)
        × (c'.timestamp_versions ≡ c.timestamp_versions)
  unfolding initialize_table_entry get_table_entry found_or
  initialize_table_entry-get v created c c' e r = elim (Bool-cases (v == invalid_index)) [
    | inl head ↦ rw head (initialize_latest-get c.table_entry created c c' e refl (rw head at r))
    | inr named ↦
        let facts =
          initialize_versioned-get v (find_version v c.versioned_table_entries) created c c' e refl
            (rw named at r) in
        (rw (named, facts.0) refl, facts.1)
  ]

  some-injective : (x e : Entry) → ◌≡◌ {A = Option Entry} (some x) (some e) → x ≡ e
  some-injective x e h = cc

  -- What a step of a lookup leaves as it was.
  pub record Frame (s s' : State) : Type 0 where
    pub attached : s'.use_specific_version ≡ s.use_specific_version
    pub times : s'.entries.timestamp_versions ≡ s.entries.timestamp_versions

  pub initialize_entry-get :
      (w : World) (v : ℕ) (old : Option Entry) (s s' : State) (e : Entry)
      → initialize_entry S get_epoch_ms w v old s ≡ (s', ok e)
      → Frame s s' × (get_table_entry Entry version v s'.entries ≡ some e)
  unfolding initialize_entry
  initialize_entry-get w v old s s' e r =
      let (found, times) =
        initialize_table_entry-get v (S.create_table_entry w v old) s.entries s'.entries e
          (λ i. ((r i).0.entries, (r i).1)) in
      (
        record {
          attached = sym (ap (λ (x : State × Result Entry). x.0.use_specific_version) r);
          times = times;
        },
        found,
      )

  pub fill_cached-get :
      (w : World) (v : ℕ) (old : Option Entry) (s s' : State) (e : Entry)
      → s.cached_table ≡ old
      → fill_cached S get_epoch_ms w v old s ≡ (s', ok e)
      → Frame s s' × (s'.cached_table ≡ some e) × (s'.entries ≡ s.entries)
  unfolding fill_cached
  fill_cached-get w v (some x) s s' e h r =
      let (same, found) = step-injective s s' x e r in
      (
        record {
          attached = sym (ap (λ (k : State). k.use_specific_version) same);
          times = sym (ap (λ (k : State). k.entries.timestamp_versions) same);
        },
        sym (ap (λ (k : State). k.cached_table) same) ∙ h ∙ ap some found,
        sym (ap (λ (k : State). k.entries) same),
      )
  fill_cached-get w v none s s' e h r = elim (Result-cases (S.create_table_entry w v none)) [
    | inl (x, made) ↦
        let (same, found) =
          step-injective (record s { cached_table = some x }) s' x e
            (rw (made, fill_cached) at r) in
        (
          record {
            attached = sym (ap (λ (k : State). k.use_specific_version) same);
            times = sym (ap (λ (k : State). k.entries.timestamp_versions) same);
          },
          sym (ap (λ (k : State). k.cached_table) same) ∙ ap some found,
          sym (ap (λ (k : State). k.entries) same),
        )
    | inr (x, failed) ↦ step-throws s s' x e (rw (failed, fill_cached) at r)
  ]

  Frame-trans : (s t u : State) → Frame s t → Frame t u → Frame s u
  Frame-trans s t u f g = record { attached = g.attached ∙ f.attached; times = g.times ∙ f.times }

  -- A step that returned an entry for a version answers the same at any later time.
  abbrev pub Answers : LookupConfig → ℕ → State → Entry → Type 0
  Answers c v s e =
      (w' : World)
      → lookup_at S get_epoch_ms c w' v (get_table_entry Entry version v s.entries) s
        ≡ (s, ok (some e))

  get-Answers :
      (c : LookupConfig) (v : ℕ) (s : State) (e : Entry)
      → get_table_entry Entry version v s.entries ≡ some e
      → Answers c v s e
  unfolding lookup_at
  get-Answers c v s e h w' = ap (λ (x : Option Entry). lookup_at S get_epoch_ms c w' v x s) h

  lookup_uncached-cached :
      (c : LookupConfig) (w : World) (v : ℕ) (s : State) (e : Entry)
      → c.use_cache ≡ true
      → (s.use_specific_version == v) ≡ true
      → s.cached_table ≡ some e
      → lookup_uncached S get_epoch_ms c w v s ≡ (s, ok e)
  unfolding lookup_uncached fill_cached
  lookup_uncached-cached c w v s e pinned same cached =
      rw (pinned, same) (ap (λ (x : Option Entry). fill_cached S get_epoch_ms w v x s) cached)

  cached-Answers :
      (c : LookupConfig) (v : ℕ) (s : State) (e : Entry)
      → c.use_cache ≡ true
      → (s.use_specific_version == v) ≡ true
      → get_table_entry Entry version v s.entries ≡ none
      → s.cached_table ≡ some e
      → Answers c v s e
  unfolding lookup_at
  cached-Answers c v s e pinned same missing cached w' =
      ap (λ (x : Option Entry). lookup_at S get_epoch_ms c w' v x s) missing
      ∙ ap
          (λ (x : Option Entry).
            if not (has_value S get_epoch_ms x) && not (S.table_exists w')
            then (s, ok none)
            else and_then (lookup_uncached S get_epoch_ms c w' v s) (λ s' e. (s', ok (some e))))
          cached
      ∙ ap
          (λ (r : State × Result Entry). and_then r (λ (s' : State) (e : Entry). (s', ok (some e))))
          (lookup_uncached-cached c w' v s e pinned same cached)

  -- The outcome of a lookup past the transaction's entries, by the version asked for.
  lookup_uncached-Answers :
      (c : LookupConfig) (w : World) (v : ℕ) (s s' : State) (e : Entry)
      → get_table_entry Entry version v s.entries ≡ none
      → lookup_uncached S get_epoch_ms c w v s ≡ (s', ok e)
      → Frame s s' × Answers c v s' e
  unfolding lookup_uncached
  lookup_uncached-Answers c w v s s' e missing r = elim (Bool-cases c.use_cache) [
    | inl pinned ↦ elim (Bool-cases (s.use_specific_version == v)) [
      | inl same ↦
          let (frame, cached, entries) =
            fill_cached-get w v s.cached_table s s' e refl
              (rw (pinned, same, lookup_uncached) at r) in
          (
            frame,
            cached-Answers c v s' e pinned (ap (λ (n : ℕ). n == v) frame.attached ∙ same)
                (ap (get_table_entry Entry version v) entries ∙ missing) cached,
          )
      | inr other ↦
          let (frame, found) =
            initialize_entry-get w v none s s' e (rw (pinned, other, lookup_uncached) at r) in
          (frame, get-Answers c v s' e found)
    ]
    | inr fresh ↦
        let (t, x, filled, made) =
          and_then-ok (fill_cached S get_epoch_ms w v s.cached_table s)
            (λ s' x. initialize_entry S get_epoch_ms w v (some x) s') s' e
            (rw (fresh, lookup_uncached) at r) in
        let (frame, cached, entries) = fill_cached-get w v s.cached_table s t x refl filled in
        let (frame', found) = initialize_entry-get w v (some x) t s' e made in
        (Frame-trans s t s' frame frame', get-Answers c v s' e found)
  ]

  pub lookup_at-Answers :
      (c : LookupConfig) (w : World) (v : ℕ) (found : Option Entry) (s s' : State) (e : Entry)
      → get_table_entry Entry version v s.entries ≡ found
      → lookup_at S get_epoch_ms c w v found s ≡ (s', ok (some e))
      → Frame s s' × Answers c v s' e
  unfolding lookup_at
  lookup_at-Answers c w v (some x) s s' e h r =
      let (same, found) = step-injective s s' (some x) (some e) r in
      (
        record {
          attached = sym (ap (λ (k : State). k.use_specific_version) same);
          times = sym (ap (λ (k : State). k.entries.timestamp_versions) same);
        },
        get-Answers c v s' e
            (sym (ap (λ (k : State). get_table_entry Entry version v k.entries) same) ∙ h ∙ found),
      )
  lookup_at-Answers c w v none s s' e h r =
      elim (Bool-cases (not (has_value S get_epoch_ms s.cached_table) && not (S.table_exists w))) [
        | inl absent ↦
            cc (ap (λ (x : State × Result (Option Entry)). x.1) (rw (absent, lookup_at) at r))
        | inr there ↦
            let (t, x, done, last) =
              and_then-ok (lookup_uncached S get_epoch_ms c w v s)
                (λ (s' : State) (e : Entry). (s', ok (some e))) s' (some e)
                (rw (there, lookup_at) at r) in
            let (same, found) = step-injective t s' (some x) (some e) last in
            lookup_uncached-Answers c w v s s' e h
              (done ∙ λ i. (same i, ok (some-injective x e found i)))
      ]

  -- Once a lookup of the table has returned an entry, the same lookup from the state that it left
  -- returns the same entry and changes nothing, whatever has happened to the table's storage in
  -- between. This holds for the attached table without an AT clause, for AT
  -- VERSION and for AT TIMESTAMP, whatever the attach options are.
  pub lookup_table-repeatable :
      (c : LookupConfig) (w w' : World) (clause : Option AtClause) (s s' : State) (e : Entry)
      → lookup_table S get_epoch_ms c w clause s ≡ (s', ok (some e))
      → lookup_table S get_epoch_ms c w' clause s' ≡ (s', ok (some e))
  unfolding lookup_table
  lookup_table-repeatable c w w' clause s s' e r =
      let (s₁, done, bound, rest) =
        and_then-ok (bind_attached_timestamp S get_epoch_ms c w s)
          (λ s₁ done. and_then (requested_version S get_epoch_ms c w clause s₁) (λ s₂ v.
            lookup_at S get_epoch_ms c w v (get_table_entry Entry version v s₂.entries) s₂))
          s' (some e) r in
      let (s₂, v, asked, last) =
        and_then-ok (requested_version S get_epoch_ms c w clause s₁)
          (λ s₂ v. lookup_at S get_epoch_ms c w v (get_table_entry Entry version v s₂.entries) s₂)
          s' (some e) rest in
      let (frame, answers) =
        lookup_at-Answers c w v (get_table_entry Entry version v s₂.entries) s₂ s' e refl last in
      let (kept, again) =
        requested_version-again S get_epoch_ms c w w' clause s₁ s₂ s' v asked frame.attached
          frame.times in
      ap
        (λ (x : State × Result (Unit {0})). and_then x (λ s₁ done.
          and_then (requested_version S get_epoch_ms c w' clause s₁) (λ s₂ v.
            lookup_at S get_epoch_ms c w' v (get_table_entry Entry version v s₂.entries) s₂)))
        (bind_attached_timestamp-again S get_epoch_ms c w w' s s₁ s' bound (frame.attached ∙ kept))
      ∙ ap
          (λ (x : State × Result ℕ). and_then x (λ s₂ v.
            lookup_at S get_epoch_ms c w' v (get_table_entry Entry version v s₂.entries) s₂))
          again
      ∙ answers w'
