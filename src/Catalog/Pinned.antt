-- ===== src/Catalog/Pinned.antt =====
-- The versions that a catalog's cached table and a transaction's entries stand for, and that a lookup
-- keeps them (src/storage/delta_schema_entry.cpp, src/storage/delta_transaction.cpp).
use duckdb_delta.Prelude.{
  ℕ, ◌≡◌, ◌≢◌, refl, ap, sym, ◌∙◌, inl, inr, Bool, true, false, not, ◌&&◌, Option, none, some, List,
  [], ◌∷◌, arith, Result, ok, err, ◌==◌, All, and_then-keeps, ◌>>=◌, Bool-cases, Result-cases,
  ==_iff,
}
use duckdb_delta.Kernel.{ℤ}
use duckdb_delta.TimeTravel.{invalid_index, timestamp_to_epoch_ms, Timestamp}
use duckdb_delta.Catalog.Source.{TableSource}
use duckdb_delta.Catalog.Entries.{
  EntryCache, get_table_entry, initialize_table_entry, initialize_latest, initialize_versioned,
  find_version, found_or, entry_at,
}
use duckdb_delta.Catalog.Lookup.{
  LookupConfig, LookupState, fill_cached, initialize_entry, transaction_head, resolve_timestamp,
}

and_invalid-true :
    (b : Bool) (v : ℕ) → (not b && (v == invalid_index)) ≡ true → (b ≡ false) × (v ≡ invalid_index)
and_invalid-true b v h = ground arith

some-injective : {A : Type 0} (x e : A) → ◌≡◌ {A = Option A} (some x) (some e) → x ≡ e
some-injective x e h = cc

module _ (S : TableSource) (get_epoch_ms : ℤ → ℤ) where
  open S use {World, Entry, version}

  abbrev State : Type 0
  State = LookupState S get_epoch_ms

  -- Every entry that a transaction keeps by version holds that version.
  abbrev pub Keyed : List (ℕ × Entry) → Type 0
  Keyed = All λ (p : ℕ × Entry). version p.1 ≡ p.0

  -- A catalog that pins its snapshot has cached the version it is attached at, if it is at one, and
  -- has cached nothing as long as an attached timestamp is not bound.
  abbrev pub Pinned : LookupConfig → ℕ → Option Entry → Type 0
  Pinned c u none = Unit {0}
  Pinned c u (some e) =
      c.use_cache ≡ true
      → (u ≢ invalid_index → version e ≡ u) × (u ≡ invalid_index → c.has_specific_timestamp ≡ false)

  abbrev pub Consistent : LookupConfig → State → Type 0
  Consistent c s =
      Keyed s.entries.versioned_table_entries × Pinned c s.use_specific_version s.cached_table

  abbrev pub Fillable : LookupConfig → ℕ → ℕ → Type 0
  Fillable c u v =
      c.use_cache ≡ true
      → (u ≢ invalid_index → v ≡ u) × (u ≡ invalid_index → c.has_specific_timestamp ≡ false)

  find_version-Keyed :
      (v : ℕ) (l : List (ℕ × Entry)) (e : Entry)
      → Keyed l
      → find_version v l ≡ some e
      → version e ≡ v
  unfolding find_version
  find_version-Keyed v [] e k h = cc
  find_version-Keyed v ((key, x) ∷ rest) e k h = elim (Bool-cases (key == v)) [
    | inl here ↦
        ap version (sym (some-injective x e (rw (here, find_version) at h)))
        ∙ k.0
        ∙ (==_iff key v).0 here
    | inr there ↦ find_version-Keyed v rest e k.1 (rw (there, find_version) at h)
  ]

  pub fill_cached-Consistent :
      (c : LookupConfig) (w : World) (v : ℕ) (old : Option Entry) (s : State)
      → Fillable c s.use_specific_version v
      → Consistent c s
      → Consistent c (fill_cached S get_epoch_ms w v old s).0
  unfolding fill_cached
  fill_cached-Consistent c w v (some x) s f k = k
  fill_cached-Consistent c w v none s f k = elim (Result-cases (S.create_table_entry w v none)) [
    | inl (x, made) ↦
        rw (made, fill_cached)
          (
            k.0,
            λ pinned. (
              λ ne.
                  S.version-create_table_entry w v none x (λ h. ne (sym ((f pinned).0 ne) ∙ h)) made
                  ∙ (f pinned).0 ne,
              (f pinned).1,
            ),
          )
    | inr (x, failed) ↦ rw (failed, fill_cached) k
  ]

  initialize_versioned-Keyed :
      (w : World) (v : ℕ) (given found : Option Entry) (c : EntryCache Entry version)
      → v ≢ invalid_index
      → Keyed c.versioned_table_entries
      → Keyed
          (initialize_versioned Entry version v found
            (S.create_table_entry w v given)
            c).0.versioned_table_entries
  unfolding initialize_versioned
  initialize_versioned-Keyed w v given (some x) c ne k = k
  initialize_versioned-Keyed w v given none c ne k =
      elim (Result-cases (S.create_table_entry w v given)) [
        | inl (x, made) ↦
            rw (made, initialize_versioned) (S.version-create_table_entry w v given x ne made, k)
        | inr (x, failed) ↦ rw (failed, initialize_versioned) k
      ]

  initialize_latest-Keyed :
      (found : Option Entry) (created : Result Entry) (c : EntryCache Entry version)
      → Keyed c.versioned_table_entries
      → Keyed (initialize_latest Entry version found created c).0.versioned_table_entries
  unfolding initialize_latest
  initialize_latest-Keyed (some x) created c k = k
  initialize_latest-Keyed none (ok x) c k = k
  initialize_latest-Keyed none (err x) c k = k

  pub initialize_entry-Consistent :
      (c : LookupConfig) (w : World) (v : ℕ) (old : Option Entry) (s : State)
      → Consistent c s
      → Consistent c (initialize_entry S get_epoch_ms w v old s).0
  unfolding initialize_entry initialize_table_entry
  initialize_entry-Consistent c w v old s k = elim (Bool-cases (v == invalid_index)) [
    | inl head ↦ (
      rw head (
          initialize_latest-Keyed s.entries.table_entry (S.create_table_entry w v old) s.entries
            k.0),
      k.1,
    )
    | inr named ↦ (
      rw named (
          initialize_versioned-Keyed w v old (find_version v s.entries.versioned_table_entries)
            s.entries (ground arith) k.0),
      k.1,
    )
  ]

  transaction_head-Consistent :
      (c : LookupConfig) (w : World) (s : State)
      → Consistent c s
      → Consistent c (transaction_head S get_epoch_ms c w s).0
  unfolding transaction_head
  transaction_head-Consistent c w s k = elim (Bool-cases (not c.use_cache)) [
    | inl fresh ↦ rw fresh (
        and_then-keeps (Consistent c) (fill_cached S get_epoch_ms w invalid_index s.cached_table s)
          (λ s' e. initialize_entry S get_epoch_ms w invalid_index (some e) s')
          (fill_cached-Consistent c w invalid_index s.cached_table s
            (λ pinned. absurd (ground arith)) k)
          (λ s' e filled h. initialize_entry-Consistent c w invalid_index (some e) s' h))
    | inr pinned ↦
        elim (Bool-cases
          (not c.has_specific_timestamp && (s.use_specific_version == invalid_index))) [
            | inl head ↦
                rw (pinned, head)
                  (fill_cached-Consistent c w invalid_index s.cached_table s
                    (λ p. (
                      λ ne. absurd (
                          ne
                            (and_invalid-true c.has_specific_timestamp s.use_specific_version
                              head).1),
                      λ h.
                          (and_invalid-true c.has_specific_timestamp s.use_specific_version head).0,
                    ))
                    k)
            | inr named ↦
                rw (pinned, named)
                  (initialize_entry-Consistent c w invalid_index s.cached_table s k)
          ]
  ]

  pub resolve_timestamp-Consistent :
      (c : LookupConfig) (w : World) (t : Timestamp) (s : State)
      → Consistent c s
      → Consistent c (resolve_timestamp S get_epoch_ms c w t s).0
  unfolding resolve_timestamp
  resolve_timestamp-Consistent c w t s k =
      and_then-keeps (Consistent c) (transaction_head S get_epoch_ms c w s)
        (λ s' head.
          (s', timestamp_to_epoch_ms get_epoch_ms t >>= S.resolve_timestamp_within w head))
        (transaction_head-Consistent c w s k) (λ s' head e h. h)

  entry_at-version :
      (v : ℕ) (o : Option Entry) (e : Entry) → entry_at Entry version v o ≡ some e → version e ≡ v
  unfolding entry_at
  entry_at-version v none e h = cc
  entry_at-version v (some x) e h = elim (Bool-cases (version x == v)) [
    | inl same ↦
        ap version (sym (some-injective x e (rw (same, entry_at) at h)))
        ∙ (==_iff (version x) v).0 same
    | inr other ↦ cc (rw (other, entry_at) at h)
  ]

  found_or-version :
      (v : ℕ) (l : List (ℕ × Entry)) (o found : Option Entry) (e : Entry)
      → Keyed l
      → find_version v l ≡ found
      → found_or Entry version found (entry_at Entry version v o) ≡ some e
      → version e ≡ v
  unfolding found_or
  found_or-version v l o (some x) e k h r = find_version-Keyed v l e k (h ∙ r)
  found_or-version v l o none e k h r = entry_at-version v o e r

  pub get_table_entry-version :
      (v : ℕ) (c : EntryCache Entry version) (e : Entry)
      → v ≢ invalid_index
      → Keyed c.versioned_table_entries
      → get_table_entry Entry version v c ≡ some e
      → version e ≡ v
  unfolding get_table_entry
  get_table_entry-version v c e ne k h = elim (Bool-cases (v == invalid_index)) [
    | inl head ↦ absurd (ne ((==_iff v invalid_index).0 head))
    | inr named ↦
        found_or-version v c.versioned_table_entries c.table_entry
          (find_version v c.versioned_table_entries) e k refl (rw (named, get_table_entry) at h)
  ]
