-- ===== src/Catalog/Lookup.antt =====
-- `TransactionHead`, `ResolveTimestamp` and `LookupEntry` (src/storage/delta_schema_entry.cpp). The
-- calls of `CreateTableEntry` and of the log are those of the table's source.
use duckdb_delta.Prelude.{
  ℕ, Bool, true, false, not, ◌&&◌, ◌||◌, Option, none, some, Result, ok, err, ◌==◌, if◌then◌else◌,
  and_then, ◌>>=◌,
}
use duckdb_delta.Prelude.Bytes.{Text}
use duckdb_delta.Kernel.{ℤ}
use duckdb_delta.TimeTravel.{
  invalid_index, Timestamp, AtClause, DeltaTimeTravelSpec, latest, from_version, from_timestamp,
  from_at_clause, timestamp_to_epoch_ms, get_version,
}
use duckdb_delta.Catalog.Source.{TableSource}
use duckdb_delta.Catalog.Entries.{
  EntryCache, get_table_entry, set_timestamp_version, initialize_table_entry, find_timestamp,
}

-- The fields of `DeltaCatalog` that a lookup reads and never writes.
pub record LookupConfig : Type 0 where
  pub use_cache : Bool
  pub has_specific_timestamp : Bool
  pub specific_timestamp : Timestamp
  pub catalog_name : Text
  pub internal_table_name : Text
  -- DuckDB's comparison of identifiers
  pub identifier_eq : Text → Text → Bool

-- `EntryLookupInfo`
pub record EntryLookup : Type 0 where
  pub is_table_entry : Bool
  pub name : Text
  pub at_clause : Option AtClause

module _ (S : TableSource) (get_epoch_ms : ℤ → ℤ) where
  open S use {World, Entry, version}

  -- What a lookup may write: the catalog's version, the schema's cached table, and the
  -- transaction's entries.
  pub record LookupState : Type 0 where
    pub use_specific_version : ℕ
    pub cached_table : Option Entry
    pub entries : EntryCache Entry version

  abbrev pub Step : Type 0 → Type 0
  Step A = LookupState × Result A

  -- `if (!cached_table) cached_table = CreateTableEntry(context, v, nullptr);`
  unfoldable pub fill_cached : World → ℕ → Option Entry → LookupState → Step Entry
  fill_cached w v (some e) s = (s, ok e)
  fill_cached w v none s = elim (S.create_table_entry w v none) [
    | ok e ↦ (record s { cached_table = some e }, ok e)
    | err x ↦ (s, err x)
  ]

  -- `transaction.InitializeTableEntry(context, *this, v, old)`
  unfoldable pub initialize_entry : World → ℕ → Option Entry → LookupState → Step Entry
  unfolding initialize_table_entry
  initialize_entry w v old s =
      let r = initialize_table_entry Entry version v (S.create_table_entry w v old) s.entries in
      (record s { entries = r.0 }, r.1)

  unfoldable pub transaction_head : LookupConfig → World → LookupState → Step Entry
  unfolding fill_cached initialize_entry
  transaction_head c w s =
      if not c.use_cache
      then and_then (fill_cached w invalid_index s.cached_table s)
          (λ s' e. initialize_entry w invalid_index (some e) s')
      else if not c.has_specific_timestamp && (s.use_specific_version == invalid_index)
      then fill_cached w invalid_index s.cached_table s
      else initialize_entry w invalid_index s.cached_table s

  unfoldable pub resolve_timestamp : LookupConfig → World → Timestamp → LookupState → Step ℕ
  unfolding transaction_head timestamp_to_epoch_ms
  resolve_timestamp c w t s =
      and_then (transaction_head c w s) (λ s' head.
        (s', timestamp_to_epoch_ms get_epoch_ms t >>= S.resolve_timestamp_within w head))

  -- An attached timestamp binds to a version on first use.
  unfoldable pub bind_attached_timestamp : LookupConfig → World → LookupState → Step (Unit {0})
  unfolding resolve_timestamp
  bind_attached_timestamp c w s =
      if c.has_specific_timestamp && (s.use_specific_version == invalid_index)
      then and_then (resolve_timestamp c w c.specific_timestamp s)
          (λ s' v. (record s' { use_specific_version = v }, ok tt))
      else (s, ok tt)

  -- The version of an AT clause by timestamp: the one resolved earlier in this transaction, if any.
  unfoldable pub remembered_or_resolve :
      LookupConfig → World → Timestamp → ℤ → Option ℕ → LookupState → Step ℕ
  unfolding resolve_timestamp set_timestamp_version
  remembered_or_resolve c w t ms (some v) s = (s, ok v)
  remembered_or_resolve c w t ms none s = and_then (resolve_timestamp c w t s) (λ s' v.
      let r = set_timestamp_version Entry version ms v s'.entries in
      (record s' { entries = r.0 }, ok r.1))

  unfoldable pub spec_version : LookupConfig → World → DeltaTimeTravelSpec → LookupState → Step ℕ
  unfolding remembered_or_resolve timestamp_to_epoch_ms find_timestamp get_version
  spec_version c w (from_timestamp t) s =
      and_then (s, timestamp_to_epoch_ms get_epoch_ms t)
        (λ s' ms.
          remembered_or_resolve c w t ms (find_timestamp ms s'.entries.timestamp_versions) s')
  spec_version c w (from_version v) s = (s, get_version (from_version v))
  spec_version c w latest s = (s, get_version latest)

  unfoldable pub requested_version : LookupConfig → World → Option AtClause → LookupState → Step ℕ
  unfolding spec_version from_at_clause
  requested_version c w none s = (s, ok s.use_specific_version)
  requested_version c w (some clause) s =
      and_then (s, from_at_clause clause) (λ s' spec. spec_version c w spec s')

  -- Past the transaction's own entries.
  unfoldable pub lookup_uncached : LookupConfig → World → ℕ → LookupState → Step Entry
  unfolding fill_cached initialize_entry
  lookup_uncached c w v s =
      if c.use_cache
      then (if s.use_specific_version == v
          then fill_cached w v s.cached_table s
          else initialize_entry w v none s)
      else and_then (fill_cached w v s.cached_table s) (λ s' e. initialize_entry w v (some e) s')

  abbrev pub has_value : Option Entry → Bool
  has_value none = false
  has_value (some e) = true

  unfoldable pub lookup_at :
      LookupConfig → World → ℕ → Option Entry → LookupState → Step (Option Entry)
  unfolding lookup_uncached
  lookup_at c w v (some e) s = (s, ok (some e))
  lookup_at c w v none s =
      if not (has_value s.cached_table) && not (S.table_exists w)
      then (s, ok none)
      else and_then (lookup_uncached c w v s) (λ s' e. (s', ok (some e)))

  unfoldable pub lookup_table :
      LookupConfig → World → Option AtClause → LookupState → Step (Option Entry)
  unfolding bind_attached_timestamp requested_version lookup_at get_table_entry
  lookup_table c w clause s = and_then (bind_attached_timestamp c w s) (λ s₁ done.
      and_then (requested_version c w clause s₁)
        (λ s₂ v. lookup_at c w v (get_table_entry Entry version v s₂.entries) s₂))

  unfoldable pub lookup_entry :
      LookupConfig → World → EntryLookup → LookupState → Step (Option Entry)
  unfolding lookup_table
  lookup_entry c w info s =
      if info.is_table_entry
        && (c.identifier_eq info.name c.catalog_name
            || c.identifier_eq info.name c.internal_table_name)
      then lookup_table c w info.at_clause s
      else (s, ok none)
