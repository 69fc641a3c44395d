-- ===== src/Catalog/Entries.antt =====
-- The table entries that a transaction keeps: `GetTableEntry`, `GetTimestampVersion`,
-- `SetTimestampVersion` and `InitializeTableEntry` (src/storage/delta_transaction.cpp). They are the
-- part of `DeltaTransaction` that a lookup reads and writes.
use duckdb_delta.Prelude.{
  ℕ, Option, none, some, List, [], ◌∷◌, Result, ok, err, ◌==◌, if◌then◌else◌,
}
use duckdb_delta.Kernel.{ℤ}
use duckdb_delta.TimeTravel.{invalid_index, eqb_ℤ}

unfoldable pub find_version {ℓ} : {A : Type ℓ} → ℕ → List (ℕ × A) → Option A
find_version v [] = none
find_version v ((key, e) ∷ rest) = if key == v then some e else find_version v rest

unfoldable pub find_timestamp : ℤ → List (ℤ × ℕ) → Option ℕ
find_timestamp ms [] = none
find_timestamp ms ((key, v) ∷ rest) = if eqb_ℤ key ms then some v else find_timestamp ms rest

module _ (Entry : Type 0) (version : Entry → ℕ) where
  pub record EntryCache : Type 0 where
    pub table_entry : Option Entry
    pub versioned_table_entries : List (ℕ × Entry)
    pub timestamp_versions : List (ℤ × ℕ)

  -- The table entry, if it stands at the version.
  unfoldable pub entry_at : ℕ → Option Entry → Option Entry
  entry_at v none = none
  entry_at v (some e) = if version e == v then some e else none

  unfoldable pub found_or {ℓ} : {A : Type ℓ} → Option A → Option A → Option A
  found_or (some e) other = some e
  found_or none other = other

  unfoldable pub get_table_entry : ℕ → EntryCache → Option Entry
  unfolding find_version entry_at found_or
  get_table_entry v c =
      if v == invalid_index
      then c.table_entry
      else found_or (find_version v c.versioned_table_entries) (entry_at v c.table_entry)

  -- `emplace`, which keeps what is there; the version that holds afterwards is returned.
  unfoldable pub set_timestamp_version : ℤ → ℕ → EntryCache → EntryCache × ℕ
  unfolding find_timestamp
  set_timestamp_version ms v c = elim (find_timestamp ms c.timestamp_versions) [
    | some old ↦ (c, old)
    | none ↦ (record c { timestamp_versions = (ms, v) ∷ c.timestamp_versions }, v)
  ]

  -- `InitializeTableEntry` for the latest version, with what is there and the entry that
  -- `CreateTableEntry` would make.
  unfoldable pub initialize_latest :
      Option Entry → Result Entry → EntryCache → EntryCache × Result Entry
  initialize_latest (some e) created c = (c, ok e)
  initialize_latest none (ok e) c = (record c { table_entry = some e }, ok e)
  initialize_latest none (err x) c = (c, err x)

  unfoldable pub initialize_versioned :
      ℕ → Option Entry → Result Entry → EntryCache → EntryCache × Result Entry
  initialize_versioned v (some e) created c = (c, ok e)
  initialize_versioned v none (ok e) c =
      (record c { versioned_table_entries = (v, e) ∷ c.versioned_table_entries }, ok e)
  initialize_versioned v none (err x) c = (c, err x)

  unfoldable pub initialize_table_entry : ℕ → Result Entry → EntryCache → EntryCache × Result Entry
  unfolding initialize_latest initialize_versioned find_version
  initialize_table_entry v created c =
      if v == invalid_index
      then initialize_latest c.table_entry created c
      else initialize_versioned v (find_version v c.versioned_table_entries) created c
