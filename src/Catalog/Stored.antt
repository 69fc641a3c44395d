-- ===== src/Catalog/Stored.antt =====
-- Lookups over the file lists (src/storage/delta_schema_entry.cpp,
-- src/functions/delta_scan/delta_multi_file_list.cpp).
use duckdb_delta.Prelude.{ℕ, ◌≡◌, ◌≢◌, Option, some, ok}
use duckdb_delta.Kernel.{ℤ}
use duckdb_delta.TimeTravel.{invalid_index, AtClause}
use duckdb_delta.FileList.Snapshot.{SnapshotKernel}
use duckdb_delta.Catalog.Source.{TableSource}
use duckdb_delta.Catalog.FileLists.{TableSettings, TableEntry, table_source}
use duckdb_delta.Catalog.Lookup.{LookupConfig, LookupState, lookup_table}
use duckdb_delta.Catalog.Pinned.{Consistent}
use duckdb_delta.Catalog.Kept.{lookup_table-Consistent}
use duckdb_delta.Catalog.Repeatable.{lookup_table-repeatable}

-- `own` is the protocol's bound on versions: a commit never has the number that stands for no version.
module _ (K : SnapshotKernel) (now_ms : ℤ) (T : TableSettings K)
    (own : (w : K.World) (head : K.Snapshot) (ms : ℤ) (v : ℕ)
      → K.latest_version_as_of w head ms ≡ ok v
      → v ≢ invalid_index)
    (get_epoch_ms : ℤ → ℤ) where
  abbrev Lists : TableSource
  Lists = table_source K now_ms T own

  abbrev State : Type 0
  State = LookupState Lists get_epoch_ms

  -- Once a lookup of the table has returned an entry, the same lookup from the state that it left
  -- returns the same entry and changes nothing, whatever has happened to the table's storage in
  -- between. This holds for the attached table without an AT clause, for AT VERSION and for AT
  -- TIMESTAMP, whatever the attach options are. Lookups by another clause in between are left out. No timestamp
  -- resolves to the number that stands for no version.
  pub lookup_table-repeats :
      (c : LookupConfig) (w w' : K.World) (clause : Option AtClause) (s s' : State)
      (e : TableEntry K now_ms T)
      → lookup_table Lists get_epoch_ms c w clause s ≡ (s', ok (some e))
      → lookup_table Lists get_epoch_ms c w' clause s' ≡ (s', ok (some e))
  lookup_table-repeats c w w' clause s s' e =
      lookup_table-repeatable Lists get_epoch_ms c w w' clause s s' e

  -- A lookup keeps the catalog's cached table and the transaction's entries at the versions they
  -- stand for, on every path, those that throw included. No timestamp resolves to the number that
  -- stands for no version.
  pub lookup_table-keeps :
      (c : LookupConfig) (w : K.World) (clause : Option AtClause) (s : State)
      → Consistent Lists get_epoch_ms c s
      → Consistent Lists get_epoch_ms c (lookup_table Lists get_epoch_ms c w clause s).0
  lookup_table-keeps c w clause s = lookup_table-Consistent Lists get_epoch_ms c w clause s
