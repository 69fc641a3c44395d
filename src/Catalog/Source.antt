-- ===== src/Catalog/Source.antt =====
-- What the lookup needs of the table on storage: an interface that Catalog.FileLists fills
-- (src/functions/delta_scan/delta_multi_file_list.cpp).
use duckdb_delta.Prelude.{ℕ, ◌≡◌, ◌≢◌, Bool, Option, Result, ok}
use duckdb_delta.Kernel.{ℤ}
use duckdb_delta.TimeTravel.{invalid_index}

pub record TableSource : Type 1 where
  pub World : Type 0
  pub Entry : Type 0
  -- the version of the entry's snapshot
  pub version : Entry → ℕ
  -- `CreateTableEntry` at a version, with an older entry to build on
  pub create_table_entry : World → ℕ → Option Entry → Result Entry
  -- `ResolveTimestampWithin`, with the timestamp in milliseconds since the epoch
  pub resolve_timestamp_within : World → Entry → ℤ → Result ℕ
  -- `DeltaTableExistsAt` for the attached path
  pub table_exists : World → Bool
  -- An entry made for a version holds that version.
  pub version-create_table_entry :
      (w : World) (v : ℕ) (old : Option Entry) (e : Entry)
      → v ≢ invalid_index
      → create_table_entry w v old ≡ ok e
      → version e ≡ v
  -- A commit has a version of its own.
  pub resolve_timestamp_within-ne :
      (w : World) (e : Entry) (ms : ℤ) (v : ℕ)
      → resolve_timestamp_within w e ms ≡ ok v
      → v ≢ invalid_index
