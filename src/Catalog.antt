-- ===== src/Catalog.antt =====
-- The lookup of the attached table: `DeltaSchemaEntry::LookupEntry`, `TransactionHead` and
-- `ResolveTimestamp` (src/storage/delta_schema_entry.cpp), over the table entries that a
-- transaction keeps, `GetTableEntry`, `GetTimestampVersion`, `SetTimestampVersion` and
-- `InitializeTableEntry` (src/storage/delta_transaction.cpp).
pub mod Source
pub mod Entries
pub mod Lookup
pub mod Repeatable
pub mod Versions
pub mod Pinned
pub mod Kept
pub mod Requested
pub mod FileLists
pub mod Stored
