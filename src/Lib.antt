-- ===== src/Lib.antt =====
-- The Delta extension for DuckDB: reading, time travel over and appending to a Delta table, over
-- delta-kernel-rs. A statement looks the attached table up in the catalog (`Catalog`), which makes a
-- table entry over a file list with one snapshot of the log (`FileList`). A scan takes its options and
-- matches each file's columns with the table's (`Reader`, `Columns`), resolves the files of that
-- snapshot (`Uri`) and filters their deleted rows (`DeleteFilter`). An insert reports its files,
-- the transaction records them and hands them to the kernel (`Transaction`), and the manager commits
-- or cleans them up (`Transaction.Manager`). ATTACH sets the catalog up (`Attach`); CREATE TABLE hands
-- the kernel a schema (`Schema`).
--
-- Transaction.Write, Transaction.Commit: `DeltaTransaction` (src/storage/delta_transaction.cpp), a
-- method is a function from the transaction and the world to a new pair and a result; what was changed
-- before an exception stays. Transaction.Manager: src/storage/delta_transaction_manager.cpp.
-- Uri: `EncodePathAsUri` and the add path (src/storage/delta_transaction.cpp), `url_decode`,
-- `HasUriScheme`, the path part of `VisitCallbackInternal`, `ToDuckDBPath`, `ToDeltaPath`
-- (src/functions/delta_scan/delta_multi_file_list.cpp).
-- TimeTravel: `DeltaTimeTravelSpec` (src/include/delta_time_travel.hpp,
-- src/storage/delta_catalog.cpp). Catalog.Entries: the entries that a transaction keeps
-- (src/storage/delta_transaction.cpp). Catalog.Lookup: `LookupEntry`, `TransactionHead`,
-- `ResolveTimestamp` (src/storage/delta_schema_entry.cpp), over the interface Catalog.Source.
-- Catalog.FileLists: `CreateFileList` and `CreateTableEntry` (the same file), by which the file lists
-- fill that interface.
-- Attach: `DeltaCatalogAttach` (src/delta_extension.cpp) and the pushdown modes
-- (src/functions/delta_scan/delta_scan.cpp).
-- FileList.Snapshot: the snapshot of `DeltaMultiFileList`
-- (src/functions/delta_scan/delta_multi_file_list.cpp).
-- FileList.Scan, FileList.Visit, FileList.Files, FileList.Cardinality: `InitializeScan`, the callbacks
-- of a scan, and the files, counts and estimates of the list (the same file). FileList.Transform and
-- FileList.Patches: `FindPartitionValues` (the same file) and the struct patches of the expression
-- visitor (src/delta_utils.cpp). FileList.Widths, FileList.Constraints: what `Bind` extracts for an
-- insert (the same file, src/storage/delta_table_entry.cpp).
-- Columns, Columns.FieldIds: `DeltaMultiFileColumnDefinition` (src/include/delta_utils.hpp).
-- Reader.Matching, Reader.Options: `ResolveFileWithoutFieldIds`, `ParseOption` and what `Bind` hands to
-- the list (src/functions/delta_scan/delta_multi_file_reader.cpp).
-- DeleteFilter: `DeltaDeleteFilter` (src/functions/delta_scan/delta_multi_file_reader.cpp).
-- Schema.Builder: `DeltaSchemaBuilder` (src/delta_schema_builder.cpp) and the checks of types
-- (src/storage/delta_create_table.cpp). CreateTable: the partition columns (the same file).
-- TableProperties: src/delta_table_properties.cpp.
-- Insert.QuotedList, Insert.Columns, Insert.WrittenFiles, Insert.WriteSchema, Insert.Widths:
-- `ParseQuotedList`, the names, types and field ids of a column-mapped table, `AddWrittenFiles`, and
-- the check of CHAR and VARCHAR widths (src/storage/delta_insert.cpp).
-- Types, DataFile, Kernel: the types, the records of written files, and the calls of the kernel and of
-- DuckDB's file system, which are parameters. Examples: the theorems at work.
--
-- A text is the list of its bytes. Numbers of 64 bits are natural numbers, with the wrap written out
-- where the code can reach it and with casts that throw out of range. Timestamps are integers. An
-- exception is its type and its format string, without the values. `ParseQuotedList` runs on fuel: its
-- input's length, since every value takes at least its two quotes. The loops of `GetFileInternal` and
-- `GetTotalFileCountInternal` run on fuel too: one turn for each batch that the kernel has left, and one
-- for each file, is enough, and one more to see the end.
--
-- Not modelled: the visitor of the kernel's schemas, the logger, the encoding of rows for the kernel,
-- the binding and planning that go through DuckDB's classes, locks (each method runs as one step),
-- CREATE TABLE's transaction, the plan of an insert apart from its widths, filter pushdown, the options
-- of the storage engines. Registered versions and options are kept in the order of a list, where the
-- code goes by the order of a hash map.
pub mod Prelude
pub mod Types
pub mod DataFile
pub mod Kernel
pub mod Uri
pub mod Transaction
pub mod TimeTravel
pub mod Catalog
pub mod Attach
pub mod FileList
pub mod DeleteFilter
pub mod Schema
pub mod Insert
pub mod Columns
pub mod CreateTable
pub mod TableProperties
pub mod Examples
pub mod Reader
