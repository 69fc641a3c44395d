-- ===== src/Examples.antt =====
-- The theorems at work on concrete inputs, by the part of the extension.
pub mod Paths
pub mod Transactions
pub mod Catalog
pub mod Reading
pub mod Writing
pub mod Reports
pub mod Tables
pub mod Widths
pub mod Ids
pub mod Files
pub mod Readers
