-- ===== src/Reader.antt =====
-- `DeltaMultiFileReader` (src/functions/delta_scan/delta_multi_file_reader.cpp).
pub mod Matching
pub mod Covered
pub mod Options
pub mod Requested
