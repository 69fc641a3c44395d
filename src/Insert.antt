-- ===== src/Insert.antt =====
-- What a write reports back: the copy's column names and statistics
-- (src/storage/delta_insert.cpp).
pub mod QuotedList
pub mod Columns
pub mod WrittenFiles
pub mod NotNull
pub mod Upheld
pub mod Widths
pub mod Fits
pub mod WriteSchema
pub mod WrittenIds
pub mod WrittenTypes
pub mod FieldPaths
