-- ===== src/FileList.antt =====
-- `DeltaMultiFileList` (src/functions/delta_scan/delta_multi_file_list.cpp): the snapshot it reads and
-- the files it lists.
pub mod Snapshot
pub mod Versions
pub mod Transform
pub mod Scan
pub mod Visit
pub mod Files
pub mod Appended
pub mod Expanded
pub mod Lazy
pub mod Counts
pub mod Cardinality
pub mod Widths
pub mod Constraints
pub mod Required
pub mod Bound
pub mod Patches
pub mod Layout
pub mod Placed
