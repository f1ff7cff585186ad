-- ===== src/Repair.antt =====
-- src/core/hive_location.cpp and src/functions/glue_repair_table.cpp: partitions as directories.
pub mod Directory
pub mod Discovered
pub mod Apply
pub mod Applied
