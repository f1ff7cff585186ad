-- ===== src/Partitions.antt =====
-- src/api/glue_partition_api.cpp: the partitions of a table in Glue.
pub mod Service
pub mod Delete
pub mod Deleted
pub mod Answers
pub mod Create
pub mod Matched
pub mod Attempts
pub mod Registered
pub mod Segments
pub mod Pages
pub mod Listed
pub mod Mismatch
pub mod Locate
pub mod Finds
pub mod Located
