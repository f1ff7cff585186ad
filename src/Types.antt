-- ===== src/Types.antt =====
-- src/core/glue_types.cpp: Glue (Hive style) column types and DuckDB's logical types.
pub mod Logical
pub mod Parser
pub mod Printer
mod Lexemes
pub mod Stored
mod Reads
mod Structs
mod Progress
pub mod RoundTrip
pub mod Sound
pub mod Rejects
pub mod TypeId
pub mod Columns
pub mod Widening
pub mod Values
