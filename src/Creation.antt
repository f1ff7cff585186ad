-- ===== src/Creation.antt =====
-- CREATE TABLE: its options, buckets and columns (src/catalog/glue_schema_entry.cpp), and the table that Glue
-- gets (src/api/glue_table_api.cpp).
pub mod Values
pub mod Options
pub mod Bucketing
pub mod Build
pub mod Resolved
pub mod Made
pub mod Objects
pub mod Tables
pub mod Maps
pub mod Names
pub mod Built
pub mod Yields
pub mod Keys
pub mod Takes
pub mod Named
pub mod Harmless
pub mod CsvSerde
pub mod Detected
pub mod Asked
pub mod ReadDialect
pub mod Dialect
