-- ===== src/Table.antt =====
-- src/core/glue_info.cpp, src/core/glue_format.cpp: a Glue table as the extension sees it.
pub mod Formats
pub mod Info
pub mod Delimiters
pub mod Checked
pub mod CsvOptions
pub mod JsonOptions
pub mod Codec
pub mod TableFormat
pub mod Location
pub mod Overlap
pub mod Separators
pub mod Conversions
pub mod Written
pub mod Alter
pub mod Unchanged
