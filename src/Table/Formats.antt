-- ===== src/Table/Formats.antt =====
-- The enumerations of src/include/core/glue_info.hpp and their names (src/core/glue_info.cpp).
use duckdb_aws_glue.Base.{
  Bool, true, false, Text, text, text_eq, if◌then◌else◌, Outcome, ok, err, binder, not_implemented,
}
use duckdb_aws_glue.DuckDb.{DuckDb, lower, ci_equals, contains}

pub data GlueSortOrder : Type 0 where
  unsorted ascending descending : GlueSortOrder

pub data HiveFileFormat : Type 0 where
  parquet csv json avro : HiveFileFormat

pub data HiveSerDe : Type 0 where
  parquet lazy_simple open_csv hive_json openx_json avro : HiveSerDe

pub data GlueTableType : Type 0 where
  external_table virtual_view other : GlueTableType

unfoldable pub hive_file_format_to_string : HiveFileFormat → Text
hive_file_format_to_string parquet = text "parquet"
hive_file_format_to_string csv = text "csv"
hive_file_format_to_string json = text "json"
hive_file_format_to_string avro = text "avro"

abbrev pub is_text_file_format : HiveFileFormat → Bool
is_text_file_format csv = true
is_text_file_format json = true
is_text_file_format _ = false

abbrev pub hive_serde_file_format : HiveSerDe → HiveFileFormat
hive_serde_file_format parquet = parquet
hive_serde_file_format lazy_simple = csv
hive_serde_file_format open_csv = csv
hive_serde_file_format hive_json = json
hive_serde_file_format openx_json = json
hive_serde_file_format avro = avro

-- DescribeSortOrder
abbrev pub describe_sort_order : GlueSortOrder → Text
describe_sort_order ascending = text "ASC"
describe_sort_order descending = text "DESC"
describe_sort_order unsorted = text ""

module _ ⦃db : DuckDb⦄ where
  unfoldable pub hive_file_format_from_string : Text → Outcome HiveFileFormat
  hive_file_format_from_string format =
      let name = lower format in
      if text_eq name (text "parquet")
      then ok parquet
      else if text_eq name (text "csv")
      then ok csv
      else if text_eq name (text "json")
      then ok json
      else if text_eq name (text "avro")
      then ok avro
      else err binder

  unfoldable pub glue_table_type_from_string : Text → GlueTableType
  glue_table_type_from_string type =
      if ci_equals type (text "EXTERNAL_TABLE")
      then external_table
      else if ci_equals type (text "VIRTUAL_VIEW")
      then virtual_view
      else other

  -- GetSerDe, of the lower-case name of the serialization library
  unfoldable pub serde_of : Text → Outcome HiveSerDe
  serde_of library =
      let serde = lower library in
      if contains serde (text "parquet")
      then ok parquet
      else if contains serde (text "lazysimpleserde")
      then ok lazy_simple
      else if contains serde (text "opencsvserde")
      then ok open_csv
      else if contains serde (text "openx")
      then ok openx_json
      else if contains serde (text "json")
      then ok hive_json
      else if contains serde (text "avro")
      then ok avro
      else err not_implemented
