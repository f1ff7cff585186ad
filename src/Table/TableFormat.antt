-- ===== src/Table/TableFormat.antt =====
-- GlueTableFormat (src/core/glue_format.cpp).
use duckdb_aws_glue.Base.{
  Bool, true, false, not, ◌&&◌, ◌||◌, [], ◌∷◌, ◌++◌, Text, text, text_eq, any, ◌==◌, is_empty,
  if◌then◌else◌,
}
use duckdb_aws_glue.DuckDb.{DuckDb, lower, upper, ci_equals, starts_with}
use duckdb_aws_glue.Table.Formats.{HiveFileFormat, parquet, csv, json, avro}
use duckdb_aws_glue.Table.Info.{GlueTableInfo, get_parameter, get_metadata_location}

pub data GlueFormat : Type 0 where
  iceberg delta hudi symlink hive unknown : GlueFormat

pub data GlueFormatSource : Type 0 where
  parameters input_format storage_descriptor none : GlueFormatSource

pub record GlueTableFormat : Type 0 where
  pub format : GlueFormat
  pub source : GlueFormatSource

abbrev pub is_known : GlueFormat → Bool
is_known unknown = false
is_known _ = true

abbrev pub is_hive : GlueFormat → Bool
is_hive hive = true
is_hive _ = false

-- substr(find_last_of('.') + 1)
unfoldable pub after_last_dot : Text → Text
after_last_dot [] = []
after_last_dot (c ∷ s) =
    if any (λ d. d == b'.') s then after_last_dot s else if c == b'.' then s else c ∷ s

-- ToString
abbrev pub format_name : GlueFormat → Text
format_name iceberg = text "ICEBERG"
format_name delta = text "DELTA"
format_name hudi = text "HUDI"
format_name symlink = text "SYMLINK"
format_name hive = text "HIVE"
format_name unknown = text "UNKNOWN"

module _ ⦃db : DuckDb⦄ where
  -- the format that `spark.sql.sources.provider` or the metadata location announces
  unfoldable pub from_provider : GlueTableInfo → GlueFormat
  from_provider table =
      let provider = lower (get_parameter table (text "spark.sql.sources.provider")) in
      if text_eq provider (text "delta")
      then delta
      else if text_eq provider (text "iceberg")
      then iceberg
      else if text_eq provider (text "hudi") || text_eq provider (text "org.apache.hudi")
      then hudi
      else if not (is_empty (get_metadata_location table))
      then iceberg
      else unknown

  unfoldable pub from_parameters : GlueTableInfo → GlueFormat
  from_parameters table =
      let table_type = upper (get_parameter table (text "table_type")) in
      if text_eq table_type (text "ICEBERG")
      then iceberg
      else if text_eq table_type (text "DELTA")
      then delta
      else if text_eq table_type (text "HUDI")
      then hudi
      else from_provider table

  unfoldable pub from_input_format : Text → GlueFormat
  unfolding after_last_dot
  from_input_format format =
      let name = lower format in
      let class_name = after_last_dot name in
      if starts_with name (text "org.apache.hudi.")
        || starts_with name (text "com.uber.hoodie.")
        || starts_with class_name (text "hoodie")
      then hudi
      else if text_eq class_name (text "symlinktextinputformat")
      then symlink
      else if starts_with name (text "org.apache.iceberg.")
      then iceberg
      else if starts_with name (text "io.delta.")
      then delta
      else unknown

  -- the format by the InputFormat class, else a Hive table where there is a storage descriptor
  unfoldable pub detect_storage : GlueTableInfo → GlueTableFormat
  detect_storage table =
      let format = from_input_format table.input_format in
      if is_known format
      then record { format = format; source = input_format }
      else if not (is_empty table.input_format) || not (is_empty table.location)
      then record { format = hive; source = storage_descriptor }
      else record { format = unknown; source = none }

  -- Detect
  unfoldable pub detect : GlueTableInfo → GlueTableFormat
  unfolding detect_storage
  detect table =
      let format = from_parameters table in
      if is_known format
      then record { format = format; source = parameters }
      else detect_storage table

  -- IsParameter
  unfoldable pub is_parameter : Text → Bool
  is_parameter key =
      ci_equals key (text "table_type")
      || ci_equals key (text "spark.sql.sources.provider")
      || ci_equals key (text "metadata_location")

  -- the InputFormats that Hive uses for a file format
  unfoldable pub is_hive_input_format : HiveFileFormat → Text → Bool
  is_hive_input_format parquet name =
      text_eq name (text "org.apache.hadoop.hive.ql.io.parquet.mapredparquetinputformat")
      || text_eq name (text "org.apache.parquet.hadoop.parquetinputformat")
      || text_eq name (text "parquet.hadoop.parquetinputformat")
      || text_eq name (text "parquet.hive.deprecatedparquetinputformat")
  is_hive_input_format csv name =
      text_eq name (text "org.apache.hadoop.mapred.textinputformat")
      || text_eq name (text "org.apache.hadoop.mapred.lib.combinetextinputformat")
  is_hive_input_format json name =
      text_eq name (text "org.apache.hadoop.mapred.textinputformat")
      || text_eq name (text "org.apache.hadoop.mapred.lib.combinetextinputformat")
  is_hive_input_format avro name =
      text_eq name (text "org.apache.hadoop.hive.ql.io.avro.avrocontainerinputformat")

  -- IsWritable
  unfoldable pub is_writable : GlueTableFormat → GlueTableInfo → HiveFileFormat → Bool
  unfolding is_hive_input_format
  is_writable self table format =
      is_hive self.format
      && (is_empty table.input_format || is_hive_input_format format (lower table.input_format))

  -- Describe
  unfoldable pub describe : GlueTableFormat → GlueTableInfo → Text
  describe self table = elim self.source [
    | none ↦
        if is_empty table.glue_table_type
        then format_name self.format
        else text "UNKNOWN (glue table type '" ++ (table.glue_table_type ++ text "')")
    | parameters ↦ format_name self.format
    | _ ↦ format_name self.format ++ (text " (input format '" ++ (table.input_format ++ text "')"))
  ]
