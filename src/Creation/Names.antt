-- ===== src/Creation/Names.antt =====
-- The class names that CreateHiveTable writes (src/api/glue_table_api.cpp), as the code that reads them takes them.
use duckdb_aws_glue.Base.{
  ◌≡◌, refl, [], ◌∷◌, Text, text, text_eq, if◌then◌else◌, ok, err, map, Outcome, not_implemented,
  ◌||◌,
}
use duckdb_aws_glue.DuckDb.{DuckDb, lower, lower_byte, is_infix, is_prefix}
use duckdb_aws_glue.Table.Formats.{
  HiveSerDe, parquet, lazy_simple, open_csv, hive_json, openx_json, avro, serde_of,
}
use duckdb_aws_glue.Table.TableFormat.{
  GlueFormat, hudi, symlink, iceberg, delta, unknown, from_input_format, after_last_dot,
}

module _ ⦃db : DuckDb⦄ where
  pub lower_lem : (s : Text) → lower s ≡ map lower_byte s
  lower_lem [] = db.lower-nil
  lower_lem (c ∷ s) = rw (db.lower-cons c s, lower_lem s) refl

  -- GetSerDe in terms of bytes
  abbrev serde_of_bytes : Text → Outcome HiveSerDe
  serde_of_bytes serde =
      if is_infix (text "parquet") serde
      then ok parquet
      else if is_infix (text "lazysimpleserde") serde
      then ok lazy_simple
      else if is_infix (text "opencsvserde") serde
      then ok open_csv
      else if is_infix (text "openx") serde
      then ok openx_json
      else if is_infix (text "json") serde
      then ok hive_json
      else if is_infix (text "avro") serde
      then ok avro
      else err not_implemented

  serde_of_lem : (library : Text) → serde_of library ≡ serde_of_bytes (map lower_byte library)
  unfolding serde_of
  serde_of_lem library =
      let s = map lower_byte library in
      rw
        (
          lower_lem library,
          db.contains_lem s (text "parquet"),
          db.contains_lem s (text "lazysimpleserde"),
          db.contains_lem s (text "opencsvserde"),
          db.contains_lem s (text "openx"),
          db.contains_lem s (text "json"),
          db.contains_lem s (text "avro"),
        )
        refl

  pub serde_of-parquet :
      serde_of (text "org.apache.hadoop.hive.ql.io.parquet.serde.ParquetHiveSerDe") ≡ ok parquet
  unfolding lower_byte
  serde_of-parquet =
      serde_of_lem (text "org.apache.hadoop.hive.ql.io.parquet.serde.ParquetHiveSerDe")

  pub serde_of-lazy_simple :
      serde_of (text "org.apache.hadoop.hive.serde2.lazy.LazySimpleSerDe") ≡ ok lazy_simple
  unfolding lower_byte
  serde_of-lazy_simple = serde_of_lem (text "org.apache.hadoop.hive.serde2.lazy.LazySimpleSerDe")

  pub serde_of-open_csv : serde_of (text "org.apache.hadoop.hive.serde2.OpenCSVSerde") ≡ ok open_csv
  unfolding lower_byte
  serde_of-open_csv = serde_of_lem (text "org.apache.hadoop.hive.serde2.OpenCSVSerde")

  pub serde_of-hive_json : serde_of (text "org.apache.hive.hcatalog.data.JsonSerDe") ≡ ok hive_json
  unfolding lower_byte
  serde_of-hive_json = serde_of_lem (text "org.apache.hive.hcatalog.data.JsonSerDe")

  pub serde_of-avro : serde_of (text "org.apache.hadoop.hive.serde2.avro.AvroSerDe") ≡ ok avro
  unfolding lower_byte
  serde_of-avro = serde_of_lem (text "org.apache.hadoop.hive.serde2.avro.AvroSerDe")

  abbrev from_input_format_bytes : Text → GlueFormat
  from_input_format_bytes name =
      let class_name = after_last_dot name in
      if is_prefix (text "org.apache.hudi.") name
        || is_prefix (text "com.uber.hoodie.") name
        || is_prefix (text "hoodie") class_name
      then hudi
      else if text_eq class_name (text "symlinktextinputformat")
      then symlink
      else if is_prefix (text "org.apache.iceberg.") name
      then iceberg
      else if is_prefix (text "io.delta.") name
      then delta
      else unknown

  from_input_format_lem :
      (format : Text) → from_input_format format ≡ from_input_format_bytes (map lower_byte format)
  unfolding from_input_format
  from_input_format_lem format =
      let s = map lower_byte format in
      rw
        (
          lower_lem format,
          db.starts_with_lem s (text "org.apache.hudi."),
          db.starts_with_lem s (text "com.uber.hoodie."),
          db.starts_with_lem (after_last_dot s) (text "hoodie"),
          db.starts_with_lem s (text "org.apache.iceberg."),
          db.starts_with_lem s (text "io.delta."),
        )
        refl

  pub from_input_format-parquet :
      from_input_format (text "org.apache.hadoop.hive.ql.io.parquet.MapredParquetInputFormat")
      ≡ unknown
  unfolding lower_byte after_last_dot text_eq
  from_input_format-parquet =
      from_input_format_lem (text "org.apache.hadoop.hive.ql.io.parquet.MapredParquetInputFormat")

  pub from_input_format-text :
      from_input_format (text "org.apache.hadoop.mapred.TextInputFormat") ≡ unknown
  unfolding lower_byte after_last_dot text_eq
  from_input_format-text = from_input_format_lem (text "org.apache.hadoop.mapred.TextInputFormat")

  pub from_input_format-avro :
      from_input_format (text "org.apache.hadoop.hive.ql.io.avro.AvroContainerInputFormat")
      ≡ unknown
  unfolding lower_byte after_last_dot text_eq
  from_input_format-avro =
      from_input_format_lem (text "org.apache.hadoop.hive.ql.io.avro.AvroContainerInputFormat")
