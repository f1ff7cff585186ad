-- ===== src/Creation/Detected.antt =====
-- The format of a created table: what CreateHiveTable (src/api/glue_table_api.cpp) sends to Glue, read by
-- GlueTableFormat::Detect (src/core/glue_format.cpp) and GetSerDe (src/core/glue_info.cpp).
use mathlib.Core.Path.{subst}
use duckdb_aws_glue.Base.{
  ◌≡◌, refl, sym, ◌∙◌, ap, arith, false, [], ◌∷◌, Text, text, text_eq, is_empty, ok, ◌>>=◌,
}
use duckdb_aws_glue.DuckDb.{DuckDb, ci_equals, lower_byte}
use duckdb_aws_glue.Table.Formats.{
  HiveFileFormat, parquet, csv, json, avro, hive_serde_file_format, serde_of,
}
use duckdb_aws_glue.Table.Info.{
  Parameters, GlueTableInfo, find_parameter, get_parameter, get_metadata_location, get_serde,
}
use duckdb_aws_glue.Table.TableFormat.{
  hive, unknown, storage_descriptor, is_parameter, from_parameters, from_provider,
  from_input_format, detect_storage, detect,
}
use duckdb_aws_glue.Creation.Options.{GlueCreateTableOptions}
use duckdb_aws_glue.Creation.Build.{CreateTableInfo, CreationContext, build_table_info, is_csv}
use duckdb_aws_glue.Creation.Tables.{
  FormatInput, csv_input, format_input, input_of, table_input, to_table_info,
}
use duckdb_aws_glue.Creation.Objects.{Glue, TableInput, Table, to_aws_map}
use duckdb_aws_glue.Creation.Names.{
  serde_of-parquet, serde_of-hive_json, serde_of-avro, from_input_format-parquet,
  from_input_format-text, from_input_format-avro,
}
use duckdb_aws_glue.Creation.Keys.{
  Excludes, emplace-Excludes, emplace_all-Excludes, parse_create_table_options-Excludes,
}
use duckdb_aws_glue.Creation.Named.{named, format_or, parse_create_table_options-named}
use duckdb_aws_glue.Creation.Built.{IsBuilt, build_table_info-IsBuilt}
use duckdb_aws_glue.Creation.Harmless.{
  is_parameter_lem, table_parameters-Excludes, with_classification-Excludes,
}
use duckdb_aws_glue.Creation.CsvSerde.{csv-HasSeparator, format_input-csv}

module _ ⦃db : DuckDb⦄ where
  -- What CreateHiveTable sends for a file format is read back as that format.
  record IsReadable (format : HiveFileFormat) (f : FormatInput) : Type 0 where
    no_other : from_input_format f.input_format ≡ unknown
    has_input_format : is_empty f.input_format ≡ false
    is_serde :
        (serde_of f.serialization_library >>= λ serde. ok (hive_serde_file_format serde))
        ≡ ok format
    no_parameter : Excludes is_parameter f.parameters

  format_input-IsReadable :
      (options : GlueCreateTableOptions) (table : GlueTableInfo)
      → IsBuilt options table
      → Excludes is_parameter table.parameters
      → (format : HiveFileFormat) → options.format ≡ format
      → (f : FormatInput) × (format_input format table ≡ ok f) × IsReadable format f
  unfolding format_input csv_input text_eq lower_byte
  format_input-IsReadable options table b h parquet e = (
    _,
    refl,
    record {
      no_other = from_input_format-parquet;
      has_input_format = refl;
      is_serde = rw serde_of-parquet refl;
      no_parameter = with_classification-Excludes (text "parquet") table.parameters h;
    },
  )
  format_input-IsReadable options table b h csv e =
      let (serde, s, _) = csv-HasSeparator options table b (ap is_csv e) in
      (
        csv_input options.csv_delimiter table,
        format_input-csv options table serde s,
        record {
          no_other = from_input_format-text;
          has_input_format = refl;
          is_serde = rw (s.is_library) (ap ok s.is_csv_serde);
          no_parameter =
              emplace-Excludes is_parameter (text "delimiter") options.csv_delimiter _
                (is_parameter_lem (text "delimiter"))
                (with_classification-Excludes (text "csv") table.parameters h);
        },
      )
  format_input-IsReadable options table b h json e = (
    _,
    refl,
    record {
      no_other = from_input_format-text;
      has_input_format = refl;
      is_serde = rw serde_of-hive_json refl;
      no_parameter = with_classification-Excludes (text "json") table.parameters h;
    },
  )
  format_input-IsReadable options table b h avro e = (
    _,
    refl,
    record {
      no_other = from_input_format-avro;
      has_input_format = refl;
      is_serde = rw serde_of-avro refl;
      no_parameter = with_classification-Excludes (text "avro") table.parameters h;
    },
  )

  find_parameter-absent :
      (p : Text) (ps : Parameters)
      → Excludes is_parameter ps
      → ((k : Text) → is_parameter k ≡ false → ci_equals k p ≡ false)
      → find_parameter p ps ≡ []
  unfolding find_parameter
  find_parameter-absent p [] h other = refl
  find_parameter-absent p ((k, v) ∷ rest) (n, h) other =
      rw (other k n) (find_parameter-absent p rest h other)

  from_parameters-unknown :
      (table : GlueTableInfo)
      → Excludes is_parameter table.parameters
      → from_parameters table ≡ unknown
  unfolding from_parameters from_provider get_parameter get_metadata_location text_eq is_parameter
  from_parameters-unknown table h =
      rw
        (
          find_parameter-absent (text "table_type") table.parameters h (λ k n. ground (arith, n)),
          find_parameter-absent (text "spark.sql.sources.provider") table.parameters h
              (λ k n. ground (arith, n)),
          find_parameter-absent (text "metadata_location") table.parameters h
              (λ k n. ground (arith, n)),
          db.upper-nil,
          db.lower-nil,
        )
        refl

  detect-hive :
      (table : GlueTableInfo)
      → from_parameters table ≡ unknown
      → from_input_format table.input_format ≡ unknown
      → is_empty table.input_format ≡ false
      → detect table ≡ record { format = hive; source = storage_descriptor }
  unfolding detect detect_storage
  detect-hive table p i e = rw (p, i, e) refl

  IsReadable-detect :
      (table : GlueTableInfo) (format : HiveFileFormat) (f : FormatInput) (schema_name : Text)
      (stored : Table)
      → IsReadable format f
      → stored.input ≡ input_of table f
      → (detect (to_table_info schema_name stored)
          ≡ record { format = hive; source = storage_descriptor })
        × ((get_serde (to_table_info schema_name stored) >>= λ serde.
              ok (hive_serde_file_format serde))
            ≡ ok format)
  unfolding to_table_info input_of
  IsReadable-detect table format f schema_name stored r e =
      let read = to_table_info schema_name stored in
      let library : read.serde_library ≡ f.serialization_library =
        ap (λ (i : TableInput). i.storage_descriptor.serialization_library) e in
      let input_format : read.input_format ≡ f.input_format =
        ap (λ (i : TableInput). i.storage_descriptor.input_format) e in
      let parameters : Excludes is_parameter read.parameters =
        subst (λ (i : TableInput). Excludes is_parameter (to_aws_map i.parameters)) (sym e)
          (emplace_all-Excludes is_parameter _ []
            (table_parameters-Excludes table.description f.parameters r.no_parameter) tt) in
      (
        detect-hive read (from_parameters-unknown read parameters)
            (ap from_input_format input_format ∙ r.no_other)
            (ap is_empty input_format ∙ r.has_input_format),
        ap (λ l. serde_of l >>= λ serde. ok (hive_serde_file_format serde)) library ∙ r.is_serde,
      )

  -- A table that CREATE TABLE made can be sent, and as Glue gives it back it is a Hive table, whose SerDe is one of the
  -- file format that the option `format` of the statement names, parquet without that option, if no option has the name
  -- of a parameter that decides the format.
  pub build_table_info-detect :
      (glue : Glue) (context : CreationContext) (base : CreateTableInfo) (table : GlueTableInfo)
      (schema_name : Text)
      → Excludes is_parameter base.options
      → build_table_info context base ≡ ok table
      → (input : TableInput) × (table_input table ≡ ok input)
        × (detect (to_table_info schema_name (glue.stored input))
            ≡ record { format = hive; source = storage_descriptor })
        × ((get_serde (to_table_info schema_name (glue.stored input)) >>= λ serde.
              ok (hive_serde_file_format serde))
            ≡ format_or parquet (named (text "format") base.options))
  unfolding table_input lower_byte text_eq
  build_table_info-detect glue context base table schema_name h built =
      let (options, parsed, b) = build_table_info-IsBuilt context base table built in
      let excluded : Excludes is_parameter table.parameters =
        subst (Excludes is_parameter) (sym b.has_parameters) (
          parse_create_table_options-Excludes is_parameter context.option_context
            (is_parameter_lem (text "skip.header.line.count")) base.options options h parsed) in
      let (f, sent, r) =
        format_input-IsReadable options table b excluded table.file_format (sym b.has_format) in
      let input = input_of table f in
      let (is_hive, is_format) =
        IsReadable-detect table table.file_format f schema_name (glue.stored input) r
          (glue.stored-input input) in
      let (named_format, _, _, _) =
        parse_create_table_options-named context.option_context base.options options parsed in
      (input, rw sent refl, is_hive, is_format ∙ (ap ok b.has_format ∙ sym named_format))
