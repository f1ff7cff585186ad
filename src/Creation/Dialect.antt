-- ===== src/Creation/Dialect.antt =====
-- The csv dialect of a created table: what CreateHiveTable (src/api/glue_table_api.cpp) sends to Glue, read by the
-- lookups of src/core/glue_info.cpp.
use mathlib.Core.Path.{subst}
use duckdb_aws_glue.Base.{
  ◌≡◌, refl, sym, ◌∙◌, ap, true, [], Text, text, text_eq, none, ok, ok-injective,
}
use duckdb_aws_glue.DuckDb.{DuckDb, cast_bigint}
use duckdb_aws_glue.Table.Formats.{parquet, csv, serde_of}
use duckdb_aws_glue.Table.Info.{GlueTableInfo, find, try_get_property, or_else}
use duckdb_aws_glue.Table.Separators.{IsSeparator}
use duckdb_aws_glue.Creation.Options.{GlueCreateTableOptions, parse_create_table_options}
use duckdb_aws_glue.Creation.Build.{CreateTableInfo, CreationContext, build_table_info, is_csv}
use duckdb_aws_glue.Creation.Tables.{csv_input, input_of, format_input, table_input, to_table_info}
use duckdb_aws_glue.Creation.Objects.{Glue, TableInput, Table, to_aws_map}
use duckdb_aws_glue.Creation.Maps.{find-to_aws_map}
use duckdb_aws_glue.Creation.Keys.{
  Excludes, emplace_all-Excludes, parse_create_table_options-Excludes,
}
use duckdb_aws_glue.Creation.Built.{IsBuilt, csv_serde, build_table_info-IsBuilt}
use duckdb_aws_glue.Creation.CsvSerde.{csv-HasSeparator, format_input-csv}
use duckdb_aws_glue.Creation.Named.{named, format_or, parse_create_table_options-named}
use duckdb_aws_glue.Creation.Asked.{
  of_options, dialect_of, is_dialect_key, IsAscii, find-absent, sent-Excludes,
}
use duckdb_aws_glue.Creation.ReadDialect.{HasDialect, IsRead, HasDialect-IsRead}

module _ ⦃db : DuckDb⦄ where
  sent-HasDialect :
      (options : GlueCreateTableOptions) (table : GlueTableInfo) (schema_name : Text)
      (stored : Table)
      → IsBuilt options table
      → is_csv options.format ≡ true
      → Excludes is_dialect_key options.parameters
      → stored.input ≡ input_of table (csv_input options.csv_delimiter table)
      → HasDialect options (to_table_info schema_name stored)
  unfolding to_table_info input_of csv_input try_get_property
  sent-HasDialect options table schema_name stored b c h e =
      let (serde, s, quoted) = csv-HasSeparator options table b c in
      let read = to_table_info schema_name stored in
      let library : read.serde_library ≡ table.serde_library =
        ap (λ (i : TableInput). i.storage_descriptor.serialization_library) e in
      let excluded : Excludes is_dialect_key read.parameters =
        subst (λ (i : TableInput). Excludes is_dialect_key (to_aws_map i.parameters)) (sym e)
          (emplace_all-Excludes is_dialect_key _ []
            (sent-Excludes options.csv_delimiter table.description table.parameters
              (subst (Excludes is_dialect_key) (sym b.has_parameters) h))
            tt) in
      let copied : (key : Text)
          → find key read.serde_parameters ≡ find key (csv_serde options).serde_parameters =
        λ key.
          ap (λ (i : TableInput). find key (to_aws_map i.storage_descriptor.serde_parameters)) e
          ∙ (find-to_aws_map key (to_aws_map table.serde_parameters)
              ∙ (find-to_aws_map key table.serde_parameters
                  ∙ ap (find key) (b.has_serde_parameters c))) in
      record {
        serde = serde;
        has_serde = ap serde_of library ∙ s.is_library;
        is_quoted = quoted;
        has_property = λ key k.
            property read key (find-absent is_dialect_key key read.parameters excluded k)
            ∙ copied key;
      }
    where
      property :
          (read : GlueTableInfo) (key : Text)
          → find key read.parameters ≡ none
          → try_get_property read key ≡ find key read.serde_parameters
      property read key h = ap (λ o. or_else o (find key read.serde_parameters)) h

  build_table_info-IsRead :
      (glue : Glue) (context : CreationContext) (base : CreateTableInfo)
      (options : GlueCreateTableOptions) (table : GlueTableInfo) (schema_name : Text)
      → Excludes is_dialect_key base.options
      → parse_create_table_options context.option_context base.options ≡ ok options
      → options.format ≡ csv
      → IsSeparator options.csv_delimiter
      → cast_bigint options.csv_delimiter ≡ none
      → IsAscii options.csv_quote
      → IsAscii options.csv_escape
      → build_table_info context base ≡ ok table
      → (input : TableInput) × (table_input table ≡ ok input)
        × IsRead (of_options options) (to_table_info schema_name (glue.stored input))
  unfolding table_input text_eq
  build_table_info-IsRead glue context base options table schema_name h parsed is_csv_format
        separator no_number quote escape made =
      let (options', parsed', b') = build_table_info-IsBuilt context base table made in
      let b : IsBuilt options table =
        subst (λ o. IsBuilt o table) (ok-injective (sym parsed' ∙ parsed)) b' in
      let c : is_csv options.format ≡ true = ap is_csv is_csv_format in
      let (serde, s, _) = csv-HasSeparator options table b c in
      let input = input_of table (csv_input options.csv_delimiter table) in
      let sent : format_input table.file_format table ≡ ok (csv_input options.csv_delimiter table) =
        ap (λ f. format_input f table) (b.has_format ∙ is_csv_format)
        ∙ format_input-csv options table serde s in
      let excluded =
        parse_create_table_options-Excludes is_dialect_key context.option_context refl base.options
          options h parsed in
      let read = to_table_info schema_name (glue.stored input) in
      let d =
        sent-HasDialect options table schema_name (glue.stored input) b c excluded
          (glue.stored-input input) in
      (input, rw sent refl, HasDialect-IsRead options read d separator no_number quote escape)

  options-dialect :
      (context : CreationContext) (base : CreateTableInfo) (options : GlueCreateTableOptions)
      → parse_create_table_options context.option_context base.options ≡ ok options
      → of_options options ≡ dialect_of base.options
  options-dialect context base options parsed =
      let (f, d, q, e) =
        parse_create_table_options-named context.option_context base.options options parsed in
      rw (d, q, e) refl

  -- A csv table that CREATE TABLE made can be sent, and as Glue gives it back it is read with the delimiter, the quote
  -- and the escape that the options of the statement name, or the comma where they name no delimiter. The quote and
  -- the escape are at most one ASCII character each, the delimiter is one that is neither NUL nor a line break and does
  -- not read as a number, and no option has the name of a property of the SerDe. Without a quote and an escape nothing
  -- is quoted; with one of them the quote is `"` where it is not given, and the escape, where it is not given, is the
  -- quote.
  pub build_table_info-csv_dialect :
      (glue : Glue) (context : CreationContext) (base : CreateTableInfo) (table : GlueTableInfo)
      (schema_name : Text)
      → Excludes is_dialect_key base.options
      → format_or parquet (named (text "format") base.options) ≡ ok csv
      → IsSeparator (dialect_of base.options).delimiter
      → cast_bigint (dialect_of base.options).delimiter ≡ none
      → IsAscii (dialect_of base.options).quote
      → IsAscii (dialect_of base.options).escape
      → build_table_info context base ≡ ok table
      → (input : TableInput) × (table_input table ≡ ok input)
        × IsRead (dialect_of base.options) (to_table_info schema_name (glue.stored input))
  build_table_info-csv_dialect glue context base table schema_name h is_csv_format separator
        no_number quote escape made =
      let (options, parsed, b) = build_table_info-IsBuilt context base table made in
      let (f, _, _, _) =
        parse_create_table_options-named context.option_context base.options options parsed in
      let same = options-dialect context base options parsed in
      let (input, sent, read) =
        build_table_info-IsRead glue context base options table schema_name h parsed
          (ok-injective (sym f ∙ is_csv_format))
          (subst (λ d. IsSeparator d.delimiter) (sym same) separator)
          (subst (λ d. cast_bigint d.delimiter ≡ none) (sym same) no_number)
          (subst (λ d. IsAscii d.quote) (sym same) quote)
          (subst (λ d. IsAscii d.escape) (sym same) escape) made in
      (input, sent, subst (λ d. IsRead d (to_table_info schema_name (glue.stored input))) same read)
