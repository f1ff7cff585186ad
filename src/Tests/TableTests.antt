-- ===== src/Tests/TableTests.antt =====
-- Instances of the theorems about tables.
use duckdb_aws_glue.Base.{
  pos, ◌≡◌, ◌↔◌, refl, true, false, [], ◌∷◌, text, text_eq, ok, err, not_implemented, text_lt,
  if◌then◌else◌,
}
use duckdb_aws_glue.DuckDb.{lower}
use duckdb_aws_glue.DuckDb.Ascii.{ascii}
use duckdb_aws_glue.Table.Formats.{
  unsorted, csv, avro, external_table, serde_of, lazy_simple, hive_file_format_from_string,
  hive_file_format_to_string,
}
use duckdb_aws_glue.Table.Info.{
  GlueTableInfo, find, try_get_property, find_parameter, get_parameter,
}
use duckdb_aws_glue.Table.Delimiters.{
  try_parse_integer, separator_byte, lazy_simple_separator, get_field_delimiter, get_null_format,
  get_count_property, get_header_line_count, get_quote_character, get_escape_character,
}
use duckdb_aws_glue.Table.Checked.{check_text_serde_supported, check_csv, check_lazy_simple}
use duckdb_aws_glue.Table.CsvOptions.{HiveCsvOptions, default_csv_options, get_csv_options}
use duckdb_aws_glue.Table.Separators.{IsSeparator, get_field_delimiter-IsSeparator}
use duckdb_aws_glue.Table.Codec.{Compressions, gzip, get_codec, avro_codec, get_codec_parameter}
use duckdb_aws_glue.Table.Written.{IsCodec, get_codec-IsCodec, hive_file_format_from_string_iff}
use duckdb_aws_glue.Table.TableFormat.{detect, is_parameter}
use duckdb_aws_glue.Table.Alter.{
  set_table_options, reset_table_options, check_set, check_unset, check_table_property_changeable,
  update_table_parameters, erase, erase_all, assign, assign_all,
}
use duckdb_aws_glue.Table.Unchanged.{set_table_options-detect, reset_table_options-detect}
use duckdb_aws_glue.Tests.Equality.{exact}

-- A table of text files with fields that a vertical bar separates.
abbrev bars : GlueTableInfo
bars = record {
  name = text "bars";
  schema_name = text "db";
  glue_database_name = text "db";
  glue_table_type = text "EXTERNAL_TABLE";
  table_type = external_table;
  view_original_text = [];
  view_expanded_text = [];
  description = [];
  location = text "s3://bucket/bars";
  input_format = text "org.apache.hadoop.mapred.TextInputFormat";
  output_format = [];
  serde_library = text "LazySimpleSerDe";
  serde_parameters = (text "field.delim", text "|") ∷ [];
  columns =
      (record { name = text "id"; type = text "int"; comment = []; sort_order = unsorted }) ∷ [];
  partition_keys = [];
  bucket_columns = [];
  number_of_buckets = pos 0;
  sort_columns = [];
  parameters = (text "avro.output.codec", text "Snappy") ∷ (text "classification", text "csv") ∷ [];
  version_id = text "1";
  create_time_ms = pos 0;
  file_format = csv;
  fetched = true;
}

abbrev bar_options : HiveCsvOptions
bar_options = record default_csv_options {
  delimiter = text "|";
  quote = [];
  escape = [];
  null_string = text "\\N";
  serde_fields = true;
}

bars_delimiter : get_field_delimiter bars ≡ ok (text "|")
unfolding get_field_delimiter lazy_simple_separator separator_byte try_parse_integer
    try_get_property find text_eq serde_of ascii
bars_delimiter = refl

bars_options : get_csv_options bars ≡ ok bar_options
unfolding get_csv_options get_field_delimiter get_quote_character get_escape_character
    get_header_line_count get_count_property get_null_format lazy_simple_separator separator_byte
    try_parse_integer try_get_property find text_eq serde_of ascii
bars_options = refl

bars_supported : check_text_serde_supported bars csv ≡ ok tt
unfolding check_text_serde_supported check_csv check_lazy_simple get_field_delimiter
    get_quote_character get_escape_character get_header_line_count get_count_property
    get_null_format lazy_simple_separator separator_byte try_parse_integer try_get_property find
    text_eq serde_of ascii
bars_supported = refl

bars_serde : serde_of (text "LazySimpleSerDe") ≡ ok lazy_simple
unfolding serde_of ascii
bars_serde = refl

get_field_delimiter-IsSeparator_example : IsSeparator (text "|")
get_field_delimiter-IsSeparator_example =
    get_field_delimiter-IsSeparator bars lazy_simple (text "|") bars_serde refl bars_delimiter

abbrev compressions : Compressions
compressions = record {
  from_name = λ s. if text_eq s (text "gzip") then ok gzip else err not_implemented;
  is_compressed = λ c. elim c [ gzip ↦ true | _ ↦ false ];
  to_string = λ c. elim c [ gzip ↦ text "gzip" | _ ↦ text "none" ];
}

bars_codec : get_codec compressions bars avro ≡ ok (text "snappy")
unfolding get_codec avro_codec get_codec_parameter get_parameter find_parameter text_eq ascii
bars_codec = refl

get_codec-IsCodec_example : IsCodec compressions avro (text "snappy")
get_codec-IsCodec_example = get_codec-IsCodec compressions bars avro (text "snappy") refl bars_codec

abbrev commented : GlueTableInfo
commented = record bars {
  parameters =
      (text "avro.output.codec", text "Snappy")
      ∷ (text "classification", text "csv")
      ∷ (text "comment", text "x")
      ∷ [];
}

bars_set : set_table_options ((text "comment", text "x") ∷ []) bars ≡ ok commented
unfolding set_table_options check_set check_table_property_changeable is_parameter
    update_table_parameters erase_all assign_all assign text_eq text_lt ascii
bars_set = refl

set_table_options-detect_example : detect commented ≡ detect bars
set_table_options-detect_example =
    set_table_options-detect ((text "comment", text "x") ∷ []) bars commented bars_set

commented_reset : reset_table_options (text "comment" ∷ []) commented ≡ ok bars
unfolding reset_table_options check_unset check_table_property_changeable is_parameter
    update_table_parameters erase_all assign_all erase text_eq text_lt ascii
commented_reset = refl

reset_table_options-detect_example : detect bars ≡ detect commented
reset_table_options-detect_example =
    reset_table_options-detect (text "comment" ∷ []) commented bars commented_reset

hive_file_format_from_string_iff_example :
    (hive_file_format_from_string ⦃db = ascii⦄ (text "CSV") ≡ ok csv)
    ↔ (lower ⦃db = ascii⦄ (text "CSV") ≡ hive_file_format_to_string csv)
hive_file_format_from_string_iff_example =
    hive_file_format_from_string_iff ⦃db = ascii⦄ (text "CSV") csv
