-- ===== src/Creation/Options.antt =====
-- ParseCreateTableOptions (src/catalog/glue_schema_entry.cpp).
use duckdb_aws_glue.Base.{
  ℤ, negsuc, ◌==◌, ◌||◌, not, Bool, false, List, [], ◌∷◌, Text, text, text_eq, length,
  if◌then◌else◌, Outcome, ok, err, ◌>>=◌, ◌>>◌, binder,
}
use duckdb_aws_glue.DuckDb.{DuckDb, ci_equals, upper, r_trim_of}
use duckdb_aws_glue.Table.Formats.{HiveFileFormat, parquet, hive_file_format_from_string}
use duckdb_aws_glue.Table.Info.{GlueColumn, Parameters}
use duckdb_aws_glue.Table.Alter.{assign}
use duckdb_aws_glue.Creation.Values.{
  Value, is_null, to_string, parse_bucket_columns, parse_number_of_buckets, parse_sort_columns,
}

pub record GlueCreateTableOptions : Type 0 where
  pub location : Text
  pub description : Text
  pub format : HiveFileFormat
  pub csv_delimiter : Text
  pub csv_quote : Text
  pub csv_escape : Text
  pub bucket_columns : List Text
  pub number_of_buckets : ℤ
  pub sort_columns : List GlueColumn
  pub overwrite : Bool
  pub parameters : Parameters

abbrev pub default_options : GlueCreateTableOptions
default_options = record {
  location = [];
  description = [];
  format = parquet;
  csv_delimiter = text ",";
  csv_quote = [];
  csv_escape = [];
  bucket_columns = [];
  number_of_buckets = negsuc 0;
  sort_columns = [];
  overwrite = false;
  parameters = [];
}

-- What DuckDB says: the cast of a value to BOOLEAN, and the setting glue_create_bucketed_tables.
pub record OptionContext : Type 0 where
  pub to_boolean : Value → Outcome Bool
  pub create_bucketed_tables : Bool

module _ ⦃db : DuckDb⦄ where
  unfoldable pub is_bucketing_option : Text → Bool
  is_bucketing_option key =
      ci_equals key (text "BucketColumns")
      || ci_equals key (text "NumberOfBuckets")
      || ci_equals key (text "SortColumns")

  -- whether BucketingOptionFor has another spelling for the key
  unfoldable pub is_other_bucketing_option : Text → Bool
  is_other_bucketing_option key =
      ci_equals key (text "bucket_columns")
      || ci_equals key (text "bucketed_by")
      || ci_equals key (text "clustered_by")
      || ci_equals key (text "number_of_buckets")
      || ci_equals key (text "bucket_count")
      || ci_equals key (text "sort_columns")
      || ci_equals key (text "sorted_by")

  -- whether OtherEngineOptionFor has one
  unfoldable pub is_other_engine_option : Text → Bool
  is_other_engine_option key =
      ci_equals key (text "partitioned_by")
      || ci_equals key (text "partitioning")
      || ci_equals key (text "external_location")
      || ci_equals key (text "field_delimiter")

module _ ⦃db : DuckDb⦄ (context : OptionContext) where
  unfoldable pub with_bucketing_option :
      Text → Value → GlueCreateTableOptions → Outcome GlueCreateTableOptions
  unfolding parse_bucket_columns parse_number_of_buckets parse_sort_columns
  with_bucketing_option key value options =
      if not context.create_bucketed_tables
      then err binder
      else if ci_equals key (text "BucketColumns")
      then parse_bucket_columns value >>= (λ names. ok (record options { bucket_columns = names }))
      else if ci_equals key (text "NumberOfBuckets")
      then parse_number_of_buckets value >>= (λ n. ok (record options { number_of_buckets = n }))
      else parse_sort_columns value >>= λ columns. ok (record options { sort_columns = columns })

  -- delimiter, quote and escape
  unfoldable pub with_character :
      Text → Text → GlueCreateTableOptions → Outcome GlueCreateTableOptions
  with_character key string_value options =
      if not (length string_value == 1)
      then err binder
      else if ci_equals key (text "delimiter")
      then ok (record options { csv_delimiter = string_value })
      else if ci_equals key (text "quote")
      then ok (record options { csv_quote = string_value })
      else ok (record options { csv_escape = string_value })

  -- the options that are no option of the csv dialect
  unfoldable pub with_other_option :
      Text → Value → GlueCreateTableOptions → Outcome GlueCreateTableOptions
  unfolding is_bucketing_option is_other_bucketing_option is_other_engine_option
      with_bucketing_option assign
  with_other_option key value options =
      if ci_equals key (text "overwrite")
      then context.to_boolean value >>= (λ b. ok (record options { overwrite = b }))
      else if ci_equals key (text "header")
      then context.to_boolean value >>= (λ b. ok (
          if b
          then record options {
            parameters = assign (text "skip.header.line.count") (text "1") options.parameters;
          }
          else options))
      else if is_bucketing_option key
      then with_bucketing_option key value options
      else if is_other_bucketing_option key || is_other_engine_option key
      then err binder
      else ok (record options { parameters = assign key (to_string value) options.parameters })

  -- one round of the loop
  unfoldable pub with_option :
      Text → Value → GlueCreateTableOptions → Outcome GlueCreateTableOptions
  unfolding with_character with_other_option
  with_option key value options =
      if ci_equals key (text "type")
      then (if text_eq (upper (to_string value)) (text "HIVE") then ok options else err binder)
      else if ci_equals key (text "format")
      then hive_file_format_from_string (to_string value)
        >>= (λ f. ok (record options { format = f }))
      else if ci_equals key (text "location")
      then ok (record options { location = r_trim_of (to_string value) (text "/") })
      else if ci_equals key (text "comment")
      then ok (record options { description = to_string value })
      else if ci_equals key (text "delimiter")
          || ci_equals key (text "quote")
          || ci_equals key (text "escape")
      then with_character key (to_string value) options
      else with_other_option key value options

  unfoldable pub with_options :
      List (Text × Value) → GlueCreateTableOptions → Outcome GlueCreateTableOptions
  unfolding with_option
  with_options [] options = ok options
  with_options ((key, value) ∷ rest) options =
      with_option key value options >>= λ options'. with_options rest options'

  abbrev pub no_nulls : List (Text × Value) → Outcome (Unit {0})
  no_nulls [] = ok tt
  no_nulls ((key, value) ∷ rest) = if is_null value then err binder else no_nulls rest

  -- ParseCreateTableOptions: EvaluateOptions refuses NULL before the loop
  unfoldable pub parse_create_table_options : List (Text × Value) → Outcome GlueCreateTableOptions
  unfolding with_options
  parse_create_table_options options = no_nulls options >> with_options options default_options
