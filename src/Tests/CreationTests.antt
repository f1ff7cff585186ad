-- ===== src/Tests/CreationTests.antt =====
-- Instances of the theorems about CREATE TABLE: a csv table with the columns `Id`, `Amount` and `day`, which is
-- partitioned by `day`, bucketed by `ID` and sorted by `amount` and `id`.
use duckdb_aws_glue.Base.{
  ◌≡◌, refl, pos, true, false, [], ◌∷◌, Text, text, text_eq, none, some, ok, err, is_empty, binder,
  ◌>>=◌, arith, sym,
}
use mathlib.Core.Path.{subst}
use duckdb_aws_glue.DuckDb.{lower_byte, cast_bigint}
use duckdb_aws_glue.DuckDb.Ascii.{ascii}
use duckdb_aws_glue.Types.Logical.{LogicalType, integer, double, varchar}
use duckdb_aws_glue.Table.Formats.{
  hive_file_format_from_string, hive_serde_file_format, GlueSortOrder, parquet, csv, unsorted,
  descending,
}
use duckdb_aws_glue.Table.TableFormat.{is_parameter, detect, hive, storage_descriptor}
use duckdb_aws_glue.Table.Info.{GlueColumn, GlueTableInfo, get_serde}
use duckdb_aws_glue.Creation.Values.{
  integral, list_value, struct_value, other_value, no_values, value, no_members, member,
}
use duckdb_aws_glue.Creation.Options.{parse_create_table_options}
use duckdb_aws_glue.Creation.Build.{
  ColumnDefinition, CreateTableInfo, CreationContext, column_key, no_table, build_table_info,
}
use duckdb_aws_glue.Creation.Tables.{table_input, to_table_info}
use duckdb_aws_glue.Creation.Objects.{Glue, TableInput}
use duckdb_aws_glue.Creation.Keys.{Excludes}
use duckdb_aws_glue.Creation.Named.{named, format_or}
use duckdb_aws_glue.Creation.Detected.{build_table_info-detect}
use duckdb_aws_glue.Creation.Asked.{Dialect, dialect_of}
use duckdb_aws_glue.Creation.ReadDialect.{IsRead}
use duckdb_aws_glue.Creation.Dialect.{build_table_info-csv_dialect}
use duckdb_aws_glue.Creation.Asked.{is_dialect_key, IsAscii}
use duckdb_aws_glue.Table.Separators.{IsSeparator}
use duckdb_aws_glue.Creation.Made.{HasBuckets, build_table_info-HasBuckets}

abbrev of_type : Text → LogicalType → ColumnDefinition
of_type name type = record {
  name = name;
  type = type;
  comment = none;
  is_generated = false;
  has_default = false;
  collation = [];
}

abbrev glue_column_of : Text → Text → GlueSortOrder → GlueColumn
glue_column_of name type order = record {
  name = name;
  type = type;
  comment = [];
  sort_order = order;
}

abbrev sales : CreateTableInfo
sales = record {
  table_name = text "sales";
  has_constraints = false;
  columns =
      of_type (text "Id") integer
      ∷ of_type (text "Amount") double
      ∷ of_type (text "day") varchar
      ∷ [];
  partition_keys = column_key false (text "Day") ∷ [];
  options =
      (text "format", other_value (text "csv"))
      ∷ (text "quote", other_value (text "'"))
      ∷ (
        text "BucketColumns",
        list_value false (value (other_value (text "ID")) no_values) (text "[ID]"),
      )
      ∷ (text "NumberOfBuckets", integral (some (pos 4)) (text "4"))
      ∷ (
        text "SortColumns",
        list_value true
            (value
              (struct_value
                (member (text "Column") (other_value (text "amount"))
                  (member (text "SortOrder") (integral (some (pos 0)) (text "0")) no_members))
                (text "amount"))
              no_values)
            (text "amount"),
      )
      ∷ [];
  comment = none;
}

abbrev context : CreationContext
context = record {
  option_context = record { to_boolean = λ _. err binder; create_bucketed_tables = true };
  database_name = text "shop";
  default_location = text "s3://lake";
  location_uri = ok [];
}

abbrev created : GlueTableInfo
created = record no_table {
  name = text "sales";
  schema_name = text "shop";
  location = text "s3://lake/shop/sales";
  serde_library = text "org.apache.hadoop.hive.serde2.OpenCSVSerde";
  serde_parameters =
      (text "escapeChar", text "'")
      ∷ (text "quoteChar", text "'")
      ∷ (text "separatorChar", text ",")
      ∷ [];
  columns =
      glue_column_of (text "Id") (text "int") unsorted
      ∷ glue_column_of (text "Amount") (text "double") unsorted
      ∷ [];
  partition_keys = glue_column_of (text "day") (text "string") unsorted ∷ [];
  bucket_columns = text "Id" ∷ [];
  number_of_buckets = pos 4;
  sort_columns = glue_column_of (text "Amount") [] descending ∷ [];
  file_format = csv;
}

sales-created : build_table_info ⦃db = ascii⦄ context sales ≡ ok created
unfolding build_table_info ascii lower_byte text_eq parse_create_table_options
    hive_file_format_from_string
sales-created = refl

build_table_info-HasBuckets_example :
    HasBuckets ⦃db = ascii⦄ created × (is_empty created.columns ≡ false)
build_table_info-HasBuckets_example =
    build_table_info-HasBuckets ⦃db = ascii⦄ context sales created sales-created

-- Glue adds a database, a version and no time
abbrev glue : Glue
glue = record {
  stored = λ input. record {
    input = input;
    database_name = text "shop";
    version_id = some (text "0");
    create_time_ms = none;
  };
  stored-input = λ input. refl;
}

sales-no_parameter : Excludes (is_parameter ⦃db = ascii⦄) sales.options
unfolding is_parameter ascii lower_byte text_eq
sales-no_parameter = (refl, (refl, (refl, (refl, (refl, tt)))))

build_table_info-detect_example :
    (input : TableInput) × (table_input ⦃db = ascii⦄ created ≡ ok input)
    × (detect ⦃db = ascii⦄ (to_table_info ⦃db = ascii⦄ (text "shop") (glue.stored input))
        ≡ record { format = hive; source = storage_descriptor })
    × ((get_serde ⦃db = ascii⦄ (to_table_info ⦃db = ascii⦄ (text "shop") (glue.stored input))
          >>= λ serde. ok (hive_serde_file_format serde))
        ≡ ok csv)
unfolding ascii hive_file_format_from_string
build_table_info-detect_example =
    build_table_info-detect ⦃db = ascii⦄ glue context sales created (text "shop") sales-no_parameter
      sales-created

sales-no_dialect_key : Excludes is_dialect_key sales.options
unfolding text_eq
sales-no_dialect_key = (refl, (refl, (refl, (refl, (refl, tt)))))

sales_dialect :
    dialect_of ⦃db = ascii⦄ sales.options
    ≡ record { delimiter = text ","; quote = text "'"; escape = [] }
unfolding ascii lower_byte text_eq
sales_dialect = refl

sales-csv :
    format_or ⦃db = ascii⦄ parquet (named ⦃db = ascii⦄ (text "format") sales.options) ≡ ok csv
unfolding hive_file_format_from_string ascii lower_byte text_eq
sales-csv = refl

comma-no_number : cast_bigint ⦃db = ascii⦄ (text ",") ≡ none
unfolding ascii lower_byte
comma-no_number = refl

delimiter-IsSeparator : IsSeparator (dialect_of ⦃db = ascii⦄ sales.options).delimiter
delimiter-IsSeparator =
    subst (λ (d : Dialect). IsSeparator d.delimiter) (sym sales_dialect)
      (omega arith, omega arith, (cc), (cc))

delimiter-no_number :
    cast_bigint ⦃db = ascii⦄ (dialect_of ⦃db = ascii⦄ sales.options).delimiter ≡ none
delimiter-no_number =
    subst (λ (d : Dialect). cast_bigint ⦃db = ascii⦄ d.delimiter ≡ none) (sym sales_dialect)
      comma-no_number

quote-IsAscii : IsAscii (dialect_of ⦃db = ascii⦄ sales.options).quote
quote-IsAscii = subst (λ (d : Dialect). IsAscii d.quote) (sym sales_dialect) (omega arith)

escape-IsAscii : IsAscii (dialect_of ⦃db = ascii⦄ sales.options).escape
escape-IsAscii = subst (λ (d : Dialect). IsAscii d.escape) (sym sales_dialect) tt

build_table_info-csv_dialect_example :
    (input : TableInput) × (table_input ⦃db = ascii⦄ created ≡ ok input)
    × IsRead ⦃db = ascii⦄
        (dialect_of ⦃db = ascii⦄ sales.options)
        (to_table_info ⦃db = ascii⦄ (text "shop") (glue.stored input))
build_table_info-csv_dialect_example =
    build_table_info-csv_dialect ⦃db = ascii⦄ glue context sales created (text "shop")
      sales-no_dialect_key sales-csv delimiter-IsSeparator delimiter-no_number quote-IsAscii
      escape-IsAscii sales-created
