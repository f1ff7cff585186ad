-- ===== src/Creation/Build.antt =====
-- BuildTableInfo (src/catalog/glue_schema_entry.cpp) and GetTableLocation (src/catalog/glue_catalog.cpp).
use duckdb_aws_glue.Base.{
  pos, negsuc, ◌||◌, not, ◌&&◌, Bool, true, false, List, [], ◌∷◌, ◌++◌, Text, text, is_empty,
  if◌then◌else◌, Option, none, some, Outcome, ok, err, ◌>>=◌, ◌>>◌, throw_if, binder,
  not_implemented, invalid_configuration, map,
}
use duckdb_aws_glue.DuckDb.{DuckDb, ci_equals, r_trim_of}
use duckdb_aws_glue.Types.Logical.{LogicalType}
use duckdb_aws_glue.Types.Printer.{from_logical_type}
use duckdb_aws_glue.Table.Formats.{HiveFileFormat, parquet, csv, unsorted, other}
use duckdb_aws_glue.Table.Info.{GlueColumn, GlueTableInfo}
use duckdb_aws_glue.Creation.Values.{Value}
use duckdb_aws_glue.Creation.Options.{
  GlueCreateTableOptions, OptionContext, parse_create_table_options,
}
use duckdb_aws_glue.Creation.Bucketing.{is_listed, resolve_bucketing}

-- A column of CREATE TABLE; its comment is not given where it is NULL.
pub record ColumnDefinition : Type 0 where
  pub name : Text
  pub type : LogicalType
  pub comment : Option Text
  pub is_generated : Bool
  pub has_default : Bool
  pub collation : Text

-- An expression of PARTITIONED BY: a column with whether it is qualified, or any other.
pub data PartitionKey : Type 0 where
  column_key : Bool → Text → PartitionKey
  other_key : PartitionKey

-- The statement: `has_constraints` where it lists any, `comment` where it is not NULL.
pub record CreateTableInfo : Type 0 where
  pub table_name : Text
  pub has_constraints : Bool
  pub columns : List ColumnDefinition
  pub partition_keys : List PartitionKey
  pub options : List (Text × Value)
  pub comment : Option Text

-- The database and the catalog that the table is made in; `location_uri` is what Glue says of the
-- database.
pub record CreationContext : Type 0 where
  pub option_context : OptionContext
  pub database_name : Text
  pub default_location : Text
  pub location_uri : Outcome Text

abbrev pub no_table : GlueTableInfo
no_table = record {
  name = [];
  schema_name = [];
  glue_database_name = [];
  glue_table_type = [];
  table_type = other;
  view_original_text = [];
  view_expanded_text = [];
  description = [];
  location = [];
  input_format = [];
  output_format = [];
  serde_library = [];
  serde_parameters = [];
  columns = [];
  partition_keys = [];
  bucket_columns = [];
  number_of_buckets = negsuc 0;
  sort_columns = [];
  parameters = [];
  version_id = [];
  create_time_ms = pos 0;
  file_format = parquet;
  fetched = false;
}

-- ThrowIfUnsupportedColumn and ThrowIfCollated
unfoldable pub throw_if_unsupported_column : ColumnDefinition → Outcome (Unit {0})
throw_if_unsupported_column column =
    throw_if (column.is_generated || column.has_default || not (is_empty column.collation))
      not_implemented

unfoldable pub throw_if_unsupported : List ColumnDefinition → Outcome (Unit {0})
unfolding throw_if_unsupported_column
throw_if_unsupported [] = ok tt
throw_if_unsupported (column ∷ columns) =
    throw_if_unsupported_column column >> throw_if_unsupported columns

abbrev pub definition_name : ColumnDefinition → Text
definition_name column = column.name

module _ ⦃db : DuckDb⦄ where
  -- the loop over PARTITIONED BY, after the names that it has
  unfoldable pub partition_columns_from :
      List Text → List PartitionKey → List Text → Outcome (List Text)
  partition_columns_from columns [] found = ok found
  partition_columns_from columns (other_key ∷ keys) found = err binder
  partition_columns_from columns (column_key qualified name ∷ keys) found =
      let rest = partition_columns_from columns keys (found ++ (name ∷ [])) in
      if qualified
      then err binder
      else if not (is_listed name columns)
      then err binder
      else if is_listed name found
      then err binder
      else rest

  -- a column as Glue has it
  unfoldable pub glue_column : ColumnDefinition → Outcome GlueColumn
  unfolding from_logical_type
  glue_column column = from_logical_type column.type >>= λ type. ok (record {
    name = column.name;
    type = type;
    comment = elim column.comment [ some c ↦ c | none ↦ [] ];
    sort_order = unsorted;
  })

  -- the columns that are no partition columns
  unfoldable pub data_columns : List Text → List ColumnDefinition → Outcome (List GlueColumn)
  unfolding glue_column
  data_columns partition_columns [] = ok []
  data_columns partition_columns (column ∷ columns) =
      let rest = data_columns partition_columns columns in
      if is_listed column.name partition_columns
      then rest
      else glue_column column >>= λ c. rest >>= λ cs. ok (c ∷ cs)

  -- ColumnList::GetColumn, of a name that there is
  abbrev pub get_column : Text → List ColumnDefinition → Outcome ColumnDefinition
  get_column name [] = err binder
  get_column name (column ∷ columns) =
      if ci_equals column.name name then ok column else get_column name columns

  unfoldable pub key_columns : List ColumnDefinition → List Text → Outcome (List GlueColumn)
  unfolding glue_column
  key_columns columns [] = ok []
  key_columns columns (name ∷ names) = get_column name columns >>= λ column.
      glue_column column >>= λ c. key_columns columns names >>= λ cs. ok (c ∷ cs)

  -- GetTableLocation, where no option gives the location
  unfoldable pub get_table_location : CreationContext → Text → Outcome Text
  get_table_location context table_name =
      if not (is_empty context.default_location)
      then ok (
          context.default_location
          ++ (text "/" ++ (context.database_name ++ (text "/" ++ table_name))))
      else context.location_uri >>= λ uri.
          if is_empty uri
          then err invalid_configuration
          else ok (r_trim_of uri (text "/") ++ (text "/" ++ table_name))

  -- the SerDe of a csv table and its parameters: with a quote or an escape OpenCSVSerde;
  -- the parameters are listed by key, as `assign` keeps them
  unfoldable pub with_csv_serde : GlueCreateTableOptions → GlueTableInfo → GlueTableInfo
  with_csv_serde options table =
      if is_empty options.csv_quote && is_empty options.csv_escape
      then record table {
        serde_library = text "org.apache.hadoop.hive.serde2.lazy.LazySimpleSerDe";
        serde_parameters =
            (text "field.delim", options.csv_delimiter)
            ∷ (text "serialization.format", options.csv_delimiter)
            ∷ [];
      }
      else let quote = if is_empty options.csv_quote then text "\"" else options.csv_quote in
        record table {
          serde_library = text "org.apache.hadoop.hive.serde2.OpenCSVSerde";
          serde_parameters =
              (text "escapeChar", if is_empty options.csv_escape then quote else options.csv_escape)
              ∷ (text "quoteChar", quote)
              ∷ (text "separatorChar", options.csv_delimiter)
              ∷ [];
        }

  abbrev pub is_csv : HiveFileFormat → Bool
  is_csv csv = true
  is_csv _ = false

  abbrev described : Option Text → Text → Text
  described comment description =
      if is_empty description then elim comment [ some c ↦ c | none ↦ [] ] else description

  -- what BuildTableInfo makes of the parts that it has resolved
  unfoldable pub assemble :
      CreationContext
      → CreateTableInfo
      → GlueCreateTableOptions
      → Text
      → List GlueColumn
      → List GlueColumn
      → GlueTableInfo
  unfolding with_csv_serde
  assemble context base options location columns partition_keys =
      let table : GlueTableInfo = record no_table {
        name = base.table_name;
        schema_name = context.database_name;
        description = described base.comment options.description;
        location = location;
        parameters = options.parameters;
        file_format = options.format;
        bucket_columns = options.bucket_columns;
        number_of_buckets = options.number_of_buckets;
        sort_columns = options.sort_columns;
        columns = columns;
        partition_keys = partition_keys;
      } in
      if is_csv options.format then with_csv_serde options table else table

  -- BuildTableInfo
  unfoldable pub build_table_info : CreationContext → CreateTableInfo → Outcome GlueTableInfo
  unfolding throw_if_unsupported partition_columns_from resolve_bucketing get_table_location
      data_columns key_columns assemble
  build_table_info context base =
      throw_if base.has_constraints not_implemented
      >> (throw_if_unsupported base.columns
          >> (parse_create_table_options context.option_context base.options >>= λ parsed.
              partition_columns_from (map definition_name base.columns) base.partition_keys []
              >>= λ keys.
                  resolve_bucketing (map definition_name base.columns) keys parsed >>= λ options.
                  (if is_empty options.location
                    then get_table_location context base.table_name
                    else ok options.location)
                  >>= λ location. data_columns keys base.columns >>= λ columns.
                      key_columns base.columns keys >>= λ partition_keys.
                      throw_if (is_empty columns) binder
                      >> ok (assemble context base options location columns partition_keys)))
