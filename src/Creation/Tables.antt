-- ===== src/Creation/Tables.antt =====
-- CreateHiveTable (src/api/glue_table_api.cpp), and ToTableInfo of src/api/glue_api_util.cpp.
use duckdb_aws_glue.Base.{
  pos, negsuc, Bool, true, [], ◌∷◌, Text, text, is_empty, if◌then◌else◌, Option, none, some,
  Outcome, ok, err, ◌>>=◌, ◌>>◌, throw_if, invalid_input, out_of_range, map,
}
use duckdb_aws_glue.DuckDb.{DuckDb}
use duckdb_aws_glue.Table.Formats.{
  HiveFileFormat, parquet, csv, json, avro, glue_table_type_from_string,
}
use duckdb_aws_glue.Table.Info.{Parameters, GlueTableInfo, find, get_serde, value_or}
use duckdb_aws_glue.Table.Delimiters.{is_open_csv}
use duckdb_aws_glue.Creation.Objects.{
  TableInput, Table, emplace, emplace_all, to_aws_map, to_aws_column, to_column, to_order, of_order,
}

-- what the switch over the file format sets
pub record FormatInput : Type 0 where
  pub serialization_library : Text
  pub serde_parameters : Parameters
  pub input_format : Text
  pub output_format : Text
  pub parameters : Parameters

-- map::at, which throws where there is no such key
abbrev pub found : Option Text → Outcome Text
found (some value) = ok value
found none = err out_of_range

abbrev pub at : Text → Parameters → Outcome Text
at key ps = found (find key ps)

unfoldable pub csv_input : Text → GlueTableInfo → FormatInput
unfolding emplace emplace_all
csv_input delimiter table = record {
  serialization_library = table.serde_library;
  serde_parameters = to_aws_map table.serde_parameters;
  input_format = text "org.apache.hadoop.mapred.TextInputFormat";
  output_format = text "org.apache.hadoop.hive.ql.io.HiveIgnoreKeyTextOutputFormat";
  parameters =
      emplace (text "delimiter") delimiter
        (emplace (text "classification") (text "csv") (to_aws_map table.parameters));
}

-- the description also stands among the parameters
abbrev pub table_parameters : Text → Parameters → Parameters
table_parameters description ps =
    let external = emplace (text "EXTERNAL") (text "TRUE") ps in
    if is_empty description then external else emplace (text "comment") description external

-- the rest of the request
unfoldable pub input_of : GlueTableInfo → FormatInput → TableInput
unfolding emplace
input_of table format = record {
  name = table.name;
  table_type = text "EXTERNAL_TABLE";
  description = if is_empty table.description then none else some table.description;
  view_original_text = none;
  view_expanded_text = none;
  storage_descriptor = record {
    location = table.location;
    input_format = format.input_format;
    output_format = format.output_format;
    serialization_library = format.serialization_library;
    serde_parameters = format.serde_parameters;
    columns = map to_aws_column table.columns;
    number_of_buckets = some table.number_of_buckets;
    bucket_columns = table.bucket_columns;
    sort_columns = map to_order table.sort_columns;
  };
  partition_keys = map to_aws_column table.partition_keys;
  parameters = table_parameters table.description format.parameters;
}

module _ ⦃db : DuckDb⦄ where
  unfoldable pub format_input : HiveFileFormat → GlueTableInfo → Outcome FormatInput
  unfolding emplace emplace_all find csv_input
  format_input parquet table = ok (record {
    serialization_library = text "org.apache.hadoop.hive.ql.io.parquet.serde.ParquetHiveSerDe";
    serde_parameters = (text "serialization.format", text "1") ∷ [];
    input_format = text "org.apache.hadoop.hive.ql.io.parquet.MapredParquetInputFormat";
    output_format = text "org.apache.hadoop.hive.ql.io.parquet.MapredParquetOutputFormat";
    parameters = emplace (text "classification") (text "parquet") (to_aws_map table.parameters);
  })
  format_input csv table = do
    serde ← get_serde table
    delimiter ←
        at (if is_open_csv serde then text "separatorChar" else text "field.delim")
          table.serde_parameters
    ok (csv_input delimiter table)
  format_input json table = ok (record {
    serialization_library = text "org.apache.hive.hcatalog.data.JsonSerDe";
    serde_parameters = [];
    input_format = text "org.apache.hadoop.mapred.TextInputFormat";
    output_format = text "org.apache.hadoop.hive.ql.io.HiveIgnoreKeyTextOutputFormat";
    parameters = emplace (text "classification") (text "json") (to_aws_map table.parameters);
  })
  format_input avro table = ok (record {
    serialization_library = text "org.apache.hadoop.hive.serde2.avro.AvroSerDe";
    serde_parameters = [];
    input_format = text "org.apache.hadoop.hive.ql.io.avro.AvroContainerInputFormat";
    output_format = text "org.apache.hadoop.hive.ql.io.avro.AvroContainerOutputFormat";
    parameters = emplace (text "classification") (text "avro") (to_aws_map table.parameters);
  })

  -- the request of CreateHiveTable
  unfoldable pub table_input : GlueTableInfo → Outcome TableInput
  unfolding format_input input_of
  table_input table = format_input table.file_format table >>= λ format. ok (input_of table format)

  -- ToTableInfo
  unfoldable pub to_table_info : Text → Table → GlueTableInfo
  unfolding glue_table_type_from_string
  to_table_info schema_name table =
      let input = table.input in
      let storage = input.storage_descriptor in
      record {
        name = input.name;
        schema_name = schema_name;
        glue_database_name = table.database_name;
        glue_table_type = input.table_type;
        table_type = glue_table_type_from_string input.table_type;
        view_original_text = value_or input.view_original_text [];
        view_expanded_text = value_or input.view_expanded_text [];
        description = value_or input.description [];
        location = storage.location;
        input_format = storage.input_format;
        output_format = storage.output_format;
        serde_library = storage.serialization_library;
        serde_parameters = to_aws_map storage.serde_parameters;
        columns = map to_column storage.columns;
        partition_keys = map to_column input.partition_keys;
        bucket_columns = storage.bucket_columns;
        number_of_buckets = elim storage.number_of_buckets [ some n ↦ n | none ↦ negsuc 0 ];
        sort_columns = map of_order storage.sort_columns;
        parameters = to_aws_map input.parameters;
        version_id = value_or table.version_id [];
        create_time_ms = elim table.create_time_ms [ some ms ↦ ms | none ↦ pos 0 ];
        file_format = parquet;
        fetched = true;
      }

pub data GlueCreateOutcome : Type 0 where
  created already_existed : GlueCreateOutcome

abbrev sent :
    {W : Type 0}
    → (TableInput → W → Outcome GlueCreateOutcome × W)
    → Outcome TableInput
    → W
    → Outcome GlueCreateOutcome × W
sent create_table (ok input) w = create_table input w
sent create_table (err e) w = (err e, w)

-- CreateHiveTable: `create_table` is the call of Glue, where AlreadyExists is no error. The caches of metadata are
-- invalidated however it ends.
unfoldable pub create_hive_table :
    ⦃db : DuckDb⦄ {W : Type 0}
    → Bool
    → (TableInput → W → Outcome GlueCreateOutcome × W)
    → (W → W)
    → GlueTableInfo
    → W
    → Outcome GlueCreateOutcome × W
unfolding table_input
create_hive_table read_only create_table invalidate table w =
    let checked =
      throw_if read_only invalid_input
      >> (throw_if (is_empty table.location) invalid_input >> table_input table) in
    let r = sent create_table checked w in (r.0, invalidate r.1)
