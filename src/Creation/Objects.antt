-- ===== src/Creation/Objects.antt =====
-- The objects of the AWS SDK that a table is sent and returned in, plain data whose `HasBeenSet` is an Option here,
-- and the conversions of src/api/glue_api_util.cpp.
use duckdb_aws_glue.Base.{
  ◌≡◌, zero, ℤ, pos, List, [], ◌∷◌, Text, is_empty, if◌then◌else◌, Option, none, some,
}
use duckdb_aws_glue.Table.Formats.{GlueSortOrder, unsorted, ascending, descending}
use duckdb_aws_glue.Table.Info.{GlueColumn, Parameters, find, value_or}
use duckdb_aws_glue.Table.Alter.{assign}

pub record Column : Type 0 where
  pub name : Text
  pub type : Text
  pub comment : Option Text

pub record Order : Type 0 where
  pub column : Text
  pub sort_order : ℤ

pub record StorageDescriptor : Type 0 where
  pub location : Text
  pub input_format : Text
  pub output_format : Text
  pub serialization_library : Text
  pub serde_parameters : Parameters
  pub columns : List Column
  pub number_of_buckets : Option ℤ
  pub bucket_columns : List Text
  pub sort_columns : List Order

pub record TableInput : Type 0 where
  pub name : Text
  pub table_type : Text
  pub description : Option Text
  pub view_original_text : Option Text
  pub view_expanded_text : Option Text
  pub storage_descriptor : StorageDescriptor
  pub partition_keys : List Column
  pub parameters : Parameters

-- what Glue has of a table: what the request said, and what Glue adds
pub record Table : Type 0 where
  pub input : TableInput
  pub database_name : Text
  pub version_id : Option Text
  pub create_time_ms : Option ℤ

-- Glue documents that the table it returns has what the request that created it said.
pub record Glue : Type 0 where
  pub stored : TableInput → Table
  pub stored-input : (input : TableInput) → (stored input).input ≡ input

-- map::emplace, which leaves a key that is there as it is
unfoldable pub emplace : Text → Text → Parameters → Parameters
unfolding find assign
emplace key value ps = elim (find key ps) [ some _ ↦ ps | none ↦ assign key value ps ]

unfoldable pub emplace_all : Parameters → Parameters → Parameters
unfolding emplace
emplace_all [] ps = ps
emplace_all ((key, value) ∷ rest) ps = emplace_all rest (emplace key value ps)

-- ToAwsMap, and ToStdMap
abbrev pub to_aws_map : Parameters → Parameters
to_aws_map ps = emplace_all ps []

abbrev pub to_aws_column : GlueColumn → Column
to_aws_column column = record {
  name = column.name;
  type = column.type;
  comment = if is_empty column.comment then none else some column.comment;
}

abbrev pub to_column : Column → GlueColumn
to_column column = record {
  name = column.name;
  type = column.type;
  comment = value_or column.comment [];
  sort_order = unsorted;
}

abbrev pub to_order : GlueColumn → Order
to_order column = record {
  column = column.name;
  sort_order = elim column.sort_order [ descending ↦ pos 0 | _ ↦ pos 1 ];
}

abbrev pub order_of : ℤ → GlueSortOrder
order_of (pos zero) = descending
order_of _ = ascending

abbrev pub of_order : Order → GlueColumn
of_order order = record {
  name = order.column;
  type = [];
  comment = [];
  sort_order = order_of order.sort_order;
}
