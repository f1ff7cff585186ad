-- ===== src/Table/Info.antt =====
-- GlueColumn and GlueTableInfo of src/include/core/glue_info.hpp, with the lookups of
-- src/core/glue_info.cpp. A map is the list of its entries in the order in which the program would
-- iterate over it.
use duckdb_aws_glue.Base.{
  ℤ, Bool, true, false, not, ◌&&◌, List, [], ◌∷◌, ◌++◌, Text, text, text_eq, is_empty,
  if◌then◌else◌, Option, none, some, Outcome, leb_ℤ, pos, map, ltb,
}
use duckdb_aws_glue.DuckDb.{DuckDb, ci_equals, trim, join, print_number}
use duckdb_aws_glue.Table.Formats.{
  GlueSortOrder, HiveFileFormat, HiveSerDe, GlueTableType, virtual_view, describe_sort_order,
  serde_of,
}

pub record GlueColumn : Type 0 where
  pub name : Text
  pub type : Text
  pub comment : Text
  pub sort_order : GlueSortOrder

abbrev pub Parameters : Type 0
Parameters = List (Text × Text)

-- `fetched` says whether the table was read from Glue; the Table object itself is a value of the AWS
-- SDK.
pub record GlueTableInfo : Type 0 where
  pub name : Text
  pub schema_name : Text
  pub glue_database_name : Text
  pub glue_table_type : Text
  pub table_type : GlueTableType
  pub view_original_text : Text
  pub view_expanded_text : Text
  pub description : Text
  pub location : Text
  pub input_format : Text
  pub output_format : Text
  pub serde_library : Text
  pub serde_parameters : Parameters
  pub columns : List GlueColumn
  pub partition_keys : List GlueColumn
  pub bucket_columns : List Text
  pub number_of_buckets : ℤ
  pub sort_columns : List GlueColumn
  pub parameters : Parameters
  pub version_id : Text
  pub create_time_ms : ℤ
  pub file_format : HiveFileFormat
  pub fetched : Bool

-- map::find
unfoldable pub find : Text → Parameters → Option Text
find key [] = none
find key ((k, v) ∷ rest) = if text_eq k key then some v else find key rest

abbrev pub or_else : Option Text → Option Text → Option Text
or_else (some v) o = some v
or_else none o = o

abbrev pub value_or : Option Text → Text → Text
value_or (some v) d = v
value_or none d = d

-- TryGetProperty: the table's parameters before those of the SerDe
unfoldable pub try_get_property : GlueTableInfo → Text → Option Text
unfolding find
try_get_property table key = or_else (find key table.parameters) (find key table.serde_parameters)

abbrev pub is_bucketed : GlueTableInfo → Bool
is_bucketed table = not (is_empty table.bucket_columns)

abbrev pub is_view : GlueTableInfo → Bool
is_view table = elim table.table_type [ virtual_view ↦ true | _ ↦ false ]

abbrev same_type : GlueTableInfo → GlueTableInfo → Bool
same_type a b = text_eq a.glue_table_type b.glue_table_type

abbrev eq_ℤ : ℤ → ℤ → Bool
eq_ℤ a b = leb_ℤ a b && leb_ℤ b a

unfoldable pub is_same_version : GlueTableInfo → GlueTableInfo → Bool
unfolding text_eq
is_same_version table other =
    not (is_empty table.version_id)
    && text_eq table.version_id other.version_id
    && eq_ℤ table.create_time_ms other.create_time_ms
    && same_type table other

module _ ⦃db : DuckDb⦄ where
  -- The loop of GetParameter: the first key that is equal but for case, or the empty text.
  unfoldable pub find_parameter : Text → Parameters → Text
  find_parameter key [] = []
  find_parameter key ((k, v) ∷ rest) = if ci_equals k key then v else find_parameter key rest

  unfoldable pub get_parameter : GlueTableInfo → Text → Text
  unfolding find_parameter
  get_parameter table key = find_parameter key table.parameters

  unfoldable pub get_metadata_location : GlueTableInfo → Text
  unfolding get_parameter
  get_metadata_location table = get_parameter table (text "metadata_location")

  unfoldable pub is_partition_projected : GlueTableInfo → Bool
  unfolding get_parameter
  is_partition_projected table =
      not (is_empty table.partition_keys)
      && ci_equals (trim (get_parameter table (text "projection.enabled"))) (text "true")

  abbrev pub get_serde : GlueTableInfo → Outcome HiveSerDe
  get_serde table = serde_of table.serde_library

  abbrev described : GlueColumn → Text
  described column = column.name ++ (text " " ++ describe_sort_order column.sort_order)

  abbrev bucket_count : ℤ → Text
  bucket_count (pos n) =
      if ltb 0 n then text " into " ++ (print_number n ++ text " buckets") else text ""
  bucket_count _ = text ""

  unfoldable pub describe_bucketing : GlueTableInfo → Text
  describe_bucketing table =
      text "clustered by ("
      ++ (join table.bucket_columns (text ", ")
          ++ (text ")"
              ++ (bucket_count table.number_of_buckets
                  ++ (if is_empty table.sort_columns
                      then text ""
                      else text ", sorted by ("
                        ++ (join (map described table.sort_columns) (text ", ") ++ text ")")))))
