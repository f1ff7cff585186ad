-- ===== src/Table/JsonOptions.antt =====
-- HiveJSONOptions::FromTable of src/core/readers/hive_json_options.cpp.
use duckdb_aws_glue.Base.{
  Bool, true, false, ◌||◌, List, [], ◌∷◌, ◌++◌, Text, text, is_empty, if◌then◌else◌, Option, none,
  some, Outcome, ok, ◌>>=◌, insert_text, sort_texts,
}
use duckdb_aws_glue.DuckDb.{DuckDb, ci_equals, starts_with}
use duckdb_aws_glue.Table.Formats.{HiveSerDe, hive_json, openx_json}
use duckdb_aws_glue.Table.Info.{Parameters, GlueTableInfo, try_get_property, get_serde}

pub record HiveJsonOptions : Type 0 where
  pub ignore_errors : Bool
  pub case_insensitive_keys : Bool
  pub unsupported_properties : List Text

abbrev pub default_json_options : HiveJsonOptions
default_json_options = record {
  ignore_errors = false;
  case_insensitive_keys = true;
  unsupported_properties = [];
}

pub data JsonSerdePropertyEffect : Type 0 where
  ignore_errors_if_true exact_keys_if_false not_applied_if_true not_applied_if_set :
      JsonSerdePropertyEffect

pub record JsonSerdeProperty : Type 0 where
  pub serde : HiveSerDe
  pub name : Text
  pub is_prefix : Bool
  pub effect : JsonSerdePropertyEffect

-- JSON_SERDE_PROPERTIES
abbrev pub json_serde_properties : List JsonSerdeProperty
json_serde_properties =
    (record {
      serde = openx_json;
      name = text "ignore.malformed.json";
      is_prefix = false;
      effect = ignore_errors_if_true;
    })
    ∷ (record {
      serde = openx_json;
      name = text "use.null.for.invalid.data";
      is_prefix = false;
      effect = ignore_errors_if_true;
    })
    ∷ (record {
      serde = openx_json;
      name = text "case.insensitive";
      is_prefix = false;
      effect = exact_keys_if_false;
    })
    ∷ (record {
      serde = openx_json;
      name = text "mapping.";
      is_prefix = true;
      effect = not_applied_if_set;
    })
    ∷ (record {
      serde = openx_json;
      name = text "dots.in.keys";
      is_prefix = false;
      effect = not_applied_if_true;
    })
    ∷ (record {
      serde = hive_json;
      name = text "timestamp.formats";
      is_prefix = false;
      effect = not_applied_if_set;
    })
    ∷ []

abbrev pub same_json_serde : HiveSerDe → HiveSerDe → Bool
same_json_serde openx_json openx_json = true
same_json_serde hive_json hive_json = true
same_json_serde _ _ = false

module _ ⦃db : DuckDb⦄ where
  unfoldable pub keys_with_prefix : Text → Parameters → List Text → List Text
  unfolding insert_text
  keys_with_prefix prefix [] keys = keys
  keys_with_prefix prefix ((key, value) ∷ rest) keys =
      keys_with_prefix prefix rest (if starts_with key prefix then insert_text key keys else keys)

  -- PropertyKeys
  unfoldable pub property_keys : GlueTableInfo → JsonSerdeProperty → List Text
  unfolding keys_with_prefix
  property_keys table property =
      if property.is_prefix
      then keys_with_prefix property.name table.serde_parameters
          (keys_with_prefix property.name table.parameters [])
      else property.name ∷ []

  -- The switch over the effect of a property that is set.
  unfoldable pub apply_effect :
      JsonSerdePropertyEffect → Text → Text → HiveJsonOptions → HiveJsonOptions
  apply_effect ignore_errors_if_true key value options = record options {
    ignore_errors = options.ignore_errors || ci_equals value (text "true");
  }
  apply_effect exact_keys_if_false key value options = record options {
    case_insensitive_keys =
        if ci_equals value (text "false") then false else options.case_insensitive_keys;
  }
  apply_effect not_applied_if_true key value options = record options {
    unsupported_properties =
        if ci_equals value (text "true")
        then options.unsupported_properties ++ key ∷ []
        else options.unsupported_properties;
  }
  apply_effect not_applied_if_set key value options = record options {
    unsupported_properties =
        if is_empty value
        then options.unsupported_properties
        else options.unsupported_properties ++ key ∷ [];
  }

  abbrev apply_if_set :
      JsonSerdePropertyEffect → Text → Option Text → HiveJsonOptions → HiveJsonOptions
  apply_if_set effect key none options = options
  apply_if_set effect key (some value) options = apply_effect effect key value options

  unfoldable pub apply_keys :
      GlueTableInfo → JsonSerdePropertyEffect → List Text → HiveJsonOptions → HiveJsonOptions
  unfolding apply_effect
  apply_keys table effect [] options = options
  apply_keys table effect (key ∷ keys) options =
      apply_keys table effect keys (apply_if_set effect key (try_get_property table key) options)

  unfoldable pub apply_properties :
      GlueTableInfo → HiveSerDe → List JsonSerdeProperty → HiveJsonOptions → HiveJsonOptions
  unfolding property_keys apply_keys
  apply_properties table serde [] options = options
  apply_properties table serde (property ∷ rest) options = apply_properties table serde rest (
      if same_json_serde property.serde serde
      then apply_keys table property.effect (property_keys table property) options
      else options)

  -- FromTable
  unfoldable pub from_table : GlueTableInfo → Outcome HiveJsonOptions
  from_table table = do
    serde ← get_serde table
    let options = apply_properties table serde json_serde_properties default_json_options
    ok (record options { unsupported_properties = sort_texts options.unsupported_properties })
