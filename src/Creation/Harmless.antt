-- ===== src/Creation/Harmless.antt =====
-- The parameters that decide the format of a table (src/core/glue_format.cpp), and those that CreateHiveTable
-- (src/api/glue_table_api.cpp) adds.
use duckdb_aws_glue.Base.{
  ◌≡◌, inl, inr, refl, Bool, ◌||◌, [], Text, text, text_eq, is_empty, Bool-cases, map,
}
use duckdb_aws_glue.DuckDb.{DuckDb, lower_byte}
use duckdb_aws_glue.Table.Info.{Parameters}
use duckdb_aws_glue.Table.TableFormat.{is_parameter}
use duckdb_aws_glue.Creation.Tables.{table_parameters}
use duckdb_aws_glue.Creation.Objects.{emplace, to_aws_map}
use duckdb_aws_glue.Creation.Names.{lower_lem}
use duckdb_aws_glue.Creation.Keys.{Excludes, emplace-Excludes, emplace_all-Excludes}

module _ ⦃db : DuckDb⦄ where
  abbrev pub is_parameter_bytes : Text → Bool
  is_parameter_bytes key =
      text_eq key (text "table_type")
      || text_eq key (text "spark.sql.sources.provider")
      || text_eq key (text "metadata_location")

  pub is_parameter_lem : (key : Text) → is_parameter key ≡ is_parameter_bytes (map lower_byte key)
  unfolding is_parameter lower_byte
  is_parameter_lem key =
      rw
        (
          db.ci_equals_lem key (text "table_type"),
          db.ci_equals_lem key (text "spark.sql.sources.provider"),
          db.ci_equals_lem key (text "metadata_location"),
          lower_lem key,
          lower_lem (text "table_type"),
          lower_lem (text "spark.sql.sources.provider"),
          lower_lem (text "metadata_location"),
        )
        refl

  -- the keys that the code adds do not decide the format
  pub table_parameters-Excludes :
      (description : Text) (ps : Parameters)
      → Excludes is_parameter ps
      → Excludes is_parameter (table_parameters description ps)
  unfolding lower_byte text_eq
  table_parameters-Excludes description ps h =
      let external =
        emplace-Excludes is_parameter (text "EXTERNAL") (text "TRUE") ps
          (is_parameter_lem (text "EXTERNAL")) h in
      elim (Bool-cases (is_empty description)) [
        | inl empty ↦ rw empty external
        | inr given ↦ rw given (
            emplace-Excludes is_parameter (text "comment") description _
              (is_parameter_lem (text "comment")) external)
      ]

  pub with_classification-Excludes :
      (name : Text) (ps : Parameters)
      → Excludes is_parameter ps
      → Excludes is_parameter (emplace (text "classification") name (to_aws_map ps))
  unfolding lower_byte text_eq
  with_classification-Excludes name ps h =
      emplace-Excludes is_parameter (text "classification") name _
        (is_parameter_lem (text "classification")) (emplace_all-Excludes is_parameter ps [] h tt)
