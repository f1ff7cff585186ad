-- ===== src/Table/Alter.antt =====
-- ALTER TABLE ... SET and RESET of table properties: CheckTablePropertyChangeable and
-- AlterTableProperties of src/catalog/glue_schema_entry.cpp, and the change that
-- UpdateTableParameters (src/api/glue_table_api.cpp) makes to the table's parameters. The values are
-- texts already: the cast to VARCHAR is DuckDB's. The parameters are in the order of Glue's map, by key; the
-- hash map that GlueTableInfo copies them to may iterate in another order, which is not modelled and matters
-- only to keys that are equal but for case.
use duckdb_aws_glue.Base.{
  List, [], ◌∷◌, Text, text_eq, text_lt, is_empty, if◌then◌else◌, Outcome, ok, err, ◌>>◌,
  invalid_input,
}
use duckdb_aws_glue.DuckDb.{DuckDb}
use duckdb_aws_glue.Table.Info.{Parameters, GlueTableInfo}
use duckdb_aws_glue.Table.TableFormat.{is_parameter}

-- map::erase
unfoldable pub erase : Text → Parameters → Parameters
erase key [] = []
erase key ((k, v) ∷ rest) = if text_eq k key then erase key rest else (k, v) ∷ erase key rest

-- map::operator[] and an assignment: the entries stay sorted by key
unfoldable pub assign : Text → Text → Parameters → Parameters
assign key value [] = (key, value) ∷ []
assign key value ((k, v) ∷ rest) =
    if text_eq k key
    then (key, value) ∷ rest
    else if text_lt key k
    then (key, value) ∷ (k, v) ∷ rest
    else (k, v) ∷ assign key value rest

unfoldable pub erase_all : List Text → Parameters → Parameters
erase_all [] parameters = parameters
erase_all (key ∷ keys) parameters = erase_all keys (erase key parameters)

unfoldable pub assign_all : Parameters → Parameters → Parameters
assign_all [] parameters = parameters
assign_all ((key, value) ∷ entries) parameters = assign_all entries (assign key value parameters)

abbrev pub with_parameters : GlueTableInfo → Parameters → GlueTableInfo
with_parameters table changed = record table { parameters = changed }

-- UpdateTableParameters
unfoldable pub update_table_parameters : Parameters → List Text → GlueTableInfo → GlueTableInfo
unfolding erase_all assign_all
update_table_parameters set unset table =
    with_parameters table (assign_all set (erase_all unset table.parameters))

module _ ⦃db : DuckDb⦄ where
  -- CheckTablePropertyChangeable
  unfoldable pub check_table_property_changeable : Text → Outcome (Unit {0})
  unfolding is_parameter
  check_table_property_changeable key =
      if is_empty key
      then err invalid_input
      else if is_parameter key
      then err invalid_input
      else ok tt

  unfoldable pub check_set : Parameters → Outcome (Unit {0})
  unfolding check_table_property_changeable
  check_set [] = ok tt
  check_set ((key, value) ∷ entries) = check_table_property_changeable key >> check_set entries

  unfoldable pub check_unset : List Text → Outcome (Unit {0})
  unfolding check_table_property_changeable
  check_unset [] = ok tt
  check_unset (key ∷ keys) = check_table_property_changeable key >> check_unset keys

  -- ALTER TABLE t SET (...)
  unfoldable pub set_table_options : Parameters → GlueTableInfo → Outcome GlueTableInfo
  unfolding check_set update_table_parameters
  set_table_options set table = check_set set >> ok (update_table_parameters set [] table)

  -- ALTER TABLE t RESET (...)
  unfoldable pub reset_table_options : List Text → GlueTableInfo → Outcome GlueTableInfo
  unfolding check_unset update_table_parameters
  reset_table_options unset table = check_unset unset >> ok (update_table_parameters [] unset table)
