-- ===== src/Tests/ColumnTests.antt =====
-- Instances of the theorems about partition values and column types.
use duckdb_aws_glue.Base.{◌≡◌, refl, true}
use duckdb_aws_glue.DuckDb.Ascii.{ascii}
use duckdb_aws_glue.Types.Logical.{tinyint, smallint, bigint}
use duckdb_aws_glue.Types.TypeId.{id}
use duckdb_aws_glue.Types.Columns.{is_allowed_hive_type_change, allowed_ids, rank}
use duckdb_aws_glue.Types.Widening.{
  is_allowed_hive_type_change_trans, is_allowed_hive_type_change_antisymm,
}
use duckdb_aws_glue.Tests.Equality.{exact}

is_allowed_hive_type_change_trans_example : is_allowed_hive_type_change tinyint bigint ≡ true
is_allowed_hive_type_change_trans_example =
    is_allowed_hive_type_change_trans tinyint smallint bigint
      (unfold is_allowed_hive_type_change allowed_ids exact id rank in refl)
      (unfold is_allowed_hive_type_change allowed_ids exact id rank in refl)

is_allowed_hive_type_change_antisymm_example : id bigint ≡ id bigint
is_allowed_hive_type_change_antisymm_example =
    is_allowed_hive_type_change_antisymm bigint bigint
      (unfold is_allowed_hive_type_change exact in refl)
      (unfold is_allowed_hive_type_change exact in refl)
