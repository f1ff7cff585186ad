-- ===== src/Types/Values.antt =====
-- How partition values are read and column types compared.
use duckdb_aws_glue.Base.{
  ◌≡◌, true, Text, text_eq, text_eq_refl, text_eq_comm, Option, Outcome, ok, err, arith,
  if◌then◌else◌,
}
use duckdb_aws_glue.DuckDb.{DuckDb, default_partition_name}
use duckdb_aws_glue.Types.Logical.{LogicalType}
use duckdb_aws_glue.Types.Parser.{to_logical_type}
use duckdb_aws_glue.Types.TypeId.{id, is_varchar, TypeEquality}
use duckdb_aws_glue.Types.Columns.{
  null, verbatim, partition_value_is_null, partition_value, compare_types, same_column_type,
}

module _ ⦃db : DuckDb⦄ where
  -- A string column keeps every text that Glue holds as it is, the empty text and 'NULL' too, but for
  -- Hive's default partition name, which is NULL.
  pub partition_value-varchar :
      {V : Type 0} (cast : LogicalType → Text → Option V) (value : Text) (type : LogicalType)
      → is_varchar (id type) ≡ true
      → partition_value cast value type
        ≡ (if text_eq value default_partition_name then ok null else ok (verbatim value))
  unfolding partition_value partition_value_is_null
  partition_value-varchar cast value type h = ground arith

  module _ ⦃eq : TypeEquality⦄ where
    compare_types_comm :
        (a b : Text) (s t : Outcome LogicalType) → compare_types a b s t ≡ compare_types b a t s
    compare_types_comm a b (ok s) (ok t) = eq.same_type_comm s t
    compare_types_comm a b (ok s) (err x) = text_eq_comm _ _
    compare_types_comm a b (err x) (ok t) = text_eq_comm _ _
    compare_types_comm a b (err x) (err y) = text_eq_comm _ _

    -- The comparison of column types does not depend on the order of the two.
    pub same_column_type_comm : (a b : Text) → same_column_type a b ≡ same_column_type b a
    unfolding same_column_type
    same_column_type_comm a b = compare_types_comm a b (to_logical_type a) (to_logical_type b)

    compare_types_refl : (a : Text) (s : Outcome LogicalType) → compare_types a a s s ≡ true
    compare_types_refl a (ok s) = eq.same_type_refl s
    compare_types_refl a (err x) = text_eq_refl _
