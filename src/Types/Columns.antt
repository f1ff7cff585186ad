-- ===== src/Types/Columns.antt =====
-- The rest of src/core/glue_types.cpp: partition values and the comparison of column types, and
-- IsAllowedHiveTypeChange of src/catalog/glue_schema_entry.cpp.
use duckdb_aws_glue.Base.{
  ℕ, Bool, true, false, not, ◌&&◌, ◌||◌, [], ◌∷◌, Text, text, text_eq, ltb, if◌then◌else◌, is_empty,
  Option, none, some, Outcome, ok, err, invalid_input,
}
use duckdb_aws_glue.DuckDb.{DuckDb, is_space, lower, ci_equals, default_partition_name}
use duckdb_aws_glue.Types.Logical.{LogicalType}
use duckdb_aws_glue.Types.Parser.{to_logical_type}
use duckdb_aws_glue.Types.TypeId.{
  TypeId, tinyint, smallint, integer, bigint, float, double, decimal, id, is_varchar, TypeEquality,
  same_type,
}

-- A partition value: NULL, the text that Glue holds, or a value of the column's type.
pub data PartitionValue (V : Type 0) : Type 0 where
  null : PartitionValue V
  verbatim : Text → PartitionValue V
  typed : V → PartitionValue V

-- The integer types by width; 0 is no integer type.
unfoldable pub rank : TypeId → ℕ
rank tinyint = 1
rank smallint = 2
rank integer = 3
rank bigint = 4
rank _ = 0

unfoldable pub float_to_double : TypeId → TypeId → Bool
float_to_double float double = true
float_to_double _ _ = false

abbrev pub both_decimal : TypeId → TypeId → Bool
both_decimal decimal decimal = true
both_decimal _ _ = false

-- IsAllowedHiveTypeChange, past the test that the types are equal.
unfoldable pub allowed_ids : TypeId → TypeId → Bool
allowed_ids from to =
    if ltb 0 (rank from) && ltb 0 (rank to)
    then ltb (rank from) (rank to)
    else float_to_double from to || is_varchar to

unfoldable pub is_allowed_hive_type_change : ⦃eq : TypeEquality⦄ → LogicalType → LogicalType → Bool
is_allowed_hive_type_change from to = same_type from to || allowed_ids (id from) (id to)

module _ ⦃db : DuckDb⦄ where
  unfoldable pub partition_value_is_null : Text → LogicalType → Bool
  partition_value_is_null value type =
      if text_eq value default_partition_name
      then true
      else not (is_varchar (id type)) && (ci_equals value (text "NULL") || is_empty value)

  -- `try_cast_as` is DuckDB's cast of a text to the type.
  unfoldable pub partition_value :
      {V : Type 0}
      → (LogicalType → Text → Option V)
      → Text
      → LogicalType
      → Outcome (PartitionValue V)
  unfolding partition_value_is_null
  partition_value try_cast_as value type =
      if partition_value_is_null value type
      then ok null
      else if is_varchar (id type)
      then ok (verbatim value)
      else elim (try_cast_as type value) [ none ↦ err invalid_input | some v ↦ ok (typed v) ]

  unfoldable pub remove_space : Text → Text
  remove_space [] = []
  remove_space (c ∷ s) = if is_space c then remove_space s else c ∷ remove_space s

  unfoldable pub normalized_hive_type : Text → Text
  unfolding remove_space
  normalized_hive_type s = remove_space (lower s)

  -- The comparison of the parsed types, or of the texts where either parse throws.
  abbrev pub compare_types :
      ⦃eq : TypeEquality⦄ → Text → Text → Outcome LogicalType → Outcome LogicalType → Bool
  compare_types a b (ok s) (ok t) = same_type s t
  compare_types a b _ _ = text_eq (normalized_hive_type a) (normalized_hive_type b)

  unfoldable pub same_column_type : ⦃eq : TypeEquality⦄ → Text → Text → Bool
  same_column_type a b = compare_types a b (to_logical_type a) (to_logical_type b)

  -- `is_nested` and `implicitly_casts` (ImplicitCastCost is not negative) are DuckDB's.
  unfoldable pub can_read_partition_type_as :
      ⦃eq : TypeEquality⦄
      → (LogicalType → Bool)
      → (LogicalType → LogicalType → Bool)
      → LogicalType
      → LogicalType
      → Bool
  unfolding is_allowed_hive_type_change
  can_read_partition_type_as is_nested implicitly_casts from to =
      if is_nested from || is_nested to || is_allowed_hive_type_change from to
      then true
      else if both_decimal (id from) (id to)
      then true
      else implicitly_casts from to
