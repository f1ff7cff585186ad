-- ===== src/Types/Logical.antt =====
-- DuckDB's LogicalType as far as src/core/glue_types.cpp tells types apart.
use duckdb_aws_glue.Base.{ℕ, Text}

-- `other` is an id that no case of the code names; `aliased` a type with a name of its own, such as
-- JSON, whose id is that of the type below. `Fields` are the children of a STRUCT.
mutual
  pub data LogicalType : Type 0 where
    boolean tinyint smallint integer bigint utinyint usmallint uinteger : LogicalType
    float double varchar blob date time timestamp timestamp_tz uuid variant : LogicalType
    decimal : ℕ → ℕ → LogicalType
    list : LogicalType → LogicalType
    map_of : LogicalType → LogicalType → LogicalType
    struct : Fields → LogicalType
    aliased : Text → LogicalType → LogicalType
    other : ℕ → LogicalType

  pub data Fields : Type 0 where
    no_fields : Fields
    field : Text → LogicalType → Fields → Fields
