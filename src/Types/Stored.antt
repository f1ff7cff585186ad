-- ===== src/Types/Stored.antt =====
-- The type that a Glue column has once a DuckDB type is stored in it, and the types that DuckDB has.
use duckdb_aws_glue.Base.{◌≤◌}
use duckdb_aws_glue.DuckDb.{DuckDb, max_width_decimal}
use duckdb_aws_glue.Types.Logical.{
  LogicalType, Fields, smallint, integer, bigint, utinyint, usmallint, uinteger, decimal, list,
  map_of, struct, aliased, no_fields, field,
}

-- The type that a column has once it is stored in Glue: Hive has no unsigned types and no names for
-- types.
unfoldable mutual
  pub stored : LogicalType → LogicalType
  stored utinyint = smallint
  stored usmallint = integer
  stored uinteger = bigint
  stored (list child) = list (stored child)
  stored (map_of key value) = map_of (stored key) (stored value)
  stored (struct children) = struct (stored_fields children)
  stored (aliased name type) = stored type
  stored type = type

  pub stored_fields : Fields → Fields
  stored_fields no_fields = no_fields
  stored_fields (field name type rest) = field name (stored type) (stored_fields rest)

module _ ⦃db : DuckDb⦄ where
  -- The decimals inside have a width and a scale that DuckDB has.
  unfoldable mutual
    pub IsValid : LogicalType → Type 0
    IsValid (decimal width scale) = (1 ≤ width) × (width ≤ max_width_decimal) × (scale ≤ width)
    IsValid (list child) = IsValid child
    IsValid (map_of key value) = IsValid key × IsValid value
    IsValid (struct children) = IsValidFields children
    IsValid (aliased name type) = IsValid type
    IsValid type = Unit

    pub IsValidFields : Fields → Type 0
    IsValidFields no_fields = Unit
    IsValidFields (field name type rest) = IsValid type × IsValidFields rest
