-- ===== src/Types/TypeId.antt =====
-- LogicalTypeId, and DuckDB's equality of types, which is not in this repository.
use duckdb_aws_glue.Base.{ℕ, Bool, true, false, ◌≡◌}
use duckdb_aws_glue.Types.Logical.{LogicalType}

pub data TypeId : Type 0 where
  boolean tinyint smallint integer bigint utinyint usmallint uinteger : TypeId
  float double varchar blob date time timestamp timestamp_tz uuid variant : TypeId
  decimal list map_of struct : TypeId
  other : ℕ → TypeId

-- LogicalType::id
unfoldable pub id : LogicalType → TypeId
id LogicalType.boolean = boolean
id LogicalType.tinyint = tinyint
id LogicalType.smallint = smallint
id LogicalType.integer = integer
id LogicalType.bigint = bigint
id LogicalType.utinyint = utinyint
id LogicalType.usmallint = usmallint
id LogicalType.uinteger = uinteger
id LogicalType.float = float
id LogicalType.double = double
id LogicalType.varchar = varchar
id LogicalType.blob = blob
id LogicalType.date = date
id LogicalType.time = time
id LogicalType.timestamp = timestamp
id LogicalType.timestamp_tz = timestamp_tz
id LogicalType.uuid = uuid
id LogicalType.variant = variant
id (LogicalType.decimal _ _) = decimal
id (LogicalType.list _) = list
id (LogicalType.map_of _ _) = map_of
id (LogicalType.struct _) = struct
id (LogicalType.aliased _ type) = id type
id (LogicalType.other n) = other n

unfoldable pub is_varchar : TypeId → Bool
is_varchar varchar = true
is_varchar _ = false

-- LogicalType::operator==: an equivalence, and equal types have equal ids.
pub record TypeEquality : Type 0 where
  pub same_type : LogicalType → LogicalType → Bool
  pub same_type_refl : (a : LogicalType) → same_type a a ≡ true
  pub same_type_comm : (a b : LogicalType) → same_type a b ≡ same_type b a
  pub same_type_trans :
      (a b c : LogicalType) → same_type a b ≡ true → same_type b c ≡ true → same_type a c ≡ true
  pub same_type-id : (a b : LogicalType) → same_type a b ≡ true → id a ≡ id b

abbrev pub same_type : ⦃eq : TypeEquality⦄ → LogicalType → LogicalType → Bool
same_type ⦃eq⦄ = eq.same_type
