-- ===== src/Types/Widening.antt =====
-- The changes of a column's type that ALTER TABLE allows only widen it.
use duckdb_aws_glue.Base.{◌≡◌, true, false, arith, refl}
use duckdb_aws_glue.Types.Logical.{LogicalType}
use duckdb_aws_glue.Types.TypeId.{
  TypeId, varchar, float, double, boolean, id, is_varchar, TypeEquality,
}
use duckdb_aws_glue.Types.Columns.{rank, float_to_double, allowed_ids, is_allowed_hive_type_change}

rank-varchar : (a : TypeId) → is_varchar a ≡ true → rank a ≡ 0
unfolding rank is_varchar
rank-varchar varchar h = refl
rank-varchar boolean h = cc
rank-varchar _ h = cc

-- What FLOAT to DOUBLE tells of the two ids.
rank-float : (a b : TypeId) → float_to_double a b ≡ true → (rank a ≡ 0) × (rank b ≡ 0)
unfolding rank float_to_double
rank-float float double h = (refl, refl)
rank-float _ _ h = cc

float-varchar : (a b : TypeId) → float_to_double a b ≡ true → is_varchar a ≡ false
unfolding is_varchar float_to_double
float-varchar float double h = refl
float-varchar _ _ h = cc

double-varchar : (a b : TypeId) → float_to_double a b ≡ true → is_varchar b ≡ false
unfolding is_varchar float_to_double
double-varchar float double h = refl
double-varchar _ _ h = cc

double-float : (a b c : TypeId) → float_to_double a b ≡ true → float_to_double b c ≡ false
unfolding float_to_double
double-float float double c h = refl
double-float _ _ _ h = cc

allowed_ids_trans :
    (a b c : TypeId) → allowed_ids a b ≡ true → allowed_ids b c ≡ true → allowed_ids a c ≡ true
unfolding allowed_ids
allowed_ids_trans a b c h k = ground (
  arith,
  rank-varchar b,
  rank-varchar c,
  rank-float a b,
  rank-float b c,
  float-varchar b c,
  double-float a b c,
)

allowed_ids_asymm :
    (a b : TypeId)
    → allowed_ids a b ≡ true
    → allowed_ids b a ≡ true
    → (is_varchar a ≡ true) × (is_varchar b ≡ true)
unfolding allowed_ids
allowed_ids_asymm a b h k = ground (
  arith,
  rank-varchar a,
  rank-varchar b,
  rank-float a b,
  rank-float b a,
  float-varchar a b,
  float-varchar b a,
  double-varchar a b,
  double-varchar b a,
  double-float a b a,
)

varchar-id : (a : TypeId) → is_varchar a ≡ true → a ≡ varchar
unfolding is_varchar
varchar-id varchar h = refl
varchar-id _ h = cc

module _ ⦃eq : TypeEquality⦄ where
  -- Two allowed changes in a row are an allowed change.
  pub is_allowed_hive_type_change_trans :
      (a b c : LogicalType)
      → is_allowed_hive_type_change a b ≡ true
      → is_allowed_hive_type_change b c ≡ true
      → is_allowed_hive_type_change a c ≡ true
  unfolding is_allowed_hive_type_change
  is_allowed_hive_type_change_trans a b c h k = ground (
    arith,
    eq.same_type_trans a b c,
    eq.same_type-id a b,
    eq.same_type-id b c,
    allowed_ids_trans (id a) (id b) (id c),
  )

  -- Where a change and its reverse are both allowed, the two types have one type id.
  pub is_allowed_hive_type_change_antisymm :
      (a b : LogicalType)
      → is_allowed_hive_type_change a b ≡ true
      → is_allowed_hive_type_change b a ≡ true
      → id a ≡ id b
  unfolding is_allowed_hive_type_change
  is_allowed_hive_type_change_antisymm a b h k = ground (
    arith,
    eq.same_type-id a b,
    eq.same_type-id b a,
    allowed_ids_asymm (id a) (id b),
    varchar-id (id a),
    varchar-id (id b),
  )
