-- ===== src/Tests/Equality.antt =====
-- Equality of types, decided, as an instance at which the theorems are applied.
use native.Mathlib.Decide.{ℕ_discrete}
use mathlib.Core.Bool.{decide, decide_iff}
use duckdb_aws_glue.Base.{◌≡◌, refl, sym, ◌∙◌, ap, Bool, true, inl, inr, Bool-cases}
use duckdb_aws_glue.Types.Logical.{LogicalType}
use duckdb_aws_glue.Types.TypeId.{id, TypeEquality}

pub LogicalType-discrete : Discrete LogicalType
LogicalType-discrete = hlevel ℕ_discrete

pub exactly : LogicalType → LogicalType → Bool
exactly a b = decide (LogicalType-discrete a b)

pub exactly_sound : (a b : LogicalType) → exactly a b ≡ true → a ≡ b
unfolding exactly
exactly_sound a b = (decide_iff (LogicalType-discrete a b)).0

pub exactly_complete : (a b : LogicalType) → a ≡ b → exactly a b ≡ true
unfolding exactly
exactly_complete a b = (decide_iff (LogicalType-discrete a b)).1

pub exactly_comm : (a b : LogicalType) → exactly a b ≡ exactly b a
exactly_comm a b = elim (Bool-cases (exactly a b)) [
  | inl same ↦ rw (same, exactly_complete b a (sym (exactly_sound a b same)))
  | inr differ ↦ elim (Bool-cases (exactly b a)) [
    | inl same ↦ absurd (cc (exactly_complete a b (sym (exactly_sound b a same))))
    | inr differ' ↦ rw (differ, differ')
  ]
]

instance unfoldable pub exact : TypeEquality
unfolding exactly LogicalType-discrete decide
exact = record {
  same_type = exactly;
  same_type_refl = λ a. exactly_complete a a refl;
  same_type_comm = exactly_comm;
  same_type_trans = λ a b c h k. exactly_complete a c (exactly_sound a b h ∙ exactly_sound b c k);
  same_type-id = λ a b h. ap id (exactly_sound a b h);
}
