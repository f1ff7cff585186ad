-- ===== src/DuckDb.antt =====
-- What the extension calls of DuckDB's core, which is not in this repository: the helpers of
-- StringUtil, the decimal limit and number formatting, with the documented behaviour relied on.
mod Spec
pub mod Ascii
unfoldable pub use Spec.*
use duckdb_aws_glue.Base.{
  ℤ, Option, some, ℕ, ◌+◌, ◌≤◌, ◌<◌, ◌≡◌, Bool, true, List, [], ◌∷◌, ◌++◌, ◌≢◌, Text, text_eq,
  trim_end, AllPass,
}

-- The operations, with what is documented of them.
pub record DuckDb : Type 0 where
  -- StringUtil::CharacterIsSpace, CharacterIsDigit
  pub is_space : ℕ → Bool
  pub is_digit : ℕ → Bool
  -- StringUtil::Lower and RTrim
  pub lower : Text → Text
  pub r_trim : Text → Text
  -- StringUtil::RTrim with the characters to trim
  pub r_trim_of : Text → Text → Text
  -- StringUtil::Upper and Trim
  pub upper : Text → Text
  pub trim : Text → Text
  -- StringUtil::CIEquals, StartsWith, Contains
  pub ci_equals : Text → Text → Bool
  pub starts_with : Text → Text → Bool
  pub contains : Text → Text → Bool
  -- StringUtil::Join
  pub join : List Text → Text → Text
  -- `%d` of StringUtil::Format, for a number that is not negative
  pub print_number : ℕ → Text
  -- Decimal::MAX_WIDTH_DECIMAL
  pub max_width_decimal : ℕ
  -- HivePartitioning::DEFAULT_PARTITION_NAME
  pub default_partition_name : Text
  -- the cast of a text to BIGINT, where it is one
  pub cast_bigint : Text → Option ℤ
  -- the bytes of the first code point, where the text is valid UTF-8 and not empty
  pub first_code_point : Text → Option Text
  pub is_space_lem : (c : ℕ) → is_space c ≡ blank c
  pub is_digit_lem : (c : ℕ) → is_digit c ≡ digit c
  pub lower-nil : lower [] ≡ []
  pub lower-cons : (c : ℕ) (s : Text) → lower (c ∷ s) ≡ lower_byte c ∷ lower s
  pub upper-nil : upper [] ≡ []
  pub r_trim_lem : (s : Text) → r_trim s ≡ trim_end blank s
  pub r_trim_of_lem : (s chars : Text) → r_trim_of s chars ≡ trim_end (one_of chars) s
  pub ci_equals_lem : (s t : Text) → ci_equals s t ≡ text_eq (lower s) (lower t)
  pub starts_with_lem : (s p : Text) → starts_with s p ≡ is_prefix p s
  pub contains_lem : (s p : Text) → contains s p ≡ is_infix p s
  pub join-one : (x sep : Text) → join (x ∷ []) sep ≡ x
  pub join-cons :
      (x y : Text) (l : List Text) (sep : Text)
      → join (x ∷ y ∷ l) sep ≡ x ++ (sep ++ join (y ∷ l) sep)
  pub print_number-digits : (n : ℕ) → AllPass digit (print_number n)
  pub print_number-ne-nil : (n : ℕ) → print_number n ≢ []
  pub digits_value-print_number : (n : ℕ) → digits_value 0 (print_number n) ≡ n
  pub first_code_point-prefix :
      (s c : Text) → first_code_point s ≡ some c → (is_prefix c s ≡ true) × (c ≢ [])
  pub first_code_point-ascii : (c : ℕ) → c < 128 → first_code_point (c ∷ []) ≡ some (c ∷ [])
  pub max_width_decimal_ge : 10 ≤ max_width_decimal
  pub max_width_decimal_le : max_width_decimal ≤ 255

module _ ⦃db : DuckDb⦄ where
  abbrev pub is_space : ℕ → Bool
  is_space = db.is_space

  abbrev pub is_digit : ℕ → Bool
  is_digit = db.is_digit

  abbrev pub lower : Text → Text
  lower = db.lower

  abbrev pub r_trim : Text → Text
  r_trim = db.r_trim

  abbrev pub ci_equals : Text → Text → Bool
  ci_equals = db.ci_equals

  abbrev pub starts_with : Text → Text → Bool
  starts_with = db.starts_with

  abbrev pub contains : Text → Text → Bool
  contains = db.contains

  abbrev pub join : List Text → Text → Text
  join = db.join

  abbrev pub print_number : ℕ → Text
  print_number = db.print_number

  abbrev pub max_width_decimal : ℕ
  max_width_decimal = db.max_width_decimal

  abbrev pub default_partition_name : Text
  default_partition_name = db.default_partition_name

  abbrev pub upper : Text → Text
  upper = db.upper

  abbrev pub trim : Text → Text
  trim = db.trim

  abbrev pub cast_bigint : Text → Option ℤ
  cast_bigint = db.cast_bigint

  abbrev pub first_code_point : Text → Option Text
  first_code_point = db.first_code_point

  abbrev pub r_trim_of : Text → Text → Text
  r_trim_of = db.r_trim_of
