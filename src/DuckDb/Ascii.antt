-- ===== src/DuckDb/Ascii.antt =====
-- A concrete instance of the operations taken from DuckDB, over ASCII, at which tests are run.
use native.Mathlib.Nat.{le_refl}
use duckdb_aws_glue.Base.{
  ℤ, pos, negsuc, Option, some, none, ◌==◌, ◌&&◌, not, is_empty, all, leb, ℕ, zero, suc, ◌+◌, ◌-◌,
  ◌*◌, ◌/◌, ◌%◌, ◌≤◌, ◌<◌, ◌≡◌, ◌≢◌, refl, true, inl, inr, List, [], ◌∷◌, ◌++◌, map, arith,
  Bool-cases, Text, text, text_eq, trim_end, drop_while, AllPass, ltb, if◌then◌else◌,
}
use duckdb_aws_glue.DuckDb.Spec.{
  blank, digit, lower_byte, is_prefix, is_infix, digits_value, one_of,
}
use duckdb_aws_glue.DuckDb.{DuckDb}

pub print_digits : ℕ → ℕ → Text
print_digits zero n = []
print_digits (suc fuel) n =
    let front = print_digits fuel (n / 10) in
    if ltb n 10 then (n + b'0') ∷ [] else front ++ (n % 10 + b'0') ∷ []

pub print_ascii : ℕ → Text
unfolding print_digits
print_ascii n = print_digits (suc n) n

AllPass-concat : (s : Text) (c : ℕ) → AllPass digit s → digit c ≡ true → AllPass digit (s ++ c ∷ [])
AllPass-concat [] c h d = (d, tt)
AllPass-concat (x ∷ s) c h d = (h.0, AllPass-concat s c h.1 d)

pub print_digits-digits : (fuel n : ℕ) → AllPass digit (print_digits fuel n)
unfolding print_digits
print_digits-digits zero n = tt
print_digits-digits (suc fuel) n = elim (Bool-cases (ltb n 10)) [
  | inl small ↦ rw small (ground arith, tt)
  | inr large ↦ rw large (AllPass-concat _ _ (print_digits-digits fuel (n / 10)) (ground arith))
]

digits_value-concat :
    (acc : ℕ) (s : Text) (c : ℕ)
    → digits_value acc (s ++ c ∷ []) ≡ digits_value acc s * 10 + (c - b'0')
unfolding digits_value
digits_value-concat acc [] c = refl
digits_value-concat acc (x ∷ s) c = digits_value-concat (acc * 10 + (x - b'0')) s c

pub digits_value-print_digits : (fuel n : ℕ) → n < fuel → digits_value 0 (print_digits fuel n) ≡ n
unfolding print_digits
digits_value-print_digits zero n h = elim h [ ]
digits_value-print_digits (suc fuel) n h = elim (Bool-cases (ltb n 10)) [
  | inl small ↦ rw small (unfold digits_value in omega arith)
  | inr large ↦
      rw (large, digits_value-concat)
        (ground (arith, digits_value-print_digits fuel (n / 10) (ground arith)))
]

concat-ne-nil : (s : Text) (c : ℕ) → s ++ c ∷ [] ≢ []
concat-ne-nil [] c = cc
concat-ne-nil (x ∷ s) c = cc

pub print_ascii-ne-nil : (n : ℕ) → print_ascii n ≢ []
unfolding print_ascii
print_ascii-ne-nil n = ground (arith, concat-ne-nil (print_digits n (n / 10)) (n % 10 + b'0'))

join_ascii : List Text → Text → Text
join_ascii [] sep = []
join_ascii (x ∷ []) sep = x
join_ascii (x ∷ y ∷ l) sep = x ++ (sep ++ join_ascii (y ∷ l) sep)

pub le_of_digits : 10 ≤ 38
le_of_digits = omega arith

pub le_of_byte : 38 ≤ 255
le_of_byte = omega arith

abbrev pub upper_byte : ℕ → ℕ
upper_byte c = if leb b'a' c && leb c b'z' then c - 32 else c

abbrev pub minus : ℕ → ℤ
minus zero = pos zero
minus (suc n) = negsuc n

-- a decimal number with an optional sign
pub cast_digits : Text → Option ℤ
cast_digits [] = none
cast_digits (c ∷ s) =
    if c == b'-' && not (is_empty s) && all digit s
    then some (minus (digits_value 0 s))
    else if all digit (c ∷ s)
    then some (pos (digits_value 0 (c ∷ s)))
    else none

pub first_byte : Text → Option Text
first_byte [] = none
first_byte (c ∷ s) = if ltb c 128 then some (c ∷ []) else none

pub first_byte-prefix : (s c : Text) → first_byte s ≡ some c → (is_prefix c s ≡ true) × (c ≢ [])
unfolding first_byte
first_byte-prefix [] c h = cc
first_byte-prefix (x ∷ s) c h = elim (Bool-cases (ltb x 128)) [
  | inl ascii_byte ↦
      let found : x ∷ [] ≡ c = cc (rw ascii_byte at h) in rw (← found) (ground arith, (cc))
  | inr other ↦ absurd (cc (rw other at h))
]

pub first_byte-ascii : (c : ℕ) → c < 128 → first_byte (c ∷ []) ≡ some (c ∷ [])
unfolding first_byte
first_byte-ascii c h = ground arith

instance unfoldable pub ascii : DuckDb
unfolding trim_end text_eq drop_while print_ascii cast_digits digits_value first_byte join_ascii
    lower_byte
ascii = record {
  is_space = blank;
  is_digit = digit;
  lower = map lower_byte;
  r_trim = trim_end blank;
  ci_equals = λ s t. text_eq (map lower_byte s) (map lower_byte t);
  starts_with = λ s p. is_prefix p s;
  contains = λ s p. is_infix p s;
  join = join_ascii;
  print_number = print_ascii;
  max_width_decimal = 38;
  r_trim_of = λ s chars. trim_end (one_of chars) s;
  r_trim_of_lem = λ s chars. refl;
  upper = map upper_byte;
  trim = λ s. drop_while blank (trim_end blank s);
  cast_bigint = cast_digits;
  first_code_point = first_byte;
  first_code_point-prefix = first_byte-prefix;
  first_code_point-ascii = first_byte-ascii;
  upper-nil = refl;
  default_partition_name = text "__HIVE_DEFAULT_PARTITION__";
  is_space_lem = λ c. refl;
  is_digit_lem = λ c. refl;
  lower-nil = refl;
  lower-cons = λ c s. refl;
  r_trim_lem = λ s. refl;
  ci_equals_lem = λ s t. refl;
  starts_with_lem = λ s p. refl;
  contains_lem = λ s p. refl;
  join-one = λ x sep. refl;
  join-cons = λ x y l sep. refl;
  print_number-digits = λ n. print_digits-digits (suc n) n;
  print_number-ne-nil = print_ascii-ne-nil;
  digits_value-print_number = λ n. digits_value-print_digits (suc n) n (le_refl (suc n));
  max_width_decimal_ge = le_of_digits;
  max_width_decimal_le = le_of_byte;
}
