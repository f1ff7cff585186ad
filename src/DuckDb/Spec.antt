-- ===== src/DuckDb/Spec.antt =====
-- ASCII classes, case and search, in terms of which the behaviour of DuckDB's helpers is stated.
use duckdb_aws_glue.Base.{
  ℕ, ◌+◌, ◌-◌, ◌*◌, Bool, true, false, ◌&&◌, ◌||◌, [], ◌∷◌, Text, ◌==◌, leb, if◌then◌else◌,
}

-- space, tab, line feed, vertical tab, form feed, carriage return
abbrev pub blank : ℕ → Bool
blank c = c == b' ' || leb 9 c && leb c 13

abbrev pub digit : ℕ → Bool
digit c = leb b'0' c && leb c b'9'

abbrev pub upper_case : ℕ → Bool
upper_case c = leb b'A' c && leb c b'Z'

unfoldable pub lower_byte : ℕ → ℕ
lower_byte c = if upper_case c then c + 32 else c

abbrev pub is_prefix : Text → Text → Bool
is_prefix [] s = true
is_prefix (a ∷ p) [] = false
is_prefix (a ∷ p) (b ∷ s) = a == b && is_prefix p s

abbrev pub is_infix : Text → Text → Bool
is_infix p [] = is_prefix p []
is_infix p (c ∷ s) = is_prefix p (c ∷ s) || is_infix p s

-- The number that decimal digits stand for, after the digits that gave `acc`.
unfoldable pub digits_value : ℕ → Text → ℕ
digits_value acc [] = acc
digits_value acc (c ∷ s) = digits_value (acc * 10 + (c - b'0')) s

-- Whether the byte is one of these.
abbrev pub one_of : Text → ℕ → Bool
one_of [] c = false
one_of (d ∷ s) c = c == d || one_of s c
