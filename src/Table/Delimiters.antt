-- ===== src/Table/Delimiters.antt =====
-- The characters that the SerDe of a text table splits and quotes with (src/core/glue_info.cpp), and
-- TryParseInteger of src/core/helpers.cpp.
use Prim.Native.Nat.{◌^◌}
use duckdb_aws_glue.Base.{
  ℕ, ◌-◌, ℤ, pos, negsuc, leb_ℤ, low_byte, Bool, true, false, ◌&&◌, ◌||◌, [], ◌∷◌, Text, text, ◌==◌,
  leb, if◌then◌else◌, is_empty, Option, none, some, Outcome, ok, err, ◌>>=◌, invalid_input,
  not_implemented,
}
use duckdb_aws_glue.DuckDb.{DuckDb, cast_bigint, first_code_point}
use duckdb_aws_glue.Table.Formats.{HiveSerDe, open_csv}
use duckdb_aws_glue.Table.Info.{GlueTableInfo, try_get_property, or_else, value_or, get_serde}

abbrev pub is_open_csv : HiveSerDe → Bool
is_open_csv open_csv = true
is_open_csv _ = false

-- NumericLimits<int32_t>::Maximum()
abbrev pub max_int32 : ℕ
max_int32 = 2 ^ 31 - 1

abbrev pub int_in : ℤ → ℤ → Option ℤ → Option ℤ
int_in min max none = none
int_in min max (some n) = if leb_ℤ min n && leb_ℤ n max then some n else none

abbrev pub first_byte : Text → ℕ
first_byte [] = 0
first_byte (c ∷ _) = c

module _ ⦃db : DuckDb⦄ where
  -- TryParseInteger
  unfoldable pub try_parse_integer : Text → ℤ → ℤ → Option ℤ
  try_parse_integer value min max =
      if is_empty value then none else int_in min max (cast_bigint value)

  -- a byte that DuckDB can not split fields on
  abbrev pub bad_separator : ℕ → Bool
  bad_separator c = c == 0 || c == b'\n' || c == b'\r' || leb 0x80 c

  -- The byte that a separator property stands for: a byte code, else the first byte.
  unfoldable pub separator_byte : Text → ℕ
  separator_byte value = elim (try_parse_integer value (negsuc 127) (pos 127)) [
    | some number ↦ low_byte number
    | none ↦ first_byte value
  ]

  unfoldable pub lazy_simple_separator : Text → Outcome Text
  lazy_simple_separator value =
      if is_empty value
      then ok (1 ∷ [])
      else let separator = separator_byte value in
        if bad_separator separator then err not_implemented else ok (separator ∷ [])

  -- the first character of a property that is set and not empty
  abbrev first_character : Text → Outcome Text
  first_character value = elim (first_code_point value) [ some c ↦ ok c | none ↦ err invalid_input ]

  unfoldable pub get_open_csv_character : GlueTableInfo → Text → Text → Outcome Text
  get_open_csv_character table key fallback =
      let value = value_or (try_get_property table key) [] in
      if is_empty value then ok fallback else first_character value

  unfoldable pub get_field_delimiter : GlueTableInfo → Outcome Text
  get_field_delimiter table = do
    serde ← get_serde table
    if is_open_csv serde
        then get_open_csv_character table (text "separatorChar") (text ",")
        else lazy_simple_separator (
            value_or
              (or_else (try_get_property table (text "field.delim"))
                (try_get_property table (text "serialization.format")))
              [])

  unfoldable pub get_null_format : GlueTableInfo → Outcome Text
  get_null_format table = do
    serde ← get_serde table
    if is_open_csv serde
        then ok []
        else ok (value_or (try_get_property table (text "serialization.null.format")) (text "\\N"))

  abbrev count_of : Option ℤ → Outcome ℕ
  count_of (some (pos n)) = ok n
  count_of _ = err invalid_input

  -- GetCountProperty: 0 without the property
  unfoldable pub get_count_property : GlueTableInfo → Text → Outcome ℕ
  get_count_property table key =
      let value = value_or (try_get_property table key) [] in
      if is_empty value then ok 0 else count_of (try_parse_integer value (pos 0) (pos max_int32))

  unfoldable pub get_header_line_count : GlueTableInfo → Outcome ℕ
  unfolding get_count_property
  get_header_line_count table = get_count_property table (text "skip.header.line.count")

  unfoldable pub get_quote_character : GlueTableInfo → Outcome Text
  get_quote_character table = do
    serde ← get_serde table
    if is_open_csv serde then get_open_csv_character table (text "quoteChar") (text "\"") else ok []

  unfoldable pub get_escape_character : GlueTableInfo → Outcome Text
  get_escape_character table = do
    serde ← get_serde table
    if is_open_csv serde
        then (do
          quote ← get_quote_character table
          get_open_csv_character table (text "escapeChar") quote)
        else ok (value_or (try_get_property table (text "escape.delim")) [])
