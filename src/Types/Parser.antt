-- ===== src/Types/Parser.antt =====
-- GlueTypeParser of src/core/glue_types.cpp. The text from `pos` on is the state of the parser.
use duckdb_aws_glue.Base.{
  ℕ, zero, suc, ◌^◌, ◌-◌, Bool, true, false, not, ◌||◌, List, [], ◌∷◌, Text, text, text_eq, ◌==◌,
  ltb, if◌then◌else◌, length, is_empty, take_while, drop_while, Outcome, ok, err, ◌>>=◌, ◌>>◌,
  throw_if, invalid_input, not_implemented, out_of_range, out_of_fuel,
}
use duckdb_aws_glue.DuckDb.{
  DuckDb, is_space, is_digit, lower, r_trim, max_width_decimal, digits_value,
}
use duckdb_aws_glue.Types.Logical.{
  LogicalType, Fields, boolean, tinyint, smallint, integer, bigint, float, double, varchar, blob,
  date, time, timestamp, timestamp_tz, uuid, variant, decimal, list, map_of, struct, no_fields,
  field,
}

abbrev pub Parser : Type 0 → Type 0
Parser A = Text → Outcome (A × Text)

-- What a type name selects in `ParseType`.
pub data Keyword : Type 0 where
  array map_kw struct_kw decimal_kw varchar_kw unsupported : Keyword
  simple : LogicalType → Keyword

abbrev is_one_of : Text → List Text → Bool
is_one_of name [] = false
is_one_of name (w ∷ ws) = text_eq name w || is_one_of name ws

-- The names of the types without parameters, in the order of `ParseType`.
simple_keyword : Text → Keyword
simple_keyword name =
    if is_one_of name (text "boolean" ∷ text "bool" ∷ [])
    then simple boolean
    else if text_eq name (text "tinyint")
    then simple tinyint
    else if text_eq name (text "smallint")
    then simple smallint
    else if is_one_of name (text "int" ∷ text "integer" ∷ [])
    then simple integer
    else if is_one_of name (text "bigint" ∷ text "long" ∷ [])
    then simple bigint
    else if is_one_of name (text "float" ∷ text "real" ∷ [])
    then simple float
    else if text_eq name (text "double")
    then simple double
    else if text_eq name (text "string")
    then simple varchar
    else if text_eq name (text "binary")
    then simple blob
    else if text_eq name (text "date")
    then simple date
    else if text_eq name (text "time")
    then simple time
    else if text_eq name (text "timestamp")
    then simple timestamp
    else if is_one_of name (
        text "timestamptz"
        ∷ text "timestamp with time zone"
        ∷ text "timestamp_with_local_time_zone"
        ∷ [])
    then simple timestamp_tz
    else if text_eq name (text "uuid")
    then simple uuid
    else if text_eq name (text "variant")
    then simple variant
    else unsupported

-- The chain of comparisons of `ParseType`, in its order.
unfoldable pub keyword : Text → Keyword
unfolding text_eq simple_keyword
keyword name =
    if text_eq name (text "array")
    then array
    else if text_eq name (text "map")
    then map_kw
    else if text_eq name (text "struct")
    then struct_kw
    else if is_one_of name (text "decimal" ∷ text "numeric" ∷ [])
    then decimal_kw
    else if is_one_of name (text "varchar" ∷ text "char" ∷ [])
    then varchar_kw
    else simple_keyword name

-- std::stoll throws std::out_of_range above this value.
abbrev pub max_int64 : ℕ
max_int64 = 2 ^ 63 - 1

module _ ⦃db : DuckDb⦄ where
  unfoldable pub skip_whitespace : Text → Text
  skip_whitespace s = drop_while is_space s

  abbrev pub starts : ℕ → Text → Bool
  starts c [] = false
  starts c (x ∷ _) = x == c

  abbrev pub after : Text → Text
  after [] = []
  after (_ ∷ s) = s

  -- `Peek` leaves the parser behind the whitespace, whatever it answers.
  unfoldable pub peek : ℕ → Text → Bool × Text
  peek c s = let r = skip_whitespace s in (starts c r, r)

  unfoldable pub expect : ℕ → Text → Outcome Text
  expect c s = let (found, r) = peek c s in if found then ok (after r) else err invalid_input

  unfoldable pub is_identifier_byte : ℕ → Bool
  is_identifier_byte c =
      not (c == b'<' || c == b'>' || c == b',' || c == b':' || c == b'(' || c == b')' || is_space c)

  unfoldable pub read_identifier : Parser Text
  read_identifier s =
      let r = skip_whitespace s in
      let name = take_while is_identifier_byte r in
      if is_empty name then err invalid_input else ok (name, drop_while is_identifier_byte r)

  unfoldable pub is_field_byte : ℕ → Bool
  is_field_byte c = not (c == b':' || c == b'<' || c == b'>' || c == b',')

  abbrev pub not_backtick : ℕ → Bool
  not_backtick c = not (c == b'`')

  -- The end of a quoted name, which needs its second backtick.
  abbrev pub close_quoted : Text → Parser Text
  close_quoted name [] = err invalid_input
  close_quoted name (_ ∷ rest) = ok (name, rest)

  unfoldable pub quoted_name : Parser Text
  quoted_name s = close_quoted (take_while not_backtick s) (drop_while not_backtick s)

  unfoldable pub unquoted_name : Parser Text
  unquoted_name s =
      let name = r_trim (take_while is_field_byte s) in
      if is_empty name then err invalid_input else ok (name, drop_while is_field_byte s)

  unfoldable pub read_field_name : Parser Text
  read_field_name s =
      let r = skip_whitespace s in if starts b'`' r then quoted_name (after r) else unquoted_name r

  unfoldable pub read_integer : Parser ℕ
  read_integer s =
      let r = skip_whitespace s in
      let number = take_while is_digit r in
      if is_empty number
      then err invalid_input
      else if ltb max_int64 (digits_value 0 number)
      then err out_of_range
      else ok (digits_value 0 number, drop_while is_digit r)

  -- `, scale`, where it is given
  unfoldable pub parse_scale : Parser ℕ
  parse_scale s =
      let (found, r) = peek b',' s in if found then read_integer (after r) else ok (0, r)

  -- `(width, scale)` or `(width)`, where it is given
  unfoldable pub parse_precision : Parser (ℕ × ℕ)
  parse_precision s =
      let (found, r) = peek b'(' s in
      if found
      then (do
        (width, s₁) ← read_integer (after r)
        (scale, s₂) ← parse_scale s₁
        s₃ ← expect b')' s₂
        ok ((width, scale), s₃))
      else ok ((10, 0), r)

  unfoldable pub parse_decimal : Parser LogicalType
  parse_decimal s = do
    ((width, scale), r) ← parse_precision s
    throw_if (ltb width 1 || ltb max_width_decimal width || ltb width scale) invalid_input
    ok (decimal width scale, r)

  -- varchar(n), char(n): the length is read and dropped
  unfoldable pub parse_varchar : Parser LogicalType
  parse_varchar s =
      let (found, r) = peek b'(' s in
      if found
      then (do (_, s₁) ← read_integer (after r); s₂ ← expect b')' s₁; ok (varchar, s₂))
      else ok (varchar, r)

  -- Whether `continue` or `break` follows a field: the loop goes on behind a comma.
  unfoldable pub next_field :
      Parser Fields → Text → LogicalType → Bool × Text → Outcome (Fields × Text)
  next_field loop name type (true, r) = do (rest, s) ← loop (after r); ok (field name type rest, s)
  next_field loop name type (false, r) = ok (field name type no_fields, r)

  -- The loop over the fields of a struct; `parse` is the recursive call of ParseType.
  unfoldable pub parse_fields : Parser LogicalType → ℕ → Parser Fields
  parse_fields parse zero s = err out_of_fuel
  parse_fields parse (suc fuel) s = do
    (name, s₁) ← read_field_name s
    s₂ ← expect b':' s₁
    (type, s₃) ← parse s₂
    next_field (parse_fields parse fuel) name type (peek b',' s₃)

  unfoldable pub parse_array : Parser LogicalType → Parser LogicalType
  parse_array parse s = do
    s₁ ← expect b'<' s
    (child, s₂) ← parse s₁
    s₃ ← expect b'>' s₂
    ok (list child, s₃)

  unfoldable pub parse_map : Parser LogicalType → Parser LogicalType
  parse_map parse s = do
    s₁ ← expect b'<' s
    (key, s₂) ← parse s₁
    s₃ ← expect b',' s₂
    (value, s₄) ← parse s₃
    s₅ ← expect b'>' s₄
    ok (map_of key value, s₅)

  unfoldable pub parse_struct : Parser LogicalType → ℕ → Parser LogicalType
  parse_struct parse fuel s = do
    s₁ ← expect b'<' s
    (children, s₂) ← parse_fields parse fuel s₁
    s₃ ← expect b'>' s₂
    ok (struct children, s₃)

  -- The branches of ParseType.
  unfoldable pub parse_keyword : Parser LogicalType → ℕ → Keyword → Parser LogicalType
  parse_keyword parse fuel array s = parse_array parse s
  parse_keyword parse fuel map_kw s = parse_map parse s
  parse_keyword parse fuel struct_kw s = parse_struct parse fuel s
  parse_keyword parse fuel decimal_kw s = parse_decimal s
  parse_keyword parse fuel varchar_kw s = parse_varchar s
  parse_keyword parse fuel (simple type) s = ok (type, s)
  parse_keyword parse fuel unsupported s = err not_implemented

  unfoldable pub parse_type : ℕ → Parser LogicalType
  parse_type zero s = err out_of_fuel
  parse_type (suc fuel) s = do
    (name, r) ← read_identifier s
    parse_keyword (parse_type fuel) fuel (keyword (lower name)) r

  -- `Parse` rejects what follows the type.
  abbrev pub finish : LogicalType × Text → Outcome LogicalType
  finish (type, []) = ok type
  finish (type, _ ∷ _) = err invalid_input

  -- Every call of ParseType reads at least one byte, so the length of the input bounds the depth.
  unfoldable pub to_logical_type : Text → Outcome LogicalType
  to_logical_type s = do (type, r) ← parse_type (suc (length s)) s; finish (type, skip_whitespace r)
