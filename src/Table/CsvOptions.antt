-- ===== src/Table/CsvOptions.antt =====
-- HiveCSVOptions (src/core/readers/hive_csv_options.cpp) and GetCSVOptions of src/core/glue_info.cpp.
use duckdb_aws_glue.Base.{
  ℕ, Bool, true, false, not, ◌&&◌, ◌||◌, [], ◌++◌, Text, text, text_eq, ◌==◌, is_empty,
  if◌then◌else◌, Option, none, some, Outcome, ok, ◌>>=◌,
}
use duckdb_aws_glue.DuckDb.{DuckDb, ci_equals}
use duckdb_aws_glue.Types.Logical.{LogicalType, varchar, timestamp, date}
use duckdb_aws_glue.Types.TypeId.{TypeId, boolean, id, TypeEquality, same_type}
use duckdb_aws_glue.Table.Info.{GlueTableInfo, try_get_property, value_or, get_serde}
use duckdb_aws_glue.Table.Delimiters.{
  is_open_csv, get_field_delimiter, get_null_format, get_header_line_count, get_quote_character,
  get_escape_character,
}

pub data HiveFieldConversion : Type 0 where
  no_conversion cast try_cast false_unless_true epoch try_epoch : HiveFieldConversion

pub record HiveCsvOptions : Type 0 where
  pub delimiter : Text
  pub quote : Text
  pub escape : Text
  pub skip_lines : ℕ
  pub null_string : Text
  pub serde_fields : Bool
  pub null_for_invalid_data : Bool
  pub false_unless_true : Bool
  pub field_escape : Text
  pub epoch_fields : Bool

-- the member initialisers
abbrev pub default_csv_options : HiveCsvOptions
default_csv_options = record {
  delimiter = text ",";
  quote = text "\"";
  escape = text "\"";
  skip_lines = 0;
  null_string = [];
  serde_fields = false;
  null_for_invalid_data = true;
  false_unless_true = false;
  field_escape = [];
  epoch_fields = false;
}

abbrev pub is_boolean : TypeId → Bool
is_boolean boolean = true
is_boolean _ = false

-- FieldConversion
unfoldable pub field_conversion :
    ⦃eq : TypeEquality⦄ → HiveCsvOptions → LogicalType → HiveFieldConversion
field_conversion options type =
    if same_type type varchar
    then no_conversion
    else if options.false_unless_true && is_boolean (id type)
    then false_unless_true
    else if options.epoch_fields && (same_type type timestamp || same_type type date)
    then if options.null_for_invalid_data then try_epoch else epoch
    else if options.null_for_invalid_data
    then try_cast
    else cast

-- FieldEscapePattern; `quote_meta` is RE2::QuoteMeta.
abbrev pub field_escape_pattern : (Text → Text) → HiveCsvOptions → Text
field_escape_pattern quote_meta options =
    quote_meta options.field_escape
    ++ (text "([" ++ (quote_meta options.field_escape ++ (quote_meta options.quote ++ text "])?")))

abbrev eq_bool : Bool → Bool → Bool
eq_bool true b = b
eq_bool false b = not b

-- operator==
unfoldable pub eq_csv_options : HiveCsvOptions → HiveCsvOptions → Bool
eq_csv_options a b =
    text_eq a.delimiter b.delimiter
    && text_eq a.quote b.quote
    && text_eq a.escape b.escape
    && a.skip_lines == b.skip_lines
    && text_eq a.null_string b.null_string
    && eq_bool a.serde_fields b.serde_fields
    && eq_bool a.null_for_invalid_data b.null_for_invalid_data
    && eq_bool a.false_unless_true b.false_unless_true
    && text_eq a.field_escape b.field_escape
    && eq_bool a.epoch_fields b.epoch_fields

module _ ⦃db : DuckDb⦄ where
  abbrev pub set_true : Option Text → Bool
  set_true none = false
  set_true (some value) = ci_equals value (text "true")

  -- the escape that OpenCSVSerde applies and read_csv would keep
  abbrev dropped_escape : Bool → GlueTableInfo → Text → Text → Text
  dropped_escape is_open table delimiter quote =
      if is_open
        && is_empty (value_or (try_get_property table (text "escapeChar")) [])
        && not (text_eq delimiter (text "\\"))
        && not (text_eq quote (text "\\"))
      then text "\\"
      else []

  -- GetCSVOptions
  unfoldable pub get_csv_options : GlueTableInfo → Outcome HiveCsvOptions
  get_csv_options table = do
    delimiter ← get_field_delimiter table
    quote ← get_quote_character table
    escape ← get_escape_character table
    skip_lines ← get_header_line_count table
    null_format ← get_null_format table
    serde ← get_serde table
    let is_open = is_open_csv serde
    ok (record {
      delimiter = delimiter;
      quote = quote;
      escape = escape;
      skip_lines = skip_lines;
      null_string = if is_open then text "\n" else null_format;
      serde_fields = true;
      null_for_invalid_data =
          not is_open || set_true (try_get_property table (text "use.null.for.invalid.data"));
      false_unless_true = is_open;
      field_escape = dropped_escape is_open table delimiter quote;
      epoch_fields = is_open;
    })
