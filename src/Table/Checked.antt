-- ===== src/Table/Checked.antt =====
-- CheckTextSerdeSupported of src/core/glue_info.cpp.
use duckdb_aws_glue.Base.{
  Bool, true, false, not, ◌&&◌, Text, text, text_eq, any, ◌==◌, ltb, length, if◌then◌else◌, Option,
  none, some, Outcome, ◌>>=◌, ◌>>◌, throw_if, not_implemented,
}
use duckdb_aws_glue.DuckDb.{DuckDb, ci_equals, contains}
use duckdb_aws_glue.Table.Formats.{HiveFileFormat, json}
use duckdb_aws_glue.Table.Info.{GlueColumn, GlueTableInfo, try_get_property, get_serde}
use duckdb_aws_glue.Table.Delimiters.{
  is_open_csv, get_field_delimiter, get_null_format, get_count_property, get_header_line_count,
  get_quote_character, get_escape_character,
}

-- a column stored with collection delimiters
abbrev pub is_nested_column : GlueColumn → Bool
is_nested_column column = any (λ c. c == b'<') column.type

abbrev pub refuse_if : Bool → Outcome (Unit {0})
refuse_if refused = throw_if refused not_implemented

module _ ⦃db : DuckDb⦄ where
  abbrev pub is_set_true : Option Text → Bool
  is_set_true none = false
  is_set_true (some value) = ci_equals value (text "true")

  abbrev pub is_other_encoding : Option Text → Bool
  is_other_encoding none = false
  is_other_encoding (some value) =
      not (ci_equals value (text "UTF-8")) && not (ci_equals value (text "UTF8"))

  unfoldable pub check_open_csv : GlueTableInfo → Outcome (Unit {0})
  check_open_csv table = do
    quote ← get_quote_character table
    refuse_if (ltb 1 (length quote))
    escape ← get_escape_character table
    refuse_if (ltb 1 (length escape))

  unfoldable pub check_lazy_simple : GlueTableInfo → Outcome (Unit {0})
  check_lazy_simple table = do
    escape ← get_escape_character table
    refuse_if (ltb 1 (length escape))
    delimiter ← get_field_delimiter table
    refuse_if (text_eq escape delimiter)
    refuse_if (is_set_true (try_get_property table (text "serialization.escape.crlf")))
    refuse_if (is_other_encoding (try_get_property table (text "serialization.encoding")))
    refuse_if (is_set_true (try_get_property table (text "serialization.last.column.takes.rest")))
    null_format ← get_null_format table
    refuse_if (contains null_format delimiter)

  unfoldable pub check_csv : GlueTableInfo → Outcome (Unit {0})
  unfolding check_open_csv check_lazy_simple
  check_csv table = do
    refuse_if (any is_nested_column table.columns)
    serde ← get_serde table
    if is_open_csv serde then check_open_csv table else check_lazy_simple table

  abbrev is_json : HiveFileFormat → Bool
  is_json json = true
  is_json _ = false

  unfoldable pub check_text_serde_supported : GlueTableInfo → HiveFileFormat → Outcome (Unit {0})
  check_text_serde_supported table format = do
    footer ← get_count_property table (text "skip.footer.line.count")
    refuse_if (ltb 0 footer)
    if is_json format
        then (do header ← get_header_line_count table; refuse_if (ltb 0 header))
        else check_csv table
