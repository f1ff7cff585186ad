-- ===== src/Tests/TypeTests.antt =====
-- Runs of the type parser and printer, and instances of the theorems about them.
use duckdb_aws_glue.Base.{
  ◌≡◌, refl, Text, text, ok, err, invalid_input, take_while, drop_while, Ensures, arith, AllPass,
}
use duckdb_aws_glue.DuckDb.{digits_value, lower, lower_byte}
use duckdb_aws_glue.DuckDb.Ascii.{ascii}
use duckdb_aws_glue.Types.Logical.{
  LogicalType, utinyint, integer, varchar, timestamp, decimal, list, map_of, struct, aliased, field,
  no_fields,
}
use duckdb_aws_glue.Types.Parser.{
  to_logical_type, simple, parse_type, keyword, parse_keyword, parse_array, parse_map, parse_struct,
  parse_fields, next_field, parse_decimal, parse_precision, parse_scale, parse_varchar,
  read_integer, read_field_name, quoted_name, unquoted_name, is_field_byte, read_identifier,
  is_identifier_byte, expect, peek, skip_whitespace,
}
use duckdb_aws_glue.Types.Printer.{from_logical_type}
use duckdb_aws_glue.Types.Stored.{stored, IsValid}
use duckdb_aws_glue.Types.RoundTrip.{to_logical_type-from_logical_type}
use duckdb_aws_glue.Types.Sound.{to_logical_type-IsValid}
use duckdb_aws_glue.Types.Rejects.{to_logical_type-words}

nested :
    to_logical_type (text "Array< struct<a b :int,`c`:decimal(12, 3)>>")
    ≡ ok (list (struct (field (text "a b") integer (field (text "c") (decimal 12 3) no_fields))))
unfolding to_logical_type parse_type keyword parse_keyword parse_array parse_map parse_struct
    parse_fields next_field parse_decimal parse_precision parse_scale parse_varchar read_integer
    read_field_name quoted_name unquoted_name is_field_byte read_identifier is_identifier_byte
    expect peek skip_whitespace take_while drop_while digits_value ascii
nested = refl

-- struct<id:uint8, tags:map<varchar, decimal(12,3)>>
abbrev sample : LogicalType
sample = struct (
    field (text "id") utinyint
      (field (text "tag s") (map_of (aliased (text "JSON") varchar) (decimal 12 3)) no_fields))

abbrev sample_text : Text
sample_text = text "struct<id:smallint,tag s:map<string,decimal(12,3)>>"

sample_printed : from_logical_type sample ≡ ok sample_text
unfolding from_logical_type ascii
sample_printed = refl

to_logical_type-from_logical_type_example : to_logical_type sample_text ≡ ok (stored sample)
to_logical_type-from_logical_type_example =
    to_logical_type-from_logical_type sample sample_text
      (unfold IsValid ascii in (tt, ((tt, omega arith), tt))) sample_printed

to_logical_type-IsValid_example : Ensures IsValid (to_logical_type (text "decimal(3,9)"))
to_logical_type-IsValid_example = to_logical_type-IsValid (text "decimal(3,9)")

timestamp_keyword : keyword (lower (text "Timestamp")) ≡ simple timestamp
unfolding keyword ascii lower_byte
timestamp_keyword = refl

timestamp_word : AllPass is_identifier_byte (text "Timestamp")
unfolding is_identifier_byte ascii
timestamp_word = (refl, (refl, (refl, (refl, (refl, (refl, (refl, (refl, (refl, tt)))))))))

to_logical_type-words_example :
    to_logical_type (text "Timestamp  with time zone") ≡ err invalid_input
to_logical_type-words_example =
    to_logical_type-words b'T' (text "imestamp") timestamp b' ' (text " ") b'w'
      (text "ith time zone") timestamp_word timestamp_keyword (unfold ascii in (refl, (refl, tt)))
      (unfold ascii in refl)
