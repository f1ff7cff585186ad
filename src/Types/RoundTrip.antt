-- ===== src/Types/RoundTrip.antt =====
-- What FromLogicalType prints, ToLogicalType reads back (src/core/glue_types.cpp).
use duckdb_aws_glue.Base.{suc, ◌≡◌, refl, [], append-nil, arith, Text, text, length, ok, drop_while}
use duckdb_aws_glue.DuckDb.{DuckDb}
use duckdb_aws_glue.Types.Logical.{
  LogicalType, Fields, boolean, tinyint, smallint, integer, bigint, utinyint, usmallint, uinteger,
  float, double, varchar, blob, date, time, timestamp, timestamp_tz, uuid, variant, decimal, list,
  map_of, struct, aliased, other, no_fields, field,
}
use duckdb_aws_glue.Types.Parser.{keyword, parse_type, to_logical_type, skip_whitespace}
use duckdb_aws_glue.Types.Printer.{from_logical_type}
use duckdb_aws_glue.Types.Stored.{stored, IsValid}
use duckdb_aws_glue.Types.Reads.{
  ReadsFields, Reads, simple-Reads, decimal-Reads, list-Reads, map-Reads,
}
use duckdb_aws_glue.Types.Structs.{from_no_fields, last-ReadsFields, next-ReadsFields, struct-Reads}

module _ ⦃db : DuckDb⦄ where
  field-Reads :
      (x : Text) (t : LogicalType)
      → Reads t
      → (others : Fields) → ReadsFields others
      → ReadsFields (field x t others)
  field-Reads x t ih no_fields ihs = last-ReadsFields x t ih
  field-Reads x t ih (field y u others) ihs = next-ReadsFields x t y u others ih ihs

  mutual
    unfolding from_logical_type stored keyword IsValid

    type-Reads : (type : LogicalType) → Reads type
    type-Reads boolean = simple-Reads boolean b'b' (text "oolean") refl refl refl
    type-Reads tinyint = simple-Reads tinyint b't' (text "inyint") refl refl refl
    type-Reads smallint = simple-Reads smallint b's' (text "mallint") refl refl refl
    type-Reads integer = simple-Reads integer b'i' (text "nt") refl refl refl
    type-Reads bigint = simple-Reads bigint b'b' (text "igint") refl refl refl
    type-Reads utinyint = simple-Reads utinyint b's' (text "mallint") refl refl refl
    type-Reads usmallint = simple-Reads usmallint b'i' (text "nt") refl refl refl
    type-Reads uinteger = simple-Reads uinteger b'b' (text "igint") refl refl refl
    type-Reads float = simple-Reads float b'f' (text "loat") refl refl refl
    type-Reads double = simple-Reads double b'd' (text "ouble") refl refl refl
    type-Reads varchar = simple-Reads varchar b's' (text "tring") refl refl refl
    type-Reads blob = simple-Reads blob b'b' (text "inary") refl refl refl
    type-Reads date = simple-Reads date b'd' (text "ate") refl refl refl
    type-Reads time = simple-Reads time b't' (text "ime") refl refl refl
    type-Reads timestamp = simple-Reads timestamp b't' (text "imestamp") refl refl refl
    type-Reads timestamp_tz = simple-Reads timestamp_tz b't' (text "imestamptz") refl refl refl
    type-Reads uuid = simple-Reads uuid b'u' (text "uid") refl refl refl
    type-Reads variant = simple-Reads variant b'v' (text "ariant") refl refl refl
    type-Reads (decimal width scale) = decimal-Reads width scale
    type-Reads (list child) = list-Reads child (type-Reads child)
    type-Reads (map_of key value) = map-Reads key value (type-Reads key) (type-Reads value)
    type-Reads (struct no_fields) = λ s rest fuel v e l n. cc e
    type-Reads (struct (field x t others)) =
        struct-Reads x t others (field-Reads x t (type-Reads t) others (fields-Reads others))
    type-Reads (aliased name type) = λ s rest fuel v e. type-Reads type s rest fuel v e
    type-Reads (other id) = λ s rest fuel v e l n. cc e

    fields-Reads : (children : Fields) → ReadsFields children
    fields-Reads no_fields = λ parts rest fuel loops v e l n h. absurd (h (from_no_fields e))
    fields-Reads (field x t others) = field-Reads x t (type-Reads t) others (fields-Reads others)

  -- A type that FromLogicalType can print, with decimals that DuckDB has, reads back from its text as
  -- the type that is stored: the unsigned types widened and the names of types dropped.
  pub to_logical_type-from_logical_type :
      (type : LogicalType) (s : Text)
      → IsValid type
      → from_logical_type type ≡ ok s
      → to_logical_type s ≡ ok (stored type)
  unfolding to_logical_type skip_whitespace drop_while
  to_logical_type-from_logical_type type s v e =
      let whole : parse_type (suc (length s)) s ≡ ok (stored type, []) =
        rw append-nil at (type-Reads type s [] (suc (length s)) v e (omega arith) tt) in
      rw whole
