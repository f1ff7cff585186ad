-- ===== src/Types/Printer.antt =====
-- GlueTypes::FromLogicalType of src/core/glue_types.cpp.
use mathlib.Core.List.{reverse}
use duckdb_aws_glue.Base.{
  ℕ, Bool, false, ◌||◌, List, [], ◌∷◌, ◌++◌, Text, text, ◌==◌, is_empty, any, Outcome, ok, err,
  ◌>>=◌, ◌>>◌, throw_if, not_implemented,
}
use duckdb_aws_glue.DuckDb.{DuckDb, is_space, join, print_number}
use duckdb_aws_glue.Types.Logical.{
  LogicalType, Fields, boolean, tinyint, smallint, integer, bigint, utinyint, usmallint, uinteger,
  float, double, varchar, blob, date, time, timestamp, timestamp_tz, uuid, variant, decimal, list,
  map_of, struct, aliased, other, no_fields, field,
}

-- find_first_of(":,<>`")
abbrev pub is_structural : ℕ → Bool
is_structural c = c == b':' || c == b',' || c == b'<' || c == b'>' || c == b'`'

module _ ⦃db : DuckDb⦄ where
  abbrev pub starts_blank : Text → Bool
  starts_blank [] = false
  starts_blank (c ∷ _) = is_space c

  -- A name that a Hive type string, which does not quote names, can not hold.
  unfoldable pub refuses_name : Text → Bool
  refuses_name name =
      is_empty name || any is_structural name || starts_blank name || starts_blank (reverse name)

  unfoldable mutual
    unfolding refuses_name

    pub from_logical_type : LogicalType → Outcome Text
    from_logical_type boolean = ok (text "boolean")
    from_logical_type tinyint = ok (text "tinyint")
    from_logical_type smallint = ok (text "smallint")
    from_logical_type integer = ok (text "int")
    from_logical_type bigint = ok (text "bigint")
    from_logical_type utinyint = ok (text "smallint")
    from_logical_type usmallint = ok (text "int")
    from_logical_type uinteger = ok (text "bigint")
    from_logical_type float = ok (text "float")
    from_logical_type double = ok (text "double")
    from_logical_type (decimal width scale) = ok (
        text "decimal"
        ++ (b'(' ∷ (print_number width ++ (b',' ∷ (print_number scale ++ b')' ∷ [])))))
    from_logical_type varchar = ok (text "string")
    from_logical_type blob = ok (text "binary")
    from_logical_type date = ok (text "date")
    from_logical_type time = ok (text "time")
    from_logical_type timestamp = ok (text "timestamp")
    from_logical_type timestamp_tz = ok (text "timestamptz")
    from_logical_type uuid = ok (text "uuid")
    from_logical_type variant = ok (text "variant")
    from_logical_type (list child) = do
      s ← from_logical_type child
      ok (text "array" ++ (b'<' ∷ (s ++ b'>' ∷ [])))
    from_logical_type (map_of key value) = do
      k ← from_logical_type key
      v ← from_logical_type value
      ok (text "map" ++ (b'<' ∷ (k ++ (b',' ∷ (v ++ b'>' ∷ [])))))
    from_logical_type (struct no_fields) = err not_implemented
    from_logical_type (struct children) = do
      parts ← from_fields children
      ok (text "struct" ++ (b'<' ∷ (join parts (text ",") ++ b'>' ∷ [])))
    from_logical_type (aliased name type) = from_logical_type type
    from_logical_type (other id) = err not_implemented

    -- The loop over the children of a STRUCT.
    pub from_fields : Fields → Outcome (List Text)
    from_fields no_fields = ok []
    from_fields (field name type rest) = do
      throw_if (refuses_name name) not_implemented
      s ← from_logical_type type
      parts ← from_fields rest
      ok ((name ++ (b':' ∷ s)) ∷ parts)
