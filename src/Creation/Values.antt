-- ===== src/Creation/Values.antt =====
-- The values of CREATE TABLE options and what they are parsed to (src/catalog/glue_schema_entry.cpp).
-- The casts of DuckDB are parameters.
use duckdb_aws_glue.Base.{
  zero, suc, ℤ, pos, ◌||◌, ◌&&◌, not, Bool, true, false, List, [], ◌∷◌, Text, text, is_empty,
  if◌then◌else◌, Option, none, some, Outcome, ok, err, ◌>>=◌, binder,
}
use duckdb_aws_glue.DuckDb.{DuckDb, ci_equals}
use duckdb_aws_glue.Table.Formats.{GlueSortOrder, unsorted, ascending, descending}
use duckdb_aws_glue.Table.Info.{GlueColumn}

-- A value that is not NULL or is `null_value`. `integral` is of an integer type and has what its cast to
-- INTEGER gives; a list knows whether its child type is STRUCT; `other_value` is of a type that no case
-- of the code names.
mutual
  pub data Value : Type 0 where
    null_value : Value
    integral : Option ℤ → Text → Value
    list_value : Bool → Values → Text → Value
    struct_value : Members → Text → Value
    other_value : Text → Value

  pub data Values : Type 0 where
    no_values : Values
    value : Value → Values → Values

  pub data Members : Type 0 where
    no_members : Members
    member : Text → Value → Members → Members

-- ToString, which is what the cast to VARCHAR gives
abbrev pub to_string : Value → Text
to_string null_value = text "NULL"
to_string (integral n s) = s
to_string (list_value b vs s) = s
to_string (struct_value ms s) = s
to_string (other_value s) = s

-- ToInteger
abbrev pub to_integer : Value → Option ℤ
to_integer (integral n s) = n
to_integer _ = none

abbrev pub bucket_names : Values → Outcome (List Text)
bucket_names no_values = ok []
bucket_names (value null_value rest) = err binder
bucket_names (value v rest) = bucket_names rest >>= λ names. ok (to_string v ∷ names)

abbrev some_of : {A : Type 0} → List A → Outcome (List A)
some_of l = if is_empty l then err binder else ok l

-- ParseBucketColumns
unfoldable pub parse_bucket_columns : Value → Outcome (List Text)
parse_bucket_columns (list_value is_struct vs s) = bucket_names vs >>= λ names. some_of names
parse_bucket_columns v = err binder

abbrev positive : Option ℤ → Outcome ℤ
positive (some (pos (suc n))) = ok (pos (suc n))
positive _ = err binder

-- ParseNumberOfBuckets
unfoldable pub parse_number_of_buckets : Value → Outcome ℤ
parse_number_of_buckets v = positive (to_integer v)

abbrev sort_order_of : Option ℤ → Outcome GlueSortOrder
sort_order_of (some (pos zero)) = ok descending
sort_order_of (some (pos (suc zero))) = ok ascending
sort_order_of _ = err binder

-- ParseSortOrder
unfoldable pub parse_sort_order : Value → Outcome GlueSortOrder
parse_sort_order v = sort_order_of (to_integer v)

abbrev pub is_null : Value → Bool
is_null null_value = true
is_null _ = false

abbrev pub is_unsorted : GlueSortOrder → Bool
is_unsorted unsorted = true
is_unsorted _ = false

module _ ⦃db : DuckDb⦄ where
  -- a field of a sort column
  unfoldable pub with_member : Text → Value → GlueColumn → Outcome GlueColumn
  unfolding parse_sort_order
  with_member field v column =
      let is_column = ci_equals field (text "Column") in
      if not is_column && not (ci_equals field (text "SortOrder"))
      then err binder
      else if is_null v
      then ok column
      else if is_column
      then ok (record column { name = to_string v })
      else parse_sort_order v >>= λ order. ok (record column { sort_order = order })

  unfoldable pub with_members : Members → GlueColumn → Outcome GlueColumn
  unfolding with_member
  with_members no_members column = ok column
  with_members (member field v rest) column =
      with_member field v column >>= λ column'. with_members rest column'

  abbrev pub no_column : GlueColumn
  no_column = record { name = []; type = []; comment = []; sort_order = unsorted }

  -- an entry of SortColumns, which is a struct or NULL where the child type is STRUCT
  unfoldable pub parse_sort_column : Value → Outcome GlueColumn
  unfolding with_members
  parse_sort_column (struct_value members s) = with_members members no_column >>= λ column.
      if is_empty column.name || is_unsorted column.sort_order then err binder else ok column
  parse_sort_column v = err binder

  unfoldable pub parse_sort_entries : Values → Outcome (List GlueColumn)
  unfolding parse_sort_column
  parse_sort_entries no_values = ok []
  parse_sort_entries (value v rest) =
      parse_sort_column v >>= λ column. parse_sort_entries rest >>= λ columns. ok (column ∷ columns)

  -- ParseSortColumns
  unfoldable pub parse_sort_columns : Value → Outcome (List GlueColumn)
  unfolding parse_sort_entries
  parse_sort_columns (list_value true vs s) = parse_sort_entries vs >>= λ columns. some_of columns
  parse_sort_columns v = err binder
