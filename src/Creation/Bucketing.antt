-- ===== src/Creation/Bucketing.antt =====
-- ResolveBucketing and CheckNoDuplicates (src/catalog/glue_schema_entry.cpp).
use duckdb_aws_glue.Base.{
  zero, ℤ, negsuc, ◌||◌, not, Bool, true, false, List, [], ◌∷◌, Text, is_empty, any, if◌then◌else◌,
  Outcome, ok, err, ◌>>=◌, ◌>>◌, throw_if, binder, map,
}
use duckdb_aws_glue.DuckDb.{DuckDb, ci_equals}
use duckdb_aws_glue.Table.Info.{GlueColumn}
use duckdb_aws_glue.Creation.Options.{GlueCreateTableOptions}

abbrev pub column_name : GlueColumn → Text
column_name column = column.name

-- number_of_buckets == -1
abbrev pub is_not_given : ℤ → Bool
is_not_given (negsuc zero) = true
is_not_given _ = false

module _ ⦃db : DuckDb⦄ where
  -- whether a name is one of those, in any case
  abbrev pub is_listed : Text → List Text → Bool
  is_listed name names = any (λ other. ci_equals other name) names

  -- the inner loop takes the names before one, the outer one after the other
  unfoldable pub has_duplicates : List Text → List Text → Bool
  has_duplicates before [] = false
  has_duplicates before (name ∷ names) =
      is_listed name before || has_duplicates (name ∷ before) names

  -- CheckNoDuplicates
  unfoldable pub check_no_duplicates : List Text → Outcome (Unit {0})
  unfolding has_duplicates
  check_no_duplicates names = throw_if (has_duplicates [] names) binder

  abbrev pub spelled : Text → List Text → Outcome Text
  spelled name [] = err binder
  spelled name (column ∷ columns) =
      if ci_equals column name then ok column else spelled name columns

  -- a column of the table as it is spelled there, which is no partition column
  unfoldable pub resolve_column : List Text → List Text → Text → Outcome Text
  resolve_column columns partition_columns name =
      if is_listed name partition_columns then err binder else spelled name columns

  unfoldable pub resolve_columns : List Text → List Text → List Text → Outcome (List Text)
  unfolding resolve_column
  resolve_columns columns partition_columns [] = ok []
  resolve_columns columns partition_columns (name ∷ names) =
      resolve_column columns partition_columns name >>= λ name'.
      resolve_columns columns partition_columns names >>= λ names'. ok (name' ∷ names')

  unfoldable pub resolve_sort_columns :
      List Text → List Text → List GlueColumn → Outcome (List GlueColumn)
  unfolding resolve_column
  resolve_sort_columns columns partition_columns [] = ok []
  resolve_sort_columns columns partition_columns (sort ∷ sorts) =
      resolve_column columns partition_columns sort.name >>= λ name.
      resolve_sort_columns columns partition_columns sorts >>= λ sorts'.
      ok (record sort { name = name } ∷ sorts')

  -- ResolveBucketing, over the columns and the partition columns of the table
  unfoldable pub resolve_bucketing :
      List Text → List Text → GlueCreateTableOptions → Outcome GlueCreateTableOptions
  unfolding resolve_columns resolve_sort_columns check_no_duplicates
  resolve_bucketing columns partition_columns options =
      if is_empty options.bucket_columns
      then (if not (is_not_given options.number_of_buckets) || not (is_empty options.sort_columns)
          then err binder
          else ok options)
      else if is_not_given options.number_of_buckets
      then err binder
      else resolve_columns columns partition_columns options.bucket_columns >>= λ buckets.
          resolve_sort_columns columns partition_columns options.sort_columns >>= λ sorts.
          check_no_duplicates buckets
          >> (check_no_duplicates (map column_name sorts)
              >> ok (record options { bucket_columns = buckets; sort_columns = sorts }))
