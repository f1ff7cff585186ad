-- ===== src/Tests/QueryTests.antt =====
-- Instances of the theorems about listings, table keys and name filters.
use duckdb_aws_glue.Base.{
  ℕ, ◌+◌, ◌≡◌, ◌⊎◌, refl, true, false, [], ◌∷◌, Text, text, text_eq, map, Outcome, ok, trim_end,
  drop_while,
}
use duckdb_aws_glue.DuckDb.{lower_byte}
use duckdb_aws_glue.DuckDb.Ascii.{ascii}
use duckdb_aws_glue.Query.Listings.{
  Caches, get_listing, get_statement_listing, get_directory_listing, get_all,
}
use duckdb_aws_glue.Query.Listed.{table_key-injective, get_directory_listing-once}
use duckdb_aws_glue.Query.NameFilter.{
  Value, varchar, other, Expression, column_ref, call, constant, compare_equal, is_name_operand,
  try_get_name_equality, try_get_name_equality-keeps,
}

-- a file system whose listings are numbered
abbrev glob : Text → ℕ → Outcome ℕ × ℕ
glob pattern n = (ok n, n + 1)

abbrev empty : Caches ℕ
empty = record { listings = []; directory_listings = []; scan_count = 0 }

abbrev one : Caches ℕ
one = record empty { directory_listings = (text "s3:a", 5) ∷ [] }

listed : get_directory_listing glob (text "s3:a") false empty 5 ≡ (ok 5, (one, 6))
unfolding get_directory_listing get_listing get_statement_listing trim_end drop_while ascii
listed = refl

get_directory_listing-once_example :
    get_directory_listing glob
      (text "s3:a/")
      false
      (get_all glob ((text "s3:b", true) ∷ (text "s3:c", false) ∷ []) one 6).0
      (get_all glob ((text "s3:b", true) ∷ (text "s3:c", false) ∷ []) one 6).1
    ≡ (ok 5, get_all glob ((text "s3:b", true) ∷ (text "s3:c", false) ∷ []) one 6)
get_directory_listing-once_example =
    get_directory_listing-once glob (text "s3:a") (text "s3:a/") false empty one 5 6 5
      ((text "s3:b", true) ∷ (text "s3:c", false) ∷ []) listed
      (unfold trim_end drop_while ascii in refl)

table_key-injective_example : (text "c" ≡ text "c") × (text "d" ≡ text "d") × (text "t" ≡ text "t")
table_key-injective_example =
    table_key-injective (text "c") (text "d") (text "t") (text "c") (text "d") (text "t") (refl, tt)
      (refl, tt) (refl, tt) (refl, tt) refl

abbrev called : Text → Value → Value
called f v = v

abbrev opaque : Text → Text → Value
opaque e x = other e

abbrev filter : Expression
filter = compare_equal (constant (varchar (text "orders"))) (call (text "lower") column_ref)

-- a lower() of ASCII
try_get_name_equality-keeps_example :
    (text "Orders" ≡ text "orders") ⊎ (map lower_byte (text "Orders") ≡ text "orders")
try_get_name_equality-keeps_example =
    try_get_name_equality-keeps (map lower_byte) called opaque filter (text "orders")
      (text "Orders") (unfold try_get_name_equality is_name_operand text_eq in refl)
      (unfold text_eq ascii lower_byte in refl)
