-- ===== src/Table/Location.antt =====
-- src/core/hive_location.cpp: locations as they are compared.
use duckdb_aws_glue.Base.{ℕ, Bool, ◌||◌, ◌++◌, Text, text, text_eq, ◌==◌, take, drop, if◌then◌else◌}
use duckdb_aws_glue.DuckDb.{DuckDb, lower, starts_with, r_trim_of}

abbrev pub is_slash : ℕ → Bool
is_slash c = c == b'/'

module _ ⦃db : DuckDb⦄ where
  -- The scheme of a location without trailing slashes, in its one spelling.
  unfoldable pub comparable_scheme : Text → Text
  unfolding take drop
  comparable_scheme s =
      let scheme = lower (take 6 s) in
      if text_eq scheme (text "s3a://") || text_eq scheme (text "s3n://")
      then text "s3://" ++ drop 6 s
      else if text_eq (lower (take 5 s)) (text "s3://")
      then text "s3://" ++ drop 5 s
      else s

  -- ComparableLocation
  unfoldable pub comparable_location : Text → Text
  unfolding comparable_scheme
  comparable_location location = comparable_scheme (r_trim_of location (text "/"))

  -- LocationsOverlap
  unfoldable pub locations_overlap : Text → Text → Bool
  locations_overlap a b =
      text_eq a b || starts_with a (b ++ text "/") || starts_with b (a ++ text "/")
