-- ===== src/Tests/PartitionTests.antt =====
-- Instances of the theorems about partitions, against a service that throttles the first request.
use duckdb_aws_glue.Base.{
  get_elem?, ◌↔◌, ℕ, ◌≡◌, ◌≢◌, refl, true, false, List, [], ◌∷◌, ◌++◌, Text, text, text_eq, take,
  drop, take_while, drop_while, Option, none, some, ok, err, out_of_fuel, arith, if◌then◌else◌,
}
use duckdb_aws_glue.DuckDb.Ascii.{ascii}
use duckdb_aws_glue.Types.Parser.{
  to_logical_type, parse_type, keyword, parse_keyword, read_identifier, is_identifier_byte,
  skip_whitespace, peek, parse_varchar,
}
use duckdb_aws_glue.Types.Columns.{same_column_type}
use duckdb_aws_glue.Table.Formats.{unsorted}
use duckdb_aws_glue.Table.Info.{GlueColumn}
use duckdb_aws_glue.Partitions.Service.{
  Values, GluePartitionInput, values_eq, is_transient_partition_error,
}
use duckdb_aws_glue.Partitions.Delete.{
  batch_delete_partitions, delete_batches, delete_attempts, deletions_left,
}
use duckdb_aws_glue.Partitions.Deleted.{
  batch_delete_partitions-gone, batch_delete_partitions-NoFuel,
}
use duckdb_aws_glue.Partitions.Create.{
  batch_create_partitions, create_batches, create_attempts, create_attempt, send_inputs, sent_of,
  injected_errors, fails, find_sent, read_errors, creations_left,
}
use duckdb_aws_glue.Partitions.Registered.{
  batch_create_partitions-there, batch_create_partitions-NoFuel,
}
use duckdb_aws_glue.Partitions.Segments.{
  GluePartitionInfo, Pages, fetch_partition_segment, fetch_segments, get_partition_segment_count,
  get_partitions, drop_seen,
}
use duckdb_aws_glue.Partitions.Pages.{Serves, final, more, fetch_partition_segment_lem}
use duckdb_aws_glue.Partitions.Listed.{
  fresh, has_key, get_partitions-ignored_segment, get_partitions-fresh,
}
use duckdb_aws_glue.Partitions.Mismatch.{
  find_column, find_partition_column, mismatch_from, find_column_type_mismatch, SameTypes,
  find_column_type_mismatch-none, find_column_type_mismatch-some, SameTypesBefore,
}
use duckdb_aws_glue.Tests.Equality.{exact}
use duckdb_aws_glue.Tests.Throttled.{State, exists, throttled, throttled-Documented}

abbrev monday : Values
monday = text "mon" ∷ []

abbrev tuesday : Values
tuesday = text "tue" ∷ []

abbrev start : State
start = (false, monday ∷ [])

abbrev inputs : List GluePartitionInput
inputs = (record { values = tuesday; location = text "s3://b/tue" }) ∷ []

monday_gone : batch_delete_partitions throttled false (monday ∷ []) start ≡ (ok tt, (true, []))
unfolding batch_delete_partitions delete_batches delete_attempts deletions_left
    is_transient_partition_error throttled values_eq text_eq take drop
monday_gone = refl

batch_delete_partitions-gone_example : exists (true, []) monday ≡ false
batch_delete_partitions-gone_example =
    batch_delete_partitions-gone throttled exists throttled-Documented false (monday ∷ []) start
      (true, []) monday_gone monday (unfold values_eq text_eq in refl)

batch_delete_partitions-NoFuel_example :
    (batch_delete_partitions throttled false (monday ∷ []) start).0 ≢ err out_of_fuel
batch_delete_partitions-NoFuel_example =
    batch_delete_partitions-NoFuel throttled exists throttled-Documented false (monday ∷ []) start

abbrev no_cast : Text → Option ℕ
no_cast s = none

tuesday_there :
    batch_create_partitions throttled no_cast none false inputs start
    ≡ (ok [], (true, tuesday ∷ monday ∷ []))
unfolding batch_create_partitions create_batches create_attempts create_attempt send_inputs sent_of
    injected_errors fails find_sent read_errors creations_left is_transient_partition_error
    throttled values_eq text_eq take drop
tuesday_there = refl

batch_create_partitions-there_example : exists (true, tuesday ∷ monday ∷ []) tuesday ≡ true
batch_create_partitions-there_example =
    batch_create_partitions-there throttled exists throttled-Documented no_cast none false inputs []
      start (true, tuesday ∷ monday ∷ []) tuesday_there tuesday (unfold values_eq text_eq in refl)

batch_create_partitions-NoFuel_example :
    (batch_create_partitions throttled no_cast none false inputs start).0 ≢ err out_of_fuel
batch_create_partitions-NoFuel_example =
    batch_create_partitions-NoFuel throttled exists throttled-Documented no_cast none false inputs
      start

abbrev partition : Values → GluePartitionInfo
partition v = record {
  values = v;
  location = [];
  input_format = [];
  serde_library = [];
  serde_parameters = [];
  partition_columns = [];
}

-- two pages, whichever segment is asked for
abbrev pages : Pages
pages segment token =
    if text_eq token []
    then ok (partition monday ∷ [], text "next")
    else ok (partition tuesday ∷ [], [])

abbrev both : List GluePartitionInfo
both = partition monday ∷ partition tuesday ∷ []

served : Serves pages none [] ((partition monday ∷ []) ∷ (partition tuesday ∷ []) ∷ [])
unfolding text_eq
served = more refl (final refl)

fetch_partition_segment_lem_example : fetch_partition_segment pages 2 none [] ≡ ok both
fetch_partition_segment_lem_example =
    fetch_partition_segment_lem pages 2 none []
      ((partition monday ∷ []) ∷ (partition tuesday ∷ []) ∷ []) served (omega arith)

whole_table : (segment : Option (ℕ × ℕ)) → fetch_partition_segment pages 2 segment [] ≡ ok both
unfolding fetch_partition_segment text_eq
whole_table segment = refl

get_partitions-ignored_segment_example : get_partitions pages 2 (some 4) [] ≡ ok both
get_partitions-ignored_segment_example =
    get_partitions-ignored_segment pages 2 (some 4) [] both whole_table
      (unfold text_eq ascii in refl)

fetched_twice :
    fetch_segments pages 2
      (get_partition_segment_count (some 2) [])
      0
      (get_partition_segment_count (some 2) [])
    ≡ ok (both ++ both)
unfolding fetch_segments get_partition_segment_count fetch_partition_segment text_eq
fetched_twice = refl

got_once : get_partitions pages 2 (some 2) [] ≡ ok both
unfolding get_partitions drop_seen fetch_segments get_partition_segment_count
    fetch_partition_segment text_eq ascii
got_once = refl

get_partitions-fresh_example : (fresh [] both ≡ true) × (has_key (text "tue") both ≡ true)
get_partitions-fresh_example =
    get_partitions-fresh pages 2 (some 2) [] (both ++ both) both (text "tue")
      (unfold get_partition_segment_count in omega arith) fetched_twice got_once
      (unfold text_eq ascii in refl)

abbrev column : Text → Text → GlueColumn
column n t = record { name = n; type = t; comment = []; sort_order = unsorted }

abbrev table_columns : List GlueColumn
table_columns = column (text "id") (text "int") ∷ column (text "x") (text "string") ∷ []

abbrev partition_columns : List GlueColumn
partition_columns = column (text "X") (text "date") ∷ []

x_differs : find_column_type_mismatch partition_columns table_columns false ≡ some 1
unfolding find_column_type_mismatch mismatch_from find_partition_column find_column same_column_type
    to_logical_type parse_type keyword parse_keyword read_identifier is_identifier_byte
    skip_whitespace take_while drop_while peek text_eq ascii exact
x_differs = refl

abbrev same_columns : List GlueColumn
same_columns = column (text "X") (text "varchar") ∷ []

all_same : find_column_type_mismatch same_columns table_columns false ≡ none
unfolding find_column_type_mismatch mismatch_from find_partition_column find_column same_column_type
    to_logical_type parse_type keyword parse_keyword read_identifier is_identifier_byte
    skip_whitespace parse_varchar take_while drop_while peek text_eq ascii exact
all_same = refl

find_column_type_mismatch-none_example :
    (find_column_type_mismatch same_columns table_columns false ≡ none)
    ↔ SameTypes same_columns false table_columns
find_column_type_mismatch-none_example =
    find_column_type_mismatch-none same_columns false table_columns

find_column_type_mismatch-some_example :
    ((c : GlueColumn) × (partition_column : GlueColumn) × (get_elem? table_columns 1 ≡ some c)
      × (find_partition_column ⦃db = ascii⦄ partition_columns c 1 false ≡ some partition_column)
      × (same_column_type c.type partition_column.type ≡ false))
    × SameTypesBefore partition_columns false 1 table_columns
find_column_type_mismatch-some_example =
    find_column_type_mismatch-some partition_columns false table_columns 1 x_differs
