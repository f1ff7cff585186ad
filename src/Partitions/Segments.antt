-- ===== src/Partitions/Segments.antt =====
-- Reading all partitions of a table: FetchPartitionSegment, GetPartitionSegmentCount and GetPartitions
-- of src/api/glue_partition_api.cpp. The segments, which the code fetches at the same time where there are
-- several, are fetched one after the other, in the order in which their results are joined. A chain of
-- pages has fuel for the requests that it may send.
use duckdb_aws_glue.Base.{
  ℕ, zero, suc, ◌+◌, Bool, false, ◌||◌, List, [], ◌∷◌, ◌++◌, Text, text_eq, ◌==◌, ltb, is_empty,
  if◌then◌else◌, Option, none, some, Outcome, ok, err, ◌>>=◌, out_of_fuel,
}
use duckdb_aws_glue.DuckDb.{DuckDb, join}
use duckdb_aws_glue.Table.Info.{GlueColumn, Parameters}
use duckdb_aws_glue.Partitions.Service.{Values}

pub record GluePartitionInfo : Type 0 where
  pub values : Values
  pub location : Text
  pub input_format : Text
  pub serde_library : Text
  pub serde_parameters : Parameters
  pub partition_columns : List GlueColumn

-- Segment::SegmentNumber and TotalSegments, where the request sets them, and the answer to the request
-- with a token: the partitions of a page and the token of the next one.
abbrev pub Segment : Type 0
Segment = Option (ℕ × ℕ)

abbrev pub Pages : Type 0
Pages = Segment → Text → Outcome (List GluePartitionInfo × Text)

abbrev pub segment_of : ℕ → ℕ → Segment
segment_of number total = if ltb 1 total then some (number, total) else none

-- the partitions of a page, before those of the pages that follow it
abbrev pub with_next :
    (Text → Outcome (List GluePartitionInfo))
    → List GluePartitionInfo × Text
    → Outcome (List GluePartitionInfo)
with_next next (partitions, []) = ok partitions
with_next next (partitions, c ∷ token) = next (c ∷ token) >>= λ rest. ok (partitions ++ rest)

-- FetchPartitionSegment, from the page of a token on
unfoldable pub fetch_partition_segment :
    Pages → ℕ → Segment → Text → Outcome (List GluePartitionInfo)
fetch_partition_segment pages zero segment token = err out_of_fuel
fetch_partition_segment pages (suc fuel) segment token =
    pages segment token >>= with_next (fetch_partition_segment pages fuel segment)

-- GetPartitionSegmentCount, of the setting and the endpoint
abbrev pub max_partition_segments : ℕ
max_partition_segments = 10

abbrev pub setting_or_zero : Option ℕ → ℕ
setting_or_zero none = 0
setting_or_zero (some n) = n

unfoldable pub get_partition_segment_count : Option ℕ → Text → ℕ
get_partition_segment_count setting endpoint =
    let wanted = setting_or_zero setting in
    let segments = if wanted == 0 then (if is_empty endpoint then 8 else 1) else wanted in
    if ltb max_partition_segments segments then max_partition_segments else segments

-- the results of the segments from a number on, `left` of them
unfoldable pub fetch_segments : Pages → ℕ → ℕ → ℕ → ℕ → Outcome (List GluePartitionInfo)
unfolding fetch_partition_segment
fetch_segments pages fuel total number zero = ok []
fetch_segments pages fuel total number (suc left) = do
  partitions ← fetch_partition_segment pages fuel (segment_of number total) []
  rest ← fetch_segments pages fuel total (number + 1) left
  ok (partitions ++ rest)

abbrev pub seen_key : Text → List Text → Bool
seen_key key [] = false
seen_key key (k ∷ seen) = text_eq k key || seen_key key seen

module _ ⦃db : DuckDb⦄ where
  -- the text that identifies a partition
  abbrev pub partition_key : GluePartitionInfo → Text
  partition_key partition = join partition.values (31 ∷ [])

  -- the partitions whose key was not seen before
  unfoldable pub drop_seen : List Text → List GluePartitionInfo → List GluePartitionInfo
  drop_seen seen [] = []
  drop_seen seen (partition ∷ partitions) =
      if seen_key (partition_key partition) seen
      then drop_seen seen partitions
      else partition ∷ drop_seen (partition_key partition ∷ seen) partitions

  -- GetPartitions
  unfoldable pub get_partitions : Pages → ℕ → Option ℕ → Text → Outcome (List GluePartitionInfo)
  unfolding fetch_segments get_partition_segment_count drop_seen
  get_partitions pages fuel setting endpoint =
      let total = get_partition_segment_count setting endpoint in
      fetch_segments pages fuel total 0 total >>= λ partitions.
      ok (if ltb 1 total then drop_seen [] partitions else partitions)
