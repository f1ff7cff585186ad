-- ===== src/Partitions/Pages.antt =====
-- The pages and segments of GetPartitions (src/api/glue_partition_api.cpp).
use duckdb_aws_glue.Base.{
  ℕ, zero, suc, ◌≤◌, ◌<◌, ◌⊎◌, ◌≡◌, refl, List, [], ◌∷◌, ◌++◌, append-nil, Text, length, Option,
  none, some, ok, arith,
}
use duckdb_aws_glue.Partitions.Segments.{
  GluePartitionInfo, Pages, Segment, fetch_partition_segment, get_partition_segment_count,
  setting_or_zero,
}

-- GetPartitions runs between 1 and 10 chains of requests, and as many as the setting asks for where
-- it asks for one of these.
pub get_partition_segment_count_lem :
    (setting : Option ℕ) (endpoint : Text)
    → (1 ≤ get_partition_segment_count setting endpoint)
      × (get_partition_segment_count setting endpoint ≤ 10)
      × ((setting_or_zero setting ≡ 0)
          ⊎ (10 < setting_or_zero setting)
          ⊎ (get_partition_segment_count setting endpoint ≡ setting_or_zero setting))
unfolding get_partition_segment_count
get_partition_segment_count_lem none endpoint = ground arith
get_partition_segment_count_lem (some n) endpoint = ground arith

-- The server answers the pages of a segment from a token on, one chunk each.
pub data Serves (pages : Pages) (segment : Segment)
    : Text → List (List GluePartitionInfo) → Type 0 where
  final :
      {token : Text} {chunk : List GluePartitionInfo}
      → pages segment token ≡ ok (chunk, [])
      → Serves pages segment token (chunk ∷ [])
  more :
      {token next : Text} {c : ℕ} {chunk : List GluePartitionInfo}
      {chunks : List (List GluePartitionInfo)}
      → pages segment token ≡ ok (chunk, c ∷ next)
      → Serves pages segment (c ∷ next) chunks
      → Serves pages segment token (chunk ∷ chunks)

abbrev pub concat : List (List GluePartitionInfo) → List GluePartitionInfo
concat [] = []
concat (chunk ∷ chunks) = chunk ++ concat chunks

-- FetchPartitionSegment follows the tokens to the last page: it returns the partitions of all pages of the
-- segment, in their order, with as much fuel as there are pages.
pub fetch_partition_segment_lem :
    (pages : Pages) (fuel : ℕ) (segment : Segment) (token : Text)
    (chunks : List (List GluePartitionInfo))
    → Serves pages segment token chunks
    → length chunks ≤ fuel
    → fetch_partition_segment pages fuel segment token ≡ ok (concat chunks)
unfolding fetch_partition_segment
fetch_partition_segment_lem pages zero segment token chunks (final e) n = absurd (omega arith)
fetch_partition_segment_lem pages zero segment token chunks (more e s) n = absurd (omega arith)
fetch_partition_segment_lem pages (suc fuel) segment token chunks (final {chunk} e) n =
    rw (e, append-nil chunk) refl
fetch_partition_segment_lem pages (suc fuel) segment token chunks
      (more {next} {c} {chunks = rest} e s) n =
    rw (e, fetch_partition_segment_lem pages fuel segment (c ∷ next) rest s (omega arith)) refl
