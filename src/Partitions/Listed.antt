-- ===== src/Partitions/Listed.antt =====
-- What GetPartitions promises (src/api/glue_partition_api.cpp).
use duckdb_aws_glue.Base.{
  ℕ, zero, suc, ◌+◌, ◌≤◌, ◌≡◌, refl, ◌∙◌, Bool, true, false, ◌&&◌, ◌||◌, not, List, [], ◌∷◌, ◌++◌,
  append-nil, Text, text_eq, text_eq_refl, text_eq_sound, ok-injective, ltb, if◌then◌else◌, Option,
  ok, ◌>>=◌, arith, Bool-cases, inl, inr,
}
use duckdb_aws_glue.DuckDb.{DuckDb}
use duckdb_aws_glue.Partitions.Segments.{
  GluePartitionInfo, Pages, Segment, segment_of, fetch_partition_segment,
  get_partition_segment_count, fetch_segments, seen_key, partition_key, drop_seen, get_partitions,
}
use duckdb_aws_glue.Partitions.Pages.{get_partition_segment_count_lem}

module _ ⦃db : DuckDb⦄ where
  -- no key occurs twice, or is one of those seen
  abbrev pub fresh : List Text → List GluePartitionInfo → Bool
  fresh seen [] = true
  fresh seen (p ∷ ps) = not (seen_key (partition_key p) seen) && fresh (partition_key p ∷ seen) ps

  seen_after : List Text → List GluePartitionInfo → List Text
  seen_after seen [] = seen
  seen_after seen (p ∷ ps) = seen_after (partition_key p ∷ seen) ps

  abbrev covered : List Text → List GluePartitionInfo → Bool
  covered seen [] = true
  covered seen (p ∷ ps) = seen_key (partition_key p) seen && covered seen ps

  drop_seen-fresh :
      (seen : List Text) (ps rest : List GluePartitionInfo)
      → fresh seen ps ≡ true
      → drop_seen seen (ps ++ rest) ≡ ps ++ drop_seen (seen_after seen ps) rest
  unfolding drop_seen seen_after
  drop_seen-fresh seen [] rest h = refl
  drop_seen-fresh seen (p ∷ ps) rest h = elim (Bool-cases (seen_key (partition_key p) seen)) [
    | inl old ↦ absurd (cc (rw (old) at h))
    | inr new ↦ rw (new, drop_seen-fresh (partition_key p ∷ seen) ps rest (rw (new) at h)) refl
  ]

  drop_seen-covered :
      (seen : List Text) (ps : List GluePartitionInfo)
      → covered seen ps ≡ true
      → drop_seen seen ps ≡ []
  unfolding drop_seen
  drop_seen-covered seen [] h = refl
  drop_seen-covered seen (p ∷ ps) h = ground (arith, drop_seen-covered seen ps)

  seen_key-seen_after :
      (key : Text) (seen : List Text) (ps : List GluePartitionInfo)
      → seen_key key seen ≡ true
      → seen_key key (seen_after seen ps) ≡ true
  unfolding seen_after
  seen_key-seen_after key seen [] h = h
  seen_key-seen_after key seen (p ∷ ps) h =
      seen_key-seen_after key (partition_key p ∷ seen) ps (ground arith)

  covered-seen_after :
      (seen : List Text) (ps : List GluePartitionInfo) → covered (seen_after seen ps) ps ≡ true
  unfolding seen_after
  covered-seen_after seen [] = refl
  covered-seen_after seen (p ∷ ps) =
      rw
        (
          seen_key-seen_after (partition_key p) (partition_key p ∷ seen) ps
              (rw (text_eq_refl (partition_key p)) refl),
          covered-seen_after (partition_key p ∷ seen) ps,
        )
        refl

  covered-append :
      (seen : List Text) (ps qs : List GluePartitionInfo)
      → covered seen ps ≡ true
      → covered seen qs ≡ true
      → covered seen (ps ++ qs) ≡ true
  covered-append seen [] qs h k = k
  covered-append seen (p ∷ ps) qs h k = ground (arith, covered-append seen ps qs)

  abbrev repeated : ℕ → List GluePartitionInfo → List GluePartitionInfo
  repeated zero ps = []
  repeated (suc n) ps = ps ++ repeated n ps

  covered-repeated :
      (seen : List Text) (n : ℕ) (ps : List GluePartitionInfo)
      → covered seen ps ≡ true
      → covered seen (repeated n ps) ≡ true
  covered-repeated seen zero ps h = refl
  covered-repeated seen (suc n) ps h =
      covered-append seen ps (repeated n ps) h (covered-repeated seen n ps h)

  fetch_segments-repeated :
      (pages : Pages) (fuel total number left : ℕ) (ps : List GluePartitionInfo)
      → ((segment : Segment) → fetch_partition_segment pages fuel segment [] ≡ ok ps)
      → fetch_segments pages fuel total number left ≡ ok (repeated left ps)
  unfolding fetch_segments
  fetch_segments-repeated pages fuel total number zero ps h = refl
  fetch_segments-repeated pages fuel total number (suc left) ps h =
      rw
        (
          h (segment_of number total),
          fetch_segments-repeated pages fuel total (number + 1) left ps h,
        )
        refl

  drop_seen-repeated :
      (n : ℕ) (ps : List GluePartitionInfo)
      → fresh [] ps ≡ true
      → drop_seen [] (repeated (suc n) ps) ≡ ps
  drop_seen-repeated n ps h =
      drop_seen-fresh [] ps (repeated n ps) h
      ∙ (rw
          (drop_seen-covered (seen_after [] ps) (repeated n ps)
            (covered-repeated (seen_after [] ps) n ps (covered-seen_after [] ps)))
          (append-nil ps))

  -- A server that ignores Segment and answers every chain of requests with the whole table: GetPartitions
  -- returns each partition once and in the order of the server, however many chains it runs.
  pub get_partitions-ignored_segment :
      (pages : Pages) (fuel : ℕ) (setting : Option ℕ) (endpoint : Text)
      (ps : List GluePartitionInfo)
      → ((segment : Segment) → fetch_partition_segment pages fuel segment [] ≡ ok ps)
      → fresh [] ps ≡ true
      → get_partitions pages fuel setting endpoint ≡ ok ps
  unfolding get_partitions
  get_partitions-ignored_segment pages fuel setting endpoint ps h f =
      counted (get_partition_segment_count setting endpoint)
        (get_partition_segment_count_lem setting endpoint).0
    where
      counted :
          (total : ℕ)
          → 1 ≤ total
          → (fetch_segments pages fuel total 0 total >>= λ partitions.
              ok (if ltb 1 total then drop_seen [] partitions else partitions))
            ≡ ok ps
      counted zero n = absurd (omega arith)
      counted (suc zero) n = rw (fetch_segments-repeated pages fuel 1 0 1 ps h, append-nil ps) refl
      counted (suc (suc m)) n =
          rw
            (
              fetch_segments-repeated pages fuel (suc (suc m)) 0 (suc (suc m)) ps h,
              drop_seen-repeated (suc m) ps f,
            )
            (ground arith)

  abbrev pub has_key : Text → List GluePartitionInfo → Bool
  has_key key [] = false
  has_key key (p ∷ ps) = text_eq (partition_key p) key || has_key key ps

  fresh-drop_seen :
      (seen : List Text) (ps : List GluePartitionInfo) → fresh seen (drop_seen seen ps) ≡ true
  unfolding drop_seen
  fresh-drop_seen seen [] = refl
  fresh-drop_seen seen (p ∷ ps) = elim (Bool-cases (seen_key (partition_key p) seen)) [
    | inl old ↦ rw (old) (fresh-drop_seen seen ps)
    | inr new ↦ rw (new, new) (fresh-drop_seen (partition_key p ∷ seen) ps)
  ]

  has_key-drop_seen :
      (key : Text) (seen : List Text) (ps : List GluePartitionInfo)
      → seen_key key seen ≡ false
      → has_key key ps ≡ true
      → has_key key (drop_seen seen ps) ≡ true
  unfolding drop_seen
  has_key-drop_seen key seen [] n h = absurd (cc h)
  has_key-drop_seen key seen (p ∷ ps) n h = elim (Bool-cases (text_eq (partition_key p) key)) [
    | inl same ↦
        let e : partition_key p ≡ key = text_eq_sound (partition_key p) key same in
        let new : seen_key (partition_key p) seen ≡ false = rw (e) n in rw (new, same) refl
    | inr other ↦ elim (Bool-cases (seen_key (partition_key p) seen)) [
      | inl old ↦ rw (old) (has_key-drop_seen key seen ps n (rw (other) at h))
      | inr new ↦
          rw (new, other)
            (has_key-drop_seen key (partition_key p ∷ seen) ps (rw (other) n) (rw (other) at h))
    ]
  ]

  -- Whatever the server answers to several chains of requests, GetPartitions returns no two partitions with the
  -- same key, and drops none without returning another one that has its key.
  pub get_partitions-fresh :
      (pages : Pages) (fuel : ℕ) (setting : Option ℕ) (endpoint : Text)
      (fetched result : List GluePartitionInfo) (key : Text)
      → 2 ≤ get_partition_segment_count setting endpoint
      → fetch_segments pages fuel
          (get_partition_segment_count setting endpoint)
          0
          (get_partition_segment_count setting endpoint)
        ≡ ok fetched
      → get_partitions pages fuel setting endpoint ≡ ok result
      → has_key key fetched ≡ true
      → (fresh [] result ≡ true) × (has_key key result ≡ true)
  unfolding get_partitions
  get_partitions-fresh pages fuel setting endpoint fetched result key n e h k =
      let several : ltb 1 (get_partition_segment_count setting endpoint) ≡ true = ground arith in
      let same : drop_seen [] fetched ≡ result = ok-injective (rw (e, several) at h) in
      rw (← same) (fresh-drop_seen [] fetched, has_key-drop_seen key [] fetched refl k)
