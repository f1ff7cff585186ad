-- ===== src/Query/Listings.antt =====
-- The directory listings that a statement keeps (HiveQueryCache) and those that a connection keeps
-- (HiveListingCache), src/planning/hive_query_cache.cpp. The file system that lists a directory is a
-- parameter with a state of its own.
use duckdb_aws_glue.Base.{
  ℕ, ◌+◌, Bool, List, [], ◌∷◌, ◌++◌, Text, text, text_eq, if◌then◌else◌, Option, none, some,
  Outcome, ok, err,
}
use duckdb_aws_glue.DuckDb.{DuckDb, r_trim_of}

-- HiveQueryCache::TableKey
abbrev pub table_key : Text → Text → Text → Text
table_key catalog database table = catalog ++ (31 ∷ (database ++ (31 ∷ table)))

-- `listings` are the connection's; the listings of a statement and its count of scans follow.
pub record Caches (L : Type 0) : Type 0 where
  pub listings : List (Text × L)
  pub directory_listings : List (Text × L)
  pub scan_count : ℕ

abbrev pub lookup : {L : Type 0} → Text → List (Text × L) → Option L
lookup key [] = none
lookup key ((k, l) ∷ rest) = if text_eq k key then some l else lookup key rest

module _ {L W : Type 0} (glob : Text → W → Outcome L × W) where
  abbrev pub Result : Type 0
  Result = Outcome L × (Caches L × W)

  -- what is kept of a listing that was asked for, where listing did not throw
  abbrev pub listed_in : (L → Caches L) → Caches L → Outcome L × W → Result
  listed_in keep caches (ok l, w) = (ok l, (keep l, w))
  listed_in keep caches (err e, w) = (err e, (caches, w))

  abbrev pub found_or : Option L → Caches L → W → Result → Result
  found_or (some l) caches w listed = (ok l, (caches, w))
  found_or none caches w listed = listed

  -- HiveListingCache::GetListing
  unfoldable pub get_listing : Text → Caches L → W → Result
  get_listing key caches w = found_or (lookup key caches.listings) caches w (
      listed_in (λ l. record caches { listings = (key, l) ∷ caches.listings }) caches
        (glob (key ++ text "/**") w))

  -- the listing of a statement
  unfoldable pub get_statement_listing : Text → Caches L → W → Result
  get_statement_listing key caches w = found_or (lookup key caches.directory_listings) caches w (
      listed_in (λ l. record caches { directory_listings = (key, l) ∷ caches.directory_listings })
        caches (glob (key ++ text "/**") w))

  -- HiveQueryCache::GetDirectoryListing
  unfoldable pub get_directory_listing : ⦃db : DuckDb⦄ → Text → Bool → Caches L → W → Result
  unfolding get_listing get_statement_listing
  get_directory_listing directory cache_in_connection caches w =
      if cache_in_connection
      then get_listing (r_trim_of directory (text "/")) caches w
      else get_statement_listing (r_trim_of directory (text "/")) caches w

  -- the listings that a statement asks for, one after the other; one that throws ends none of the others
  unfoldable pub get_all : ⦃db : DuckDb⦄ → List (Text × Bool) → Caches L → W → Caches L × W
  unfolding get_directory_listing
  get_all [] caches w = (caches, w)
  get_all ((directory, cached) ∷ rest) caches w =
      let result = get_directory_listing directory cached caches w in
      get_all rest result.1.0 result.1.1

module _ {L : Type 0} where
  -- NextScanId
  abbrev pub next_scan_id : Caches L → ℕ × Caches L
  next_scan_id caches =
      (caches.scan_count + 1, record caches { scan_count = caches.scan_count + 1 })

  -- QueryEnd of both caches, with whether glue_cache_listings is set
  unfoldable pub query_end : Bool → Caches L → Caches L
  query_end cache_listings caches = record {
    listings = if cache_listings then caches.listings else [];
    directory_listings = [];
    scan_count = 0;
  }

  -- TransactionCommit, with whether metadata is kept for the connection
  unfoldable pub transaction_commit : Bool → Caches L → Caches L
  transaction_commit connection_scoped caches = record caches {
    listings = if connection_scoped then caches.listings else [];
  }

  -- TransactionRollback, and ClearHiveListingCache
  unfoldable pub clear_hive_listing_cache : Caches L → Caches L
  clear_hive_listing_cache caches = record caches { listings = [] }
