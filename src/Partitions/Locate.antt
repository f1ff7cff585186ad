-- ===== src/Partitions/Locate.antt =====
-- PartitionLocations of src/api/glue_partition_api.cpp. A request may leave partitions unprocessed; only a request
-- that processes none counts as a failed attempt. The pauses between attempts are not modelled. The fuel of a batch
-- is four requests for each partition, and four more.
use duckdb_aws_glue.Base.{
  ℕ, zero, suc, ◌+◌, ◌*◌, ◌≤◌, ◌≡◌, ◌≢◌, ◌⊎◌, Bool, true, false, ◌||◌, List, [], ◌∷◌, Text, length,
  take, drop, ◌==◌, ltb, if◌then◌else◌, ok, err, io, out_of_fuel,
}
use duckdb_aws_glue.Partitions.Service.{Values, values_eq, mem, emplace, Run, and_then}

abbrev pub Locations : Type 0
Locations = List (Values × Text)

-- whether there is a location for the values
abbrev pub has_location : Values → Locations → Bool
has_location v [] = false
has_location v ((u, l) ∷ rest) = values_eq u v || has_location v rest

-- BatchGetPartition: the locations of the partitions found, and the keys left unprocessed
abbrev pub BatchGet : Type 0 → Type 0
BatchGet S = List Values → Run S (Locations × List Values)

-- What Glue documents of it: it changes nothing; within the limit of a request, a partition that was asked for and
-- exists is found or left unprocessed; what is found exists; no more is left than was asked for.
pub record DocumentedGet {S : Type 0} (get : BatchGet S) (exists : S → Values → Bool) : Type 0 where
  pub get-exists : (keys : List Values) (s : S) (v : Values) → exists (get keys s).1 v ≡ exists s v
  pub get-found :
      (keys left : List Values) (found : Locations) (s s' : S)
      → length keys ≤ 1000
      → get keys s ≡ (ok (found, left), s')
      → (v : Values) → mem v keys ≡ true
      → exists s v ≡ true
      → (has_location v found ≡ true) ⊎ (mem v left ≡ true)
  pub get-sound :
      (keys left : List Values) (found : Locations) (s s' : S)
      → get keys s ≡ (ok (found, left), s')
      → (v : Values) → has_location v found ≡ true
      → exists s v ≡ true
  pub get-length :
      (keys left : List Values) (found : Locations) (s s' : S)
      → get keys s ≡ (ok (found, left), s')
      → length left ≤ length keys
  pub get-throws : (keys : List Values) (s : S) → (get keys s).0 ≢ err out_of_fuel

abbrev pub get_batch_size : ℕ
get_batch_size = 1000

unfoldable pub add_found : Locations → Locations → Locations
unfolding emplace
add_found [] existing = existing
add_found ((v, l) ∷ found) existing = add_found found (emplace v l existing)

-- the attempts that have failed after a request that left `left` of `sent` keys
abbrev pub failed_attempts : ℕ → ℕ → ℕ → ℕ
failed_attempts attempt left sent = if ltb left sent then 0 else attempt + 1

module _ {S : Type 0} (get : BatchGet S) where
  -- the requests of one batch
  unfoldable pub locate_attempts : ℕ → ℕ → List Values → Locations → Run S Locations
  unfolding add_found
  locate_attempts fuel attempt [] existing s = (ok existing, s)
  locate_attempts zero attempt (k ∷ keys) existing s = (err out_of_fuel, s)
  locate_attempts (suc fuel) attempt (k ∷ keys) existing s =
      if attempt == 4
      then (err io, s)
      else and_then (get (k ∷ keys) s) (λ answer.
        locate_attempts fuel (failed_attempts attempt (length answer.1) (length (k ∷ keys)))
          answer.1 (add_found answer.0 existing))

  -- the batches from an offset on
  unfoldable pub locate_batches : ℕ → List Values → Locations → Run S Locations
  unfolding locate_attempts
  locate_batches fuel [] existing s = (ok existing, s)
  locate_batches zero (k ∷ keys) existing s = (err out_of_fuel, s)
  locate_batches (suc fuel) (k ∷ keys) existing s =
      and_then
        (locate_attempts (4 * length (take get_batch_size (k ∷ keys)) + 4) 0
          (take get_batch_size (k ∷ keys)) existing s)
        (locate_batches fuel (drop get_batch_size (k ∷ keys)))

  -- PartitionLocations
  unfoldable pub partition_locations : List Values → Run S Locations
  unfolding locate_batches
  partition_locations partitions = locate_batches (length partitions) partitions []
