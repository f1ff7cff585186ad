-- ===== src/Tests/LocateTests.antt =====
-- Instances of the theorems about PartitionLocations and about locations, with a service that processes
-- one partition in each request.
use mathlib.Core.Path.{subst}
use duckdb_aws_glue.Base.{
  ◌≤◌, ◌≡◌, ◌≢◌, ◌⊎◌, ◌↔◌, inl, inr, refl, sym, ap, arith, Bool, true, false, List, [], ◌∷◌, ◌++◌,
  text, text_eq, length, take, drop, Outcome, ok, err, out_of_fuel, Bool-cases, ok-injective,
  trim_end, drop_while,
}
use duckdb_aws_glue.DuckDb.{lower_byte}
use duckdb_aws_glue.DuckDb.Ascii.{ascii}
use duckdb_aws_glue.Partitions.Service.{Values, values_eq, values_eq_sound, mem, emplace}
use duckdb_aws_glue.Partitions.Locate.{
  Locations, has_location, DocumentedGet, add_found, locate_attempts, locate_batches,
  partition_locations,
}
use duckdb_aws_glue.Partitions.Located.{partition_locations-exists, partition_locations-NoFuel}
use duckdb_aws_glue.Table.Location.{comparable_location, locations_overlap}
use duckdb_aws_glue.Table.Overlap.{IsBelow, locations_overlap_iff, comparable_location-s3}

abbrev there : List Values → Values → Bool
there partitions v = mem v partitions

abbrev located : Bool → Values → Locations
located true v = (v, text "s3://b") ∷ []
located false v = []

-- the first key alone is processed
abbrev one_at_a_time : List Values → List Values → Outcome (Locations × List Values) × List Values
one_at_a_time [] partitions = (ok ([], []), partitions)
one_at_a_time (k ∷ keys) partitions = (ok (located (mem k partitions) k, keys), partitions)

one_exists : (keys s : List Values) (v : Values) → there (one_at_a_time keys s).1 v ≡ there s v
one_exists [] s v = refl
one_exists (k ∷ keys) s v = refl

one_found :
    (keys left : List Values) (found : Locations) (s s' : List Values)
    → one_at_a_time keys s ≡ (ok (found, left), s')
    → (v : Values) → mem v keys ≡ true
    → there s v ≡ true
    → (has_location v found ≡ true) ⊎ (mem v left ≡ true)
one_found [] left found s s' h v m x = absurd (cc m)
one_found (k ∷ keys) left found s s' h v m x =
    let answer = ok-injective (ap (λ p. p.0) h) in
    elim (Bool-cases (values_eq k v)) [
      | inl same ↦
          let e : k ≡ v = values_eq_sound k v same in
          let have : mem k s ≡ true = rw (e) x in
          inl (subst (λ a. has_location v a.0 ≡ true) answer (rw (have, same) refl))
      | inr other ↦ inr (subst (λ a. mem v a.1 ≡ true) answer (rw (other) at m))
    ]

one_sound :
    (keys left : List Values) (found : Locations) (s s' : List Values)
    → one_at_a_time keys s ≡ (ok (found, left), s')
    → (v : Values) → has_location v found ≡ true
    → there s v ≡ true
one_sound [] left found s s' h v f =
    let none : has_location v [] ≡ true =
      subst (λ a. has_location v a.0 ≡ true) (sym (ok-injective (ap (λ p. p.0) h))) f in
    absurd (cc none)
one_sound (k ∷ keys) left found s s' h v f =
    sound (mem k s) refl
      (subst (λ a. has_location v a.0 ≡ true) (sym (ok-injective (ap (λ p. p.0) h))) f)
  where
    sound : (b : Bool) → mem k s ≡ b → has_location v (located b k) ≡ true → there s v ≡ true
    sound true have f = elim (Bool-cases (values_eq k v)) [
      | inl same ↦ let e : k ≡ v = values_eq_sound k v same in rw (← e) have
      | inr other ↦ absurd (cc (rw (other) at f))
    ]
    sound false have f = absurd (cc f)

one-length :
    (keys left : List Values) (found : Locations) (s s' : List Values)
    → one_at_a_time keys s ≡ (ok (found, left), s')
    → length left ≤ length keys
one-length [] left found s s' h =
    subst (λ a. length a.1 ≤ 0) (ok-injective (ap (λ p. p.0) h)) (omega arith)
one-length (k ∷ keys) left found s s' h =
    subst (λ a. length a.1 ≤ length (k ∷ keys)) (ok-injective (ap (λ p. p.0) h)) (omega arith)

one_throws : (keys s : List Values) → (one_at_a_time keys s).0 ≢ err out_of_fuel
one_throws [] s h = cc
one_throws (k ∷ keys) s h = cc

one-Documented : DocumentedGet one_at_a_time there
one-Documented = record {
  get-exists = one_exists;
  get-found = λ keys left found s s' n. one_found keys left found s s';
  get-sound = one_sound;
  get-length = one-length;
  get-throws = one_throws;
}

abbrev mon : Values
mon = text "mon" ∷ []

abbrev tue : Values
tue = text "tue" ∷ []

abbrev wanted : List Values
wanted = tue ∷ mon ∷ []

mon_found :
    partition_locations one_at_a_time wanted (mon ∷ []) ≡ (ok ((mon, text "s3://b") ∷ []), mon ∷ [])
unfolding partition_locations locate_batches locate_attempts add_found emplace take drop values_eq
    text_eq
mon_found = refl

partition_locations-exists_example :
    (has_location mon ((mon, text "s3://b") ∷ []) ≡ true) ↔ (there (mon ∷ []) mon ≡ true)
partition_locations-exists_example =
    partition_locations-exists one_at_a_time there one-Documented wanted ((mon, text "s3://b") ∷ [])
      (mon ∷ []) (mon ∷ []) mon_found mon (unfold values_eq text_eq in refl)

partition_locations-NoFuel_example :
    (partition_locations one_at_a_time wanted (mon ∷ [])).0 ≢ err out_of_fuel
partition_locations-NoFuel_example =
    partition_locations-NoFuel one_at_a_time there one-Documented wanted (mon ∷ [])

locations_overlap_iff_example : (locations_overlap (text "s3://b/a") (text "s3://b/ab") ≡ true) ↔ (
    (text "s3://b/a" ≡ text "s3://b/ab")
    ⊎ IsBelow (text "s3://b/a") (text "s3://b/ab")
    ⊎ IsBelow (text "s3://b/ab") (text "s3://b/a"))
locations_overlap_iff_example = locations_overlap_iff (text "s3://b/a") (text "s3://b/ab")

comparable_location-s3_example :
    comparable_location (text "S3A://" ++ text "b/a/")
    ≡ comparable_location (text "s3://" ++ text "b/a")
unfolding ascii
comparable_location-s3_example =
    comparable_location-s3 (text "S3A://") (text "s3://") (text "b/a/") (text "b/a")
      (inr (inl (unfold ascii lower_byte in refl))) (inl (unfold ascii lower_byte in refl))
      (unfold ascii trim_end drop_while in (λ e. cc)) (unfold ascii trim_end drop_while in refl)
