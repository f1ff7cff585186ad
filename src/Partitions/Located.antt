-- ===== src/Partitions/Located.antt =====
-- What PartitionLocations promises (src/api/glue_partition_api.cpp).
use mathlib.Core.Path.{subst}
use duckdb_aws_glue.Base.{
  ℕ, zero, suc, ◌+◌, ◌*◌, ◌≤◌, ◌≡◌, ◌≢◌, ◌⊎◌, ◌↔◌, inl, inr, sym, ap, ◌∙◌, arith, Bool, true, List,
  [], ◌∷◌, length, take, drop, length-take, ◌==◌, ltb, ok, err, out_of_fuel, Bool-cases,
  ok-injective,
}
use duckdb_aws_glue.Partitions.Service.{Values, mem}
use duckdb_aws_glue.Partitions.Answers.{
  then_after, and_then-NoFuel, mem-take-drop, length-drop-cons,
}
use duckdb_aws_glue.Partitions.Locate.{
  Locations, has_location, BatchGet, DocumentedGet, get_batch_size, add_found, failed_attempts,
  locate_attempts, locate_batches, partition_locations,
}
use duckdb_aws_glue.Partitions.Finds.{Finds, locate_attempts-Finds}

module _ {S : Type 0} {get : BatchGet S} {exists : S → Values → Bool}
    (docs : DocumentedGet get exists) where
  Finds-both :
      (first later keys : List Values) (existing found result : Locations) (s s₁ : S)
      → ((v : Values) → exists s₁ v ≡ exists s v)
      → ((v : Values) → mem v keys ≡ true → (mem v first ≡ true) ⊎ (mem v later ≡ true))
      → Finds docs first existing found s
      → Finds docs later found result s₁
      → Finds docs keys existing result s
  Finds-both first later keys existing found result s s₁ kept parts a b v = (forth, back)
    where
      forth :
          (has_location v existing ≡ true) ⊎ ((mem v keys ≡ true) × (exists s v ≡ true))
          → has_location v result ≡ true
      forth (inl there) = (b v).0 (inl ((a v).0 (inl there)))
      forth (inr (m, x)) = elim (parts v m) [
        | inl f ↦ (b v).0 (inl ((a v).0 (inr (f, x))))
        | inr l ↦ (b v).0 (inr (l, kept v ∙ x))
      ]

      back : has_location v result ≡ true → (has_location v existing ≡ true) ⊎ (exists s v ≡ true)
      back r = elim ((b v).1 r) [ inl f ↦ (a v).1 f | inr x ↦ inr (sym (kept v) ∙ x) ]

  locate_batches-Finds :
      (fuel : ℕ) (keys : List Values) (existing result : Locations) (s s' : S)
      → locate_batches get fuel keys existing s ≡ (ok result, s')
      → Finds docs keys existing result s
  unfolding locate_batches
  locate_batches-Finds fuel [] existing result s s' h = λ v.
      let same : existing ≡ result = ok-injective (ap (λ p. p.0) h) in
      (
        λ e. elim e [
          | inl there ↦ subst (λ m. has_location v m ≡ true) same there
          | inr (m, x) ↦ absurd (cc m)
        ],
        λ there. inl (subst (λ m. has_location v m ≡ true) (sym same) there),
      )
  locate_batches-Finds zero (k ∷ keys) existing result s s' h = absurd (cc (ap (λ p. p.0) h))
  locate_batches-Finds (suc fuel) (k ∷ keys) existing result s s' h =
      let batch = take get_batch_size (k ∷ keys) in
      then_after (locate_attempts get (4 * length batch + 4) 0 batch existing s) _ h
        (λ found s₁ h₁ h₂.
          let (finds, kept) =
            locate_attempts-Finds docs (4 * length batch + 4) 0 batch existing found s s₁
              (length-take get_batch_size (k ∷ keys)) h₁ in
          Finds-both batch (drop get_batch_size (k ∷ keys)) (k ∷ keys) existing found result s s₁
            kept (mem-take-drop get_batch_size (k ∷ keys)) finds
            (locate_batches-Finds fuel (drop get_batch_size (k ∷ keys)) found result s₁ s' h₂))

  locate_attempts-NoFuel :
      (fuel attempt : ℕ) (keys : List Values) (existing : Locations) (s : S)
      → attempt ≤ 4
      → 4 * length keys + 4 ≤ fuel + attempt
      → (locate_attempts get fuel attempt keys existing s).0 ≢ err out_of_fuel
  unfolding locate_attempts
  locate_attempts-NoFuel fuel attempt [] existing s a n = λ h. absurd (cc h)
  locate_attempts-NoFuel zero attempt (k ∷ keys) existing s a n = absurd (omega arith)
  locate_attempts-NoFuel (suc fuel) attempt (k ∷ keys) existing s a n =
      elim (Bool-cases (attempt == 4)) [
        | inl last ↦ λ h. absurd (cc (rw (last) at h))
        | inr more ↦ λ h.
            and_then-NoFuel (get (k ∷ keys) s) _ (docs.get-throws (k ∷ keys) s)
              (λ answer s₁ h₁.
                let short : length answer.1 ≤ length (k ∷ keys) =
                  docs.get-length (k ∷ keys) answer.1 answer.0 s s₁ h₁ in
                let early : attempt ≤ 3 = ground arith in
                elim (Bool-cases (ltb (length answer.1) (length (k ∷ keys)))) [
                  | inl progress ↦
                      locate_attempts-NoFuel fuel
                        (failed_attempts attempt (length answer.1) (length (k ∷ keys))) answer.1
                        (add_found answer.0 existing) s₁ (rw (progress) (omega arith))
                        (rw (progress) (ground (arith, early)))
                  | inr stuck ↦
                      locate_attempts-NoFuel fuel
                        (failed_attempts attempt (length answer.1) (length (k ∷ keys))) answer.1
                        (add_found answer.0 existing) s₁ (rw (stuck) (omega (arith, early)))
                        (rw (stuck) (omega (arith, short)))
                ])
              (rw (more) at h)
      ]

  locate_batches-NoFuel :
      (fuel : ℕ) (keys : List Values) (existing : Locations) (s : S)
      → length keys ≤ fuel
      → (locate_batches get fuel keys existing s).0 ≢ err out_of_fuel
  unfolding locate_batches
  locate_batches-NoFuel fuel [] existing s n = λ h. absurd (cc h)
  locate_batches-NoFuel zero (k ∷ keys) existing s n = absurd (omega arith)
  locate_batches-NoFuel (suc fuel) (k ∷ keys) existing s n =
      let batch = take get_batch_size (k ∷ keys) in
      and_then-NoFuel (locate_attempts get (4 * length batch + 4) 0 batch existing s) _
        (locate_attempts-NoFuel (4 * length batch + 4) 0 batch existing s (omega arith)
          (omega arith))
        (λ found s₁ h₁.
          locate_batches-NoFuel fuel (drop get_batch_size (k ∷ keys)) found s₁
            (omega (arith, length-drop-cons 999 k keys)))

-- PartitionLocations, where it returns, has found exactly the partitions that exist among those it was asked
-- for, however often the service left some of them unprocessed.
pub partition_locations-exists :
    {S : Type 0} (get : BatchGet S) (exists : S → Values → Bool)
    → DocumentedGet get exists
    → (partitions : List Values) (result : Locations) (s s' : S)
    → partition_locations get partitions s ≡ (ok result, s')
    → (v : Values) → mem v partitions ≡ true
    → (has_location v result ≡ true) ↔ (exists s v ≡ true)
unfolding partition_locations
partition_locations-exists get exists docs partitions result s s' h v m =
    let finds = locate_batches-Finds docs (length partitions) partitions [] result s s' h v in
    (λ r. elim (finds.1 r) [ inl e ↦ absurd (cc e) | inr x ↦ x ], λ x. finds.0 (inr (m, x)))

-- PartitionLocations ends: at most four requests after one that processed a partition process none.
pub partition_locations-NoFuel :
    {S : Type 0} (get : BatchGet S) (exists : S → Values → Bool)
    → DocumentedGet get exists
    → (partitions : List Values) (s : S)
    → (partition_locations get partitions s).0 ≢ err out_of_fuel
unfolding partition_locations
partition_locations-NoFuel get exists docs partitions s =
    locate_batches-NoFuel docs (length partitions) partitions [] s (omega arith)
