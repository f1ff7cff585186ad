-- ===== src/Partitions/Registered.antt =====
-- What BatchCreatePartitions promises (src/api/glue_partition_api.cpp).
use mathlib.Core.Path.{subst, ap, ◌∙◌}
use duckdb_aws_glue.Base.{
  ℕ, zero, suc, ◌+◌, ◌≤◌, ◌≡◌, ◌≢◌, refl, Bool, true, false, List, [], ◌∷◌, Text, length, take,
  drop, length-take, length-drop, ok, err, out_of_fuel, arith, Bool-cases, inl, inr, ◌⊎◌, Option,
  none, some,
}
use duckdb_aws_glue.Partitions.Service.{
  Values, GluePartitionInput, GlueService, Documented, values_eq, has_input,
}
use duckdb_aws_glue.Partitions.Delete.{max_attempts}
use duckdb_aws_glue.Partitions.Answers.{then_after, and_then-NoFuel}
use duckdb_aws_glue.Partitions.Create.{
  create_batch_size, Indexed, InjectedPartitionFailure, create_attempts, create_batches,
  batch_create_partitions, failure_from_settings, enumerate, parse_failure,
}
use duckdb_aws_glue.Partitions.Matched.{pends}
use duckdb_aws_glue.Partitions.Attempts.{create_attempts-there, create_attempts-NoFuel}

pends-take-drop :
    (n : ℕ) (xs : List Indexed) (v : Values)
    → pends v xs ≡ true
    → (pends v (take n xs) ≡ true) ⊎ (pends v (drop n xs) ≡ true)
unfolding take drop
pends-take-drop zero xs v m = inr m
pends-take-drop (suc n) [] v m = inr m
pends-take-drop (suc n) ((i, p) ∷ xs) v m = elim (Bool-cases (values_eq p.values v)) [
  | inl e ↦ inl (rw (e) refl)
  | inr e ↦ elim (pends-take-drop n xs v (rw (e) at m)) [ inl a ↦ inl (rw (e) a) | inr b ↦ inr b ]
]

length-drop-tail :
    (n : ℕ) (x : Indexed) (xs : List Indexed) → length (drop (suc n) (x ∷ xs)) ≤ length xs
unfolding drop
length-drop-tail n x xs = length-drop n xs

module _ {S : Type 0} {glue : GlueService S} {exists : S → Values → Bool}
    (docs : Documented glue exists) (injected : InjectedPartitionFailure) where
  create_batches-there :
      (fuel : ℕ) (pending : List Indexed) (existing found : List GluePartitionInput) (s s' : S)
      → create_batches glue injected fuel pending existing s ≡ (ok found, s')
      → (v : Values) → (exists s v ≡ true) ⊎ (pends v pending ≡ true)
      → exists s' v ≡ true
  unfolding create_batches
  create_batches-there fuel [] existing found s s' h v (inl e) =
      subst (λ t. exists t v ≡ true) (ap (λ p. p.1) h) e
  create_batches-there fuel [] existing found s s' h v (inr e) = absurd (cc e)
  create_batches-there zero (p ∷ rest) existing found s s' h v e = absurd (cc (ap (λ p. p.0) h))
  create_batches-there (suc fuel) (p ∷ rest) existing found s s' h v e =
      then_after
        (create_attempts glue injected max_attempts 0 (take create_batch_size (p ∷ rest)) existing
          s)
        _ h
        (λ found₁ s₁ h₁ h₂.
          create_batches-there fuel (drop create_batch_size (p ∷ rest)) found₁ found s₁ s' h₂ v
            (registered found₁ s₁ h₁ e))
    where
      there :
          (found₁ : List GluePartitionInput) (t : S)
          → create_attempts glue injected max_attempts 0
              (take create_batch_size (p ∷ rest))
              existing
              s
            ≡ (ok found₁, t)
          → (exists s v ≡ true) ⊎ (pends v (take create_batch_size (p ∷ rest)) ≡ true)
          → exists t v ≡ true
      there found₁ t h₁ e =
          create_attempts-there docs injected max_attempts 0 (take create_batch_size (p ∷ rest))
            existing found₁ s t (length-take create_batch_size (p ∷ rest)) h₁ v e

      registered :
          (found₁ : List GluePartitionInput) (t : S)
          → create_attempts glue injected max_attempts 0
              (take create_batch_size (p ∷ rest))
              existing
              s
            ≡ (ok found₁, t)
          → (exists s v ≡ true) ⊎ (pends v (p ∷ rest) ≡ true)
          → (exists t v ≡ true) ⊎ (pends v (drop create_batch_size (p ∷ rest)) ≡ true)
      registered found₁ t h₁ (inl e) = inl (there found₁ t h₁ (inl e))
      registered found₁ t h₁ (inr m) = elim (pends-take-drop create_batch_size (p ∷ rest) v m) [
        | inl a ↦ inl (there found₁ t h₁ (inr a))
        | inr b ↦ inr b
      ]

  create_batches-NoFuel :
      (fuel : ℕ) (pending : List Indexed) (existing : List GluePartitionInput) (s : S)
      → length pending ≤ fuel
      → (create_batches glue injected fuel pending existing s).0 ≢ err out_of_fuel
  unfolding create_batches
  create_batches-NoFuel fuel [] existing s n = λ h. absurd (cc h)
  create_batches-NoFuel zero (p ∷ rest) existing s n = absurd (omega arith)
  create_batches-NoFuel (suc fuel) (p ∷ rest) existing s n =
      and_then-NoFuel
        (create_attempts glue injected max_attempts 0 (take create_batch_size (p ∷ rest)) existing
          s)
        _
        (create_attempts-NoFuel docs injected 4 0 (take create_batch_size (p ∷ rest)) existing s
          refl (λ e. absurd (omega arith)))
        (λ found s₁ h₁.
          create_batches-NoFuel fuel (drop create_batch_size (p ∷ rest)) found s₁
            (omega (arith, length-drop-tail 99 p rest)))

pends-enumerate :
    (index : ℕ) (partitions : List GluePartitionInput) (v : Values)
    → pends v (enumerate index partitions) ≡ has_input v partitions
pends-enumerate index [] v = refl
pends-enumerate index (p ∷ partitions) v = rw (pends-enumerate (index + 1) partitions v) refl

length-enumerate :
    (index : ℕ) (partitions : List GluePartitionInput)
    → length (enumerate index partitions) ≡ length partitions
length-enumerate index [] = refl
length-enumerate index (p ∷ partitions) = omega (arith, length-enumerate (index + 1) partitions)

failure_from_settings-NoFuel :
    (cast_ubigint : Text → Option ℕ) (setting : Option Text)
    → failure_from_settings cast_ubigint setting ≢ err out_of_fuel
unfolding parse_failure
failure_from_settings-NoFuel cast_ubigint none = λ h. absurd (cc h)
failure_from_settings-NoFuel cast_ubigint (some []) = λ h. absurd (cc h)
failure_from_settings-NoFuel cast_ubigint (some (c ∷ s)) = λ h. ground arith

-- BatchCreatePartitions returns only when every partition that it was given is registered, by this call or
-- before it, whichever errors the service answered with and whichever failures were injected.
pub batch_create_partitions-there :
    {S : Type 0} (glue : GlueService S) (exists : S → Values → Bool)
    → Documented glue exists
    → (cast_ubigint : Text → Option ℕ) (setting : Option Text) (read_only : Bool)
      (partitions found : List GluePartitionInput) (s s' : S)
    → batch_create_partitions glue cast_ubigint setting read_only partitions s ≡ (ok found, s')
    → (v : Values) → has_input v partitions ≡ true
    → exists s' v ≡ true
unfolding batch_create_partitions
batch_create_partitions-there glue exists docs cast setting true partitions found s s' h v m =
    absurd (cc (ap (λ p. p.0) h))
batch_create_partitions-there glue exists docs cast setting false [] found s s' h v m =
    absurd (cc m)
batch_create_partitions-there glue exists docs cast setting false (p ∷ partitions) found s s' h v
      m =
    then_after (failure_from_settings cast setting, s) _ h
      (λ injected s₁ h₁ h₂.
        create_batches-there docs injected (length (p ∷ partitions)) (enumerate 0 (p ∷ partitions))
          [] found s₁ s' h₂ v (inr (pends-enumerate 0 (p ∷ partitions) v ∙ m)))

-- BatchCreatePartitions ends: no batch is sent more than four times, whatever the service answers.
pub batch_create_partitions-NoFuel :
    {S : Type 0} (glue : GlueService S) (exists : S → Values → Bool)
    → Documented glue exists
    → (cast_ubigint : Text → Option ℕ) (setting : Option Text) (read_only : Bool)
      (partitions : List GluePartitionInput) (s : S)
    → (batch_create_partitions glue cast_ubigint setting read_only partitions s).0 ≢ err out_of_fuel
unfolding batch_create_partitions
batch_create_partitions-NoFuel glue exists docs cast setting true partitions s = λ h. absurd (cc h)
batch_create_partitions-NoFuel glue exists docs cast setting false [] s = λ h. absurd (cc h)
batch_create_partitions-NoFuel glue exists docs cast setting false (p ∷ partitions) s =
    and_then-NoFuel (failure_from_settings cast setting, s) _
      (failure_from_settings-NoFuel cast setting)
      (λ injected s₁ h₁.
        create_batches-NoFuel docs injected (length (p ∷ partitions)) (enumerate 0 (p ∷ partitions))
          [] s₁ (omega (arith, length-enumerate 0 (p ∷ partitions))))
