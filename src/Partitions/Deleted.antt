-- ===== src/Partitions/Deleted.antt =====
-- What BatchDeletePartitions promises (src/api/glue_partition_api.cpp).
use mathlib.Core.Path.{subst, ap}
use duckdb_aws_glue.Base.{
  ℕ, zero, suc, ◌+◌, ◌≤◌, ◌≡◌, ◌≢◌, refl, Bool, true, false, List, [], ◌∷◌, text, length, take,
  drop, length-take, ok, err, out_of_fuel, arith, Bool-cases, inl, inr, ◌⊎◌,
}
use duckdb_aws_glue.Partitions.Service.{
  Values, PartitionError, GlueService, Documented, mem, refused,
}
use duckdb_aws_glue.Partitions.Delete.{
  max_attempts, delete_batch_size, deletions_left, delete_attempts, delete_batches,
  batch_delete_partitions,
}
use duckdb_aws_glue.Partitions.Answers.{
  and_then-eq-ok, and_then-NoFuel, deletions_left-mem, deletions_left-length, deletions_left-NoFuel,
  deletions_left-last, mem-take-drop, length-drop-cons,
}

module _ {S : Type 0} {glue : GlueService S} {exists : S → Values → Bool}
    (docs : Documented glue exists) where
  delete_attempts-gone :
      (fuel attempt : ℕ) (vs : List Values) (s s' : S)
      → length vs ≤ 25
      → delete_attempts glue fuel attempt vs s ≡ (ok tt, s')
      → (v : Values) → (exists s v ≡ false) ⊎ (mem v vs ≡ true)
      → exists s' v ≡ false
  unfolding delete_attempts
  delete_attempts-gone fuel attempt [] s s' n h v (inl e) =
      subst (λ t. exists t v ≡ false) (ap (λ p. p.1) h) e
  delete_attempts-gone fuel attempt [] s s' n h v (inr e) = absurd (cc e)
  delete_attempts-gone zero attempt (u ∷ vs) s s' n h v e = absurd (cc (ap (λ p. p.0) h))
  delete_attempts-gone (suc fuel) attempt (u ∷ vs) s s' n h v e =
      let (errors, s₁, h₁, h₂) = and_then-eq-ok (glue.delete_partitions (u ∷ vs) s) _ h in
      let (pending, s₂, h₃, h₄) =
        and_then-eq-ok (deletions_left attempt errors, s₁) (delete_attempts glue fuel (attempt + 1))
          h₂ in
      let left : deletions_left attempt errors ≡ ok pending = ap (λ p. p.0) h₃ in
      let same : s₁ ≡ s₂ = ap (λ p. p.1) h₃ in
      let short : length pending ≤ length errors =
        deletions_left-length attempt errors pending left in
      let fewer : length errors ≤ length (u ∷ vs) = docs.delete-errors (u ∷ vs) s s₁ errors h₁ in
      delete_attempts-gone fuel (attempt + 1) pending s₂ s' (omega (arith, short, fewer, n)) h₄ v (
        subst (λ t. (exists t v ≡ false) ⊎ (mem v pending ≡ true)) same
          (sent s s₁ errors pending h₁ left e))
    where
      sent :
          (t t' : S) (errors : List PartitionError) (pending : List Values)
          → glue.delete_partitions (u ∷ vs) t ≡ (ok errors, t')
          → deletions_left attempt errors ≡ ok pending
          → (exists t v ≡ false) ⊎ (mem v (u ∷ vs) ≡ true)
          → (exists t' v ≡ false) ⊎ (mem v pending ≡ true)
      sent t t' errors pending h₁ left (inl gone) =
          inl (
            subst (λ r. exists r v ≡ false) (ap (λ p. p.1) h₁)
              (docs.delete-stays (u ∷ vs) t v gone))
      sent t t' errors pending h₁ left (inr m) =
          elim (Bool-cases (refused (text "EntityNotFoundException") v errors)) [
            | inl r ↦ inr (deletions_left-mem attempt errors pending v left r)
            | inr r ↦ inl (docs.delete-gone (u ∷ vs) t t' errors n h₁ v m r)
          ]

  delete_attempts-NoFuel :
      (fuel attempt : ℕ) (vs : List Values) (s : S)
      → fuel + attempt ≡ 4
      → (attempt ≡ 4 → vs ≡ [])
      → (delete_attempts glue fuel attempt vs s).0 ≢ err out_of_fuel
  unfolding delete_attempts
  delete_attempts-NoFuel fuel attempt [] s e n = λ h. absurd (cc h)
  delete_attempts-NoFuel zero attempt (v ∷ vs) s e n = λ h. absurd (cc (n (omega arith)))
  delete_attempts-NoFuel (suc fuel) attempt (v ∷ vs) s e n =
      and_then-NoFuel (glue.delete_partitions (v ∷ vs) s) _ (docs.delete-throws (v ∷ vs) s)
        (λ errors s₁ h₁.
          and_then-NoFuel (deletions_left attempt errors, s₁) _
            (deletions_left-NoFuel attempt errors)
            (λ pending s₂ h₂.
              delete_attempts-NoFuel fuel (attempt + 1) pending s₂ (omega arith) (λ last.
                deletions_left-last errors pending (
                  subst (λ n. deletions_left n errors ≡ ok pending) (omega (arith, last))
                    (ap (λ p. p.0) h₂)))))

  delete_batches-gone :
      (fuel : ℕ) (vs : List Values) (s s' : S)
      → delete_batches glue fuel vs s ≡ (ok tt, s')
      → (v : Values) → (exists s v ≡ false) ⊎ (mem v vs ≡ true)
      → exists s' v ≡ false
  unfolding delete_batches
  delete_batches-gone fuel [] s s' h v (inl e) = subst (λ t. exists t v ≡ false) (ap (λ p. p.1) h) e
  delete_batches-gone fuel [] s s' h v (inr e) = absurd (cc e)
  delete_batches-gone zero (u ∷ vs) s s' h v e = absurd (cc (ap (λ p. p.0) h))
  delete_batches-gone (suc fuel) (u ∷ vs) s s' h v e =
      let (x, s₁, h₁, h₂) =
        and_then-eq-ok (delete_attempts glue max_attempts 0 (take delete_batch_size (u ∷ vs)) s) _
          h in
      delete_batches-gone fuel (drop delete_batch_size (u ∷ vs)) s₁ s' h₂ v (sent s₁ h₁ e)
    where
      gone :
          (t : S)
          → delete_attempts glue max_attempts 0 (take delete_batch_size (u ∷ vs)) s ≡ (ok tt, t)
          → (exists s v ≡ false) ⊎ (mem v (take delete_batch_size (u ∷ vs)) ≡ true)
          → exists t v ≡ false
      gone t h₁ e =
          delete_attempts-gone max_attempts 0 (take delete_batch_size (u ∷ vs)) s t
            (length-take delete_batch_size (u ∷ vs)) h₁ v e

      sent :
          (t : S)
          → delete_attempts glue max_attempts 0 (take delete_batch_size (u ∷ vs)) s ≡ (ok tt, t)
          → (exists s v ≡ false) ⊎ (mem v (u ∷ vs) ≡ true)
          → (exists t v ≡ false) ⊎ (mem v (drop delete_batch_size (u ∷ vs)) ≡ true)
      sent t h₁ (inl e) = inl (gone t h₁ (inl e))
      sent t h₁ (inr m) = elim (mem-take-drop delete_batch_size (u ∷ vs) v m) [
        | inl a ↦ inl (gone t h₁ (inr a))
        | inr b ↦ inr b
      ]

  delete_batches-NoFuel :
      (fuel : ℕ) (vs : List Values) (s : S)
      → length vs ≤ fuel
      → (delete_batches glue fuel vs s).0 ≢ err out_of_fuel
  unfolding delete_batches
  delete_batches-NoFuel fuel [] s n = λ h. absurd (cc h)
  delete_batches-NoFuel zero (v ∷ vs) s n = absurd (omega arith)
  delete_batches-NoFuel (suc fuel) (v ∷ vs) s n =
      and_then-NoFuel (delete_attempts glue max_attempts 0 (take delete_batch_size (v ∷ vs)) s) _
        (delete_attempts-NoFuel 4 0 (take delete_batch_size (v ∷ vs)) s refl
          (λ e. absurd (omega arith)))
        (λ x s₁ h₁.
          delete_batches-NoFuel fuel (drop delete_batch_size (v ∷ vs)) s₁
            (omega (arith, length-drop-cons 24 v vs)))

-- BatchDeletePartitions returns only when every partition that it was given is gone, whichever
-- errors the service answered with on the way.
pub batch_delete_partitions-gone :
    {S : Type 0} (glue : GlueService S) (exists : S → Values → Bool)
    → Documented glue exists
    → (read_only : Bool) (partitions : List Values) (s s' : S)
    → batch_delete_partitions glue read_only partitions s ≡ (ok tt, s')
    → (v : Values) → mem v partitions ≡ true
    → exists s' v ≡ false
unfolding batch_delete_partitions
batch_delete_partitions-gone glue exists docs true partitions s s' h v m =
    absurd (cc (ap (λ p. p.0) h))
batch_delete_partitions-gone glue exists docs false partitions s s' h v m =
    delete_batches-gone docs (length partitions) partitions s s' h v (inr m)

-- BatchDeletePartitions ends: no batch is sent more than four times, whatever the service answers.
pub batch_delete_partitions-NoFuel :
    {S : Type 0} (glue : GlueService S) (exists : S → Values → Bool)
    → Documented glue exists
    → (read_only : Bool) (partitions : List Values) (s : S)
    → (batch_delete_partitions glue read_only partitions s).0 ≢ err out_of_fuel
unfolding batch_delete_partitions
batch_delete_partitions-NoFuel glue exists docs true partitions s = λ h. absurd (cc h)
batch_delete_partitions-NoFuel glue exists docs false partitions s =
    delete_batches-NoFuel docs (length partitions) partitions s (omega arith)
