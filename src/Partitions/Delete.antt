-- ===== src/Partitions/Delete.antt =====
-- BatchDeletePartitions of src/api/glue_partition_api.cpp. A request is sent again, after a pause that
-- is not modelled, for the partitions whose error may pass. Each run has fuel for the requests it may
-- send: one for each of the four attempts, one for each batch.
use duckdb_aws_glue.Base.{
  ℕ, zero, suc, ◌+◌, Bool, ◌||◌, not, List, [], ◌∷◌, Text, text, text_eq, length, take, drop, ◌==◌,
  if◌then◌else◌, Outcome, ok, err, ◌>>=◌, io, out_of_fuel,
}
use duckdb_aws_glue.Partitions.Service.{
  Values, PartitionError, check_writable, GlueService, Run, and_then, is_transient_partition_error,
}

abbrev pub max_attempts : ℕ
max_attempts = 4

abbrev pub delete_batch_size : ℕ
delete_batch_size = 25

-- an error that ends the run: it does not pass, or this was the last attempt
abbrev pub is_final : Text → ℕ → Bool
is_final code attempt = not (is_transient_partition_error code) || attempt + 1 == max_attempts

-- The partitions to send again after the answer to an attempt.
unfoldable pub deletions_left : ℕ → List PartitionError → Outcome (List Values)
deletions_left attempt [] = ok []
deletions_left attempt (e ∷ errors) =
    let rest = deletions_left attempt errors in
    if text_eq e.code (text "EntityNotFoundException")
    then rest
    else if is_final e.code attempt
    then err io
    else rest >>= λ pending. ok (e.values ∷ pending)

module _ {S : Type 0} (glue : GlueService S) where
  -- the attempts of one batch
  unfoldable pub delete_attempts : ℕ → ℕ → List Values → Run S (Unit {0})
  delete_attempts fuel attempt [] s = (ok tt, s)
  delete_attempts zero attempt (v ∷ vs) s = (err out_of_fuel, s)
  delete_attempts (suc fuel) attempt (v ∷ vs) s =
      and_then (glue.delete_partitions (v ∷ vs) s) (λ errors s'.
        and_then (deletions_left attempt errors, s') (delete_attempts fuel (attempt + 1)))

  -- the batches from an offset on
  unfoldable pub delete_batches : ℕ → List Values → Run S (Unit {0})
  unfolding delete_attempts
  delete_batches fuel [] s = (ok tt, s)
  delete_batches zero (v ∷ vs) s = (err out_of_fuel, s)
  delete_batches (suc fuel) (v ∷ vs) s =
      and_then (delete_attempts max_attempts 0 (take delete_batch_size (v ∷ vs)) s)
        (λ u. delete_batches fuel (drop delete_batch_size (v ∷ vs)))

  -- BatchDeletePartitions
  unfoldable pub batch_delete_partitions : Bool → List Values → Run S (Unit {0})
  unfolding delete_batches
  batch_delete_partitions read_only partitions s =
      and_then (check_writable read_only, s) (λ u. delete_batches (length partitions) partitions)
