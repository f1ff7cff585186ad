-- ===== src/Partitions/Create.antt =====
-- BatchCreatePartitions and InjectedPartitionFailure of src/api/glue_partition_api.cpp. A partition is
-- kept with its index among the partitions to register. The storage descriptor that each input takes
-- from the fetched table is not modelled.
use duckdb_aws_glue.Base.{
  ℕ, zero, suc, ◌+◌, Bool, true, false, ◌&&◌, ◌||◌, not, List, [], ◌∷◌, ◌++◌, Text, text, text_eq,
  length, take, drop, ◌==◌, leb, is_empty, if◌then◌else◌, Option, none, some, Outcome, ok, err,
  ◌>>=◌, io, invalid_input, out_of_fuel, take_while, drop_while,
}
use duckdb_aws_glue.Partitions.Service.{
  Values, values_eq, GluePartitionInput, PartitionError, GlueService, Run, and_then, check_writable,
  is_transient_partition_error,
}
use duckdb_aws_glue.Partitions.Delete.{max_attempts, is_final}

abbrev pub create_batch_size : ℕ
create_batch_size = 100

abbrev pub Indexed : Type 0
Indexed = ℕ × GluePartitionInput

pub record InjectedPartitionFailure : Type 0 where
  pub code : Text
  pub from : ℕ
  pub enabled : Bool

abbrev pub no_failure : InjectedPartitionFailure
no_failure = record { code = []; from = 0; enabled = false }

abbrev is_colon : ℕ → Bool
is_colon c = c == b':'

abbrev not_colon : ℕ → Bool
not_colon c = not (is_colon c)

-- what follows the separator, where there is one
abbrev after_separator : Text → Option Text
after_separator [] = none
after_separator (c ∷ s) = some s

abbrev failure_from : Text → Option ℕ → Outcome InjectedPartitionFailure
failure_from code none = err invalid_input
failure_from code (some n) = ok (record { code = code; from = n; enabled = true })

abbrev index_of : (Text → Option ℕ) → Option Text → Option ℕ
index_of cast_ubigint none = none
index_of cast_ubigint (some s) = cast_ubigint s

-- Parse; `cast_ubigint` is DuckDB's cast of a text to UBIGINT
unfoldable pub parse_failure : (Text → Option ℕ) → Text → Outcome InjectedPartitionFailure
unfolding take_while drop_while
parse_failure cast_ubigint s =
    if is_empty s
    then ok no_failure
    else let code = take_while not_colon s in
      if is_empty code
      then err invalid_input
      else failure_from code (index_of cast_ubigint (after_separator (drop_while not_colon s)))

-- FromSettings
abbrev pub failure_from_settings :
    (Text → Option ℕ) → Option Text → Outcome InjectedPartitionFailure
failure_from_settings cast_ubigint none = ok no_failure
failure_from_settings cast_ubigint (some setting) = parse_failure cast_ubigint setting

-- Fails
unfoldable pub fails : InjectedPartitionFailure → ℕ → ℕ → Bool
fails self index attempt =
    self.enabled
    && leb self.from index
    && (attempt == 0 || not (is_transient_partition_error self.code))

-- the partitions of an attempt that are sent, and the errors of those that are not
unfoldable pub sent_of : InjectedPartitionFailure → ℕ → List Indexed → List Indexed
sent_of injected attempt [] = []
sent_of injected attempt ((index, partition) ∷ pending) =
    if fails injected index attempt
    then sent_of injected attempt pending
    else (index, partition) ∷ sent_of injected attempt pending

unfoldable pub injected_errors : InjectedPartitionFailure → ℕ → List Indexed → List (Indexed × Text)
injected_errors injected attempt [] = []
injected_errors injected attempt ((index, partition) ∷ pending) =
    if fails injected index attempt
    then ((index, partition), injected.code) ∷ injected_errors injected attempt pending
    else injected_errors injected attempt pending

abbrev pub inputs_of : List Indexed → List GluePartitionInput
inputs_of [] = []
inputs_of ((index, partition) ∷ sent) = partition ∷ inputs_of sent

-- `sent.find`: the map keeps the first of the partitions that have the same values
unfoldable pub find_sent : Values → List Indexed → Option Indexed
find_sent values [] = none
find_sent values ((index, partition) ∷ sent) =
    if values_eq partition.values values then some (index, partition) else find_sent values sent

-- The partitions that an answer says exist already, and the other errors.
abbrev pub Answer : Type 0
Answer = List GluePartitionInput × List (Indexed × Text)

abbrev pub with_error : Indexed → Text → Answer → Answer
with_error (index, partition) code (existing, errors) =
    if text_eq code (text "AlreadyExistsException")
    then (partition ∷ existing, errors)
    else (existing, ((index, partition), code) ∷ errors)

abbrev pub matched_error : Option Indexed → Text → Outcome Answer → Outcome Answer
matched_error none code rest = err io
matched_error (some entry) code rest = rest >>= λ answer. ok (with_error entry code answer)

unfoldable pub read_errors : List Indexed → List PartitionError → Outcome Answer
unfolding find_sent
read_errors sent [] = ok ([], [])
read_errors sent (e ∷ errors) =
    matched_error (find_sent e.values sent) e.code (read_errors sent errors)

-- the partitions to send again
unfoldable pub creations_left : ℕ → List (Indexed × Text) → Outcome (List Indexed)
creations_left attempt [] = ok []
creations_left attempt ((entry, code) ∷ errors) =
    if is_final code attempt
    then err io
    else (creations_left attempt errors >>= λ pending. ok (entry ∷ pending))

abbrev pub enumerate : ℕ → List GluePartitionInput → List Indexed
enumerate index [] = []
enumerate index (partition ∷ partitions) = (index, partition) ∷ enumerate (index + 1) partitions

module _ {S : Type 0} (glue : GlueService S) where
  -- no request is sent for no input
  unfoldable pub send_inputs : List GluePartitionInput → Run S (List PartitionError)
  send_inputs [] s = (ok [], s)
  send_inputs (input ∷ inputs) s = glue.create_partitions (input ∷ inputs) s

  -- one attempt: what exists already, and what is left
  unfoldable pub create_attempt :
      InjectedPartitionFailure → ℕ → List Indexed → Run S (List GluePartitionInput × List Indexed)
  unfolding send_inputs sent_of injected_errors read_errors creations_left
  create_attempt injected attempt pending s =
      let sent = sent_of injected attempt pending in
      and_then (send_inputs (inputs_of sent) s) (λ errors s₁.
        and_then (read_errors sent errors, s₁)
          (λ answer s₂.
            and_then
              (creations_left attempt (injected_errors injected attempt pending ++ answer.1), s₂)
              (λ left s₃. (ok (answer.0, left), s₃))))

  unfoldable pub create_attempts :
      InjectedPartitionFailure
      → ℕ
      → ℕ
      → List Indexed
      → List GluePartitionInput
      → Run S (List GluePartitionInput)
  unfolding create_attempt
  create_attempts injected fuel attempt [] existing s = (ok existing, s)
  create_attempts injected zero attempt (p ∷ pending) existing s = (err out_of_fuel, s)
  create_attempts injected (suc fuel) attempt (p ∷ pending) existing s =
      and_then (create_attempt injected attempt (p ∷ pending) s)
        (λ answer. create_attempts injected fuel (attempt + 1) answer.1 (existing ++ answer.0))

  unfoldable pub create_batches :
      InjectedPartitionFailure
      → ℕ
      → List Indexed
      → List GluePartitionInput
      → Run S (List GluePartitionInput)
  unfolding create_attempts
  create_batches injected fuel [] existing s = (ok existing, s)
  create_batches injected zero (p ∷ rest) existing s = (err out_of_fuel, s)
  create_batches injected (suc fuel) (p ∷ rest) existing s =
      and_then
        (create_attempts injected max_attempts 0 (take create_batch_size (p ∷ rest)) existing s)
        (create_batches injected fuel (drop create_batch_size (p ∷ rest)))

  -- BatchCreatePartitions
  unfoldable pub batch_create_partitions :
      (Text → Option ℕ)
      → Option Text
      → Bool
      → List GluePartitionInput
      → Run S (List GluePartitionInput)
  unfolding create_batches
  batch_create_partitions cast_ubigint setting read_only partitions s =
      and_then (check_writable read_only, s)
        (λ u s₁.
          if is_empty partitions
          then (ok [], s₁)
          else and_then (failure_from_settings cast_ubigint setting, s₁)
              (λ injected. create_batches injected (length partitions) (enumerate 0 partitions) []))
