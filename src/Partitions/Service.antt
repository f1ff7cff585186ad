-- ===== src/Partitions/Service.antt =====
-- Glue's partition operations as the extension calls them (src/api/glue_partition_api.cpp). The
-- service is not in this repository: its answers, and the state they depend on, are a parameter.
use duckdb_aws_glue.Base.{
  Bool, true, false, ◌&&◌, ◌||◌, not, List, [], ◌∷◌, Text, text, text_eq, text_lt, if◌then◌else◌,
  length, Outcome, ok, err, ◌≡◌, ◌≤◌, throw_if, invalid_input, out_of_fuel, ◌≢◌, text_eq_sound,
  text_eq_refl, refl, arith,
}

abbrev pub Values : Type 0
Values = List Text

pub record GluePartitionInput : Type 0 where
  pub values : Values
  pub location : Text

-- An error of a single partition in the answer to a batch request; its message is not kept.
pub record PartitionError : Type 0 where
  pub values : Values
  pub code : Text

unfoldable pub values_eq : Values → Values → Bool
values_eq [] [] = true
values_eq (a ∷ s) (b ∷ t) = text_eq a b && values_eq s t
values_eq _ _ = false

pub values_eq_sound : (s t : Values) → values_eq s t ≡ true → s ≡ t
unfolding values_eq
values_eq_sound [] [] h = refl
values_eq_sound [] (b ∷ t) h = ground arith
values_eq_sound (a ∷ s) [] h = ground arith
values_eq_sound (a ∷ s) (b ∷ t) h = ground (arith, values_eq_sound s t, text_eq_sound a b)

values_eq_refl : (s : Values) → values_eq s s ≡ true
unfolding values_eq
values_eq_refl [] = refl
values_eq_refl (a ∷ s) = ground (arith, values_eq_refl s, text_eq_refl a)

unfoldable pub values_lt : Values → Values → Bool
values_lt [] [] = false
values_lt [] (b ∷ t) = true
values_lt (a ∷ s) [] = false
values_lt (a ∷ s) (b ∷ t) = if text_lt a b then true else text_eq a b && values_lt s t

-- map::emplace on a map ordered by partition values: what is there stays
unfoldable pub emplace : Values → Text → List (Values × Text) → List (Values × Text)
emplace values location [] = (values, location) ∷ []
emplace values location ((v, l) ∷ rest) =
    if values_eq v values
    then (v, l) ∷ rest
    else if values_lt values v
    then (values, location) ∷ (v, l) ∷ rest
    else (v, l) ∷ emplace values location rest

abbrev pub mem : Values → List Values → Bool
mem v [] = false
mem v (u ∷ us) = values_eq u v || mem v us

-- whether one of the inputs has these values
abbrev pub has_input : Values → List GluePartitionInput → Bool
has_input v [] = false
has_input v (input ∷ inputs) = values_eq input.values v || has_input v inputs

-- A run that may throw and that changes the state of the service either way.
abbrev pub Run : Type 0 → Type 0 → Type 0
Run S A = S → Outcome A × S

abbrev pub and_then : {S A B : Type 0} → Outcome A × S → (A → Run S B) → Outcome B × S
and_then (ok a, s) k = k a s
and_then (err e, s) k = (err e, s)

-- CheckWritable, of whether the catalog is attached read-only
abbrev pub check_writable : Bool → Outcome (Unit {0})
check_writable read_only = throw_if read_only invalid_input

pub record GlueService (S : Type 0) : Type 0 where
  -- BatchDeletePartition and BatchCreatePartition: the errors of single partitions, where the request
  -- as a whole succeeds
  pub delete_partitions : List Values → Run S (List PartitionError)
  pub create_partitions : List GluePartitionInput → Run S (List PartitionError)

-- Whether the answer reports for the partition an error with a code that does not mean success.
abbrev pub refused : Text → Values → List PartitionError → Bool
refused success v [] = false
refused success v (e ∷ errors) =
    values_eq e.values v && not (text_eq e.code success) || refused success v errors

-- IsTransientPartitionError
unfoldable pub is_transient_partition_error : Text → Bool
is_transient_partition_error code =
    text_eq code (text "ThrottlingException")
    || text_eq code (text "InternalServiceException")
    || text_eq code (text "OperationTimeoutException")
    || text_eq code (text "ConcurrentModificationException")

-- What Glue documents: a request within its limit whose answer lists no error for a partition, or one
-- that says that there was nothing to do, has deleted or created it; a deletion creates nothing and
-- a creation deletes nothing; there is at most one error for each partition sent. The service
-- does not answer with the model's own `out_of_fuel`.
pub record Documented {S : Type 0} (glue : GlueService S) (exists : S → Values → Bool)
    : Type 0 where
  pub delete-gone :
      (vs : List Values) (s s' : S) (errors : List PartitionError)
      → length vs ≤ 25
      → glue.delete_partitions vs s ≡ (ok errors, s')
      → (v : Values) → mem v vs ≡ true
      → refused (text "EntityNotFoundException") v errors ≡ false
      → exists s' v ≡ false
  pub delete-stays :
      (vs : List Values) (s : S) (v : Values)
      → exists s v ≡ false
      → exists (glue.delete_partitions vs s).1 v ≡ false
  pub delete-errors :
      (vs : List Values) (s s' : S) (errors : List PartitionError)
      → glue.delete_partitions vs s ≡ (ok errors, s')
      → length errors ≤ length vs
  pub delete-throws : (vs : List Values) (s : S) → (glue.delete_partitions vs s).0 ≢ err out_of_fuel
  pub create-throws :
      (inputs : List GluePartitionInput) (s : S)
      → (glue.create_partitions inputs s).0 ≢ err out_of_fuel
  pub create-errors :
      (inputs : List GluePartitionInput) (s s' : S) (errors : List PartitionError)
      → glue.create_partitions inputs s ≡ (ok errors, s')
      → length errors ≤ length inputs
  pub create-there :
      (inputs : List GluePartitionInput) (s s' : S) (errors : List PartitionError)
      → length inputs ≤ 100
      → glue.create_partitions inputs s ≡ (ok errors, s')
      → (v : Values) → has_input v inputs ≡ true
      → refused (text "AlreadyExistsException") v errors ≡ false
      → exists s' v ≡ true
  pub create-stays :
      (inputs : List GluePartitionInput) (s : S) (v : Values)
      → exists s v ≡ true
      → exists (glue.create_partitions inputs s).1 v ≡ true
