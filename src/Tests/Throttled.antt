-- ===== src/Tests/Throttled.antt =====
-- A concrete Glue for the instances: it throttles the first request and answers every later one.
use mathlib.Core.Path.{subst}
use duckdb_aws_glue.Base.{
  ◌≤◌, Bool, true, false, ◌||◌, ◌≡◌, ◌≢◌, refl, ap, sym, ◌∙◌, ok-injective, arith, List, [], ◌∷◌,
  ◌++◌, Text, text, text_eq, length, if◌then◌else◌, Outcome, ok, err, out_of_fuel, Bool-cases, inl,
  inr,
}
use duckdb_aws_glue.Partitions.Service.{
  Values, GluePartitionInput, PartitionError, GlueService, Documented, values_eq, values_eq_sound,
  mem, has_input, refused,
}

-- whether a request was throttled, and the partitions that exist
abbrev pub State : Type 0
State = Bool × List Values

abbrev pub exists : State → Values → Bool
exists (throttled, partitions) v = mem v partitions

abbrev pub throttle_all : List Values → List PartitionError
throttle_all [] = []
throttle_all (v ∷ vs) = record { values = v; code = text "ThrottlingException" } ∷ throttle_all vs

abbrev pub remove : List Values → List Values → List Values
remove vs [] = []
remove vs (p ∷ partitions) = if mem p vs then remove vs partitions else p ∷ remove vs partitions

abbrev pub values_of : List GluePartitionInput → List Values
values_of [] = []
values_of (i ∷ inputs) = i.values ∷ values_of inputs

abbrev pub delete : List Values → State → Outcome (List PartitionError) × State
delete vs (false, partitions) = (ok (throttle_all vs), (true, partitions))
delete vs (true, partitions) = (ok [], (true, remove vs partitions))

abbrev pub create : List GluePartitionInput → State → Outcome (List PartitionError) × State
create inputs (false, partitions) = (ok (throttle_all (values_of inputs)), (true, partitions))
create inputs (true, partitions) = (ok [], (true, values_of inputs ++ partitions))

unfoldable pub throttled : GlueService State
throttled = record { delete_partitions = delete; create_partitions = create }

refused-throttle_all :
    (success : Text) (v : Values) (vs : List Values)
    → text_eq (text "ThrottlingException") success ≡ false
    → mem v vs ≡ true
    → refused success v (throttle_all vs) ≡ true
refused-throttle_all success v [] n h = absurd (cc h)
refused-throttle_all success v (u ∷ vs) n h =
    rw (n) (ground (arith, refused-throttle_all success v vs n))

length-throttle_all : (vs : List Values) → length (throttle_all vs) ≡ length vs
length-throttle_all [] = refl
length-throttle_all (v ∷ vs) = omega (arith, length-throttle_all vs)

length-values_of : (inputs : List GluePartitionInput) → length (values_of inputs) ≡ length inputs
length-values_of [] = refl
length-values_of (i ∷ inputs) = omega (arith, length-values_of inputs)

mem-remove :
    (vs partitions : List Values) (v : Values)
    → mem v vs ≡ true
    → mem v (remove vs partitions) ≡ false
mem-remove vs [] v h = refl
mem-remove vs (p ∷ partitions) v h = elim (Bool-cases (mem p vs)) [
  | inl gone ↦ rw (gone) (mem-remove vs partitions v h)
  | inr stays ↦ elim (Bool-cases (values_eq p v)) [
    | inl e ↦
        let same : p ≡ v = values_eq_sound p v e in
        let no : mem v vs ≡ false = rw (← same) stays in absurd (cc (h, no))
    | inr e ↦ rw (stays, e) (mem-remove vs partitions v h)
  ]
]

mem-remove-stays :
    (vs partitions : List Values) (v : Values)
    → mem v partitions ≡ false
    → mem v (remove vs partitions) ≡ false
mem-remove-stays vs [] v h = refl
mem-remove-stays vs (p ∷ partitions) v h = ground (arith, mem-remove-stays vs partitions v)

mem-append : (vs ws : List Values) (v : Values) → mem v (vs ++ ws) ≡ (mem v vs || mem v ws)
mem-append [] ws v = refl
mem-append (u ∷ vs) ws v = ground (arith, mem-append vs ws v)

has_input-values_of :
    (v : Values) (inputs : List GluePartitionInput) → has_input v inputs ≡ mem v (values_of inputs)
has_input-values_of v [] = refl
has_input-values_of v (i ∷ inputs) = rw (has_input-values_of v inputs) refl

delete-gone :
    (vs : List Values) (s s' : State) (errors : List PartitionError)
    → delete vs s ≡ (ok errors, s')
    → (v : Values) → mem v vs ≡ true
    → refused (text "EntityNotFoundException") v errors ≡ false
    → exists s' v ≡ false
delete-gone vs (false, ps) s' errors h v m r =
    let same : throttle_all vs ≡ errors = ok-injective (ap (λ p. p.0) h) in
    let all =
      refused-throttle_all (text "EntityNotFoundException") v vs (unfold text_eq in refl) m in
    absurd (cc (all, r, same))
delete-gone vs (true, ps) s' errors h v m r =
    subst (λ t. exists t v ≡ false) (ap (λ p. p.1) h) (mem-remove vs ps v m)

delete-stays :
    (vs : List Values) (s : State) (v : Values)
    → exists s v ≡ false
    → exists (delete vs s).1 v ≡ false
delete-stays vs (false, ps) v h = h
delete-stays vs (true, ps) v h = mem-remove-stays vs ps v h

delete-errors :
    (vs : List Values) (s s' : State) (errors : List PartitionError)
    → delete vs s ≡ (ok errors, s')
    → length errors ≤ length vs
delete-errors vs (false, ps) s' errors h =
    subst (λ l. length l ≤ length vs) (ok-injective (ap (λ p. p.0) h))
      (omega (arith, length-throttle_all vs))
delete-errors vs (true, ps) s' errors h =
    subst (λ l. length l ≤ length vs) (ok-injective (ap (λ p. p.0) h)) (omega arith)

delete-throws : (vs : List Values) (s : State) → (delete vs s).0 ≢ err out_of_fuel
delete-throws vs (false, ps) h = cc
delete-throws vs (true, ps) h = cc

create-throws :
    (inputs : List GluePartitionInput) (s : State) → (create inputs s).0 ≢ err out_of_fuel
create-throws inputs (false, ps) h = cc
create-throws inputs (true, ps) h = cc

create-errors :
    (inputs : List GluePartitionInput) (s s' : State) (errors : List PartitionError)
    → create inputs s ≡ (ok errors, s')
    → length errors ≤ length inputs
create-errors inputs (false, ps) s' errors h =
    subst (λ l. length l ≤ length inputs) (ok-injective (ap (λ p. p.0) h))
      (omega (arith, length-throttle_all (values_of inputs), length-values_of inputs))
create-errors inputs (true, ps) s' errors h =
    subst (λ l. length l ≤ length inputs) (ok-injective (ap (λ p. p.0) h)) (omega arith)

create-there :
    (inputs : List GluePartitionInput) (s s' : State) (errors : List PartitionError)
    → create inputs s ≡ (ok errors, s')
    → (v : Values) → has_input v inputs ≡ true
    → refused (text "AlreadyExistsException") v errors ≡ false
    → exists s' v ≡ true
create-there inputs (false, ps) s' errors h v m r =
    let same : throttle_all (values_of inputs) ≡ errors = ok-injective (ap (λ p. p.0) h) in
    let all =
      refused-throttle_all (text "AlreadyExistsException") v (values_of inputs)
        (unfold text_eq in refl) (sym (has_input-values_of v inputs) ∙ m) in
    absurd (cc (all, r, same))
create-there inputs (true, ps) s' errors h v m r =
    subst (λ t. exists t v ≡ true) (ap (λ p. p.1) h)
      (mem-append (values_of inputs) ps v ∙ rw (sym (has_input-values_of v inputs) ∙ m) refl)

create-stays :
    (inputs : List GluePartitionInput) (s : State) (v : Values)
    → exists s v ≡ true
    → exists (create inputs s).1 v ≡ true
create-stays inputs (false, ps) v h = h
create-stays inputs (true, ps) v h = mem-append (values_of inputs) ps v ∙ rw (h) (ground arith)

pub throttled-Documented : Documented throttled exists
unfolding throttled
throttled-Documented = record {
  delete-gone = λ vs s s' errors n. delete-gone vs s s' errors;
  delete-stays = delete-stays;
  delete-errors = delete-errors;
  delete-throws = delete-throws;
  create-throws = create-throws;
  create-errors = create-errors;
  create-there = λ inputs s s' errors n. create-there inputs s s' errors;
  create-stays = create-stays;
}
