-- ===== src/Partitions/Matched.antt =====
-- How BatchCreatePartitions matches an answer to the partitions sent (src/api/glue_partition_api.cpp).
use mathlib.Core.Path.{subst, sym}
use duckdb_aws_glue.Base.{
  ℕ, suc, ◌+◌, ◌≤◌, ◌≡◌, ◌≢◌, refl, Bool, true, false, ◌&&◌, ◌||◌, not, List, [], ◌∷◌, ◌++◌, Text,
  text, text_eq, length, Outcome, ok, err, ◌>>=◌, out_of_fuel, arith, Bool-cases, Option-cases, inl,
  inr, ◌⊎◌, after, ok-injective, Option, none, some,
}
use duckdb_aws_glue.Partitions.Service.{
  Values, PartitionError, values_eq, values_eq_sound, has_input, refused,
}
use duckdb_aws_glue.Partitions.Delete.{is_final}
use duckdb_aws_glue.Partitions.Answers.{is_final-last}
use duckdb_aws_glue.Partitions.Create.{
  Indexed, InjectedPartitionFailure, fails, sent_of, injected_errors, inputs_of, find_sent, Answer,
  with_error, matched_error, read_errors, creations_left,
}

-- whether a partition with these values is among the entries
abbrev pub pends : Values → List Indexed → Bool
pends v [] = false
pends v ((index, partition) ∷ pending) = values_eq partition.values v || pends v pending

abbrev pub errs : Values → List (Indexed × Text) → Bool
errs v [] = false
errs v (((index, partition), code) ∷ errors) = values_eq partition.values v || errs v errors

pub has_input-inputs_of :
    (v : Values) (sent : List Indexed) → has_input v (inputs_of sent) ≡ pends v sent
has_input-inputs_of v [] = refl
has_input-inputs_of v ((i, p) ∷ sent) = rw (has_input-inputs_of v sent) refl

pub length-inputs_of : (sent : List Indexed) → length (inputs_of sent) ≡ length sent
length-inputs_of [] = refl
length-inputs_of ((i, p) ∷ sent) = omega (arith, length-inputs_of sent)

pub errs-append :
    (v : Values) (xs ys : List (Indexed × Text)) → errs v (xs ++ ys) ≡ (errs v xs || errs v ys)
errs-append v [] ys = refl
errs-append v (((i, p), c) ∷ xs) ys = ground (arith, errs-append v xs ys)

pub length-sent_of :
    (injected : InjectedPartitionFailure) (attempt : ℕ) (pending : List Indexed)
    → length (injected_errors injected attempt pending) + length (sent_of injected attempt pending)
      ≡ length pending
unfolding injected_errors sent_of
length-sent_of injected attempt [] = refl
length-sent_of injected attempt ((i, p) ∷ pending) =
    let ih = length-sent_of injected attempt pending in ground arith

pub pends-sent_of :
    (injected : InjectedPartitionFailure) (attempt : ℕ) (pending : List Indexed) (v : Values)
    → pends v pending ≡ true
    → (pends v (sent_of injected attempt pending) ≡ true)
      ⊎ (errs v (injected_errors injected attempt pending) ≡ true)
unfolding injected_errors sent_of
pends-sent_of injected attempt [] v h = absurd (cc h)
pends-sent_of injected attempt ((i, p) ∷ pending) v h = elim (Bool-cases (values_eq p.values v)) [
  | inl e ↦ elim (Bool-cases (fails injected i attempt)) [
    | inl f ↦ inr (rw (f, e) refl)
    | inr f ↦ inl (rw (f, e) refl)
  ]
  | inr e ↦ elim (pends-sent_of injected attempt pending v (rw (e) at h)) [
    | inl a ↦ elim (Bool-cases (fails injected i attempt)) [
      | inl f ↦ inl (rw (f) a)
      | inr f ↦ inl (rw (f, e) a)
    ]
    | inr a ↦ elim (Bool-cases (fails injected i attempt)) [
      | inl f ↦ inr (rw (f, e) a)
      | inr f ↦ inr (rw (f) a)
    ]
  ]
]

find_sent-values :
    (values : Values) (sent : List Indexed) (entry : Indexed)
    → find_sent values sent ≡ some entry
    → entry.1.values ≡ values
unfolding find_sent
find_sent-values values [] entry h = absurd (cc h)
find_sent-values values ((i, p) ∷ sent) entry h = elim (Bool-cases (values_eq p.values values)) [
  | inl e ↦
      let same : (i, p) ≡ entry = cc (rw (e) at h) in
      subst (λ x. x.1.values ≡ values) same (values_eq_sound p.values values e)
  | inr e ↦ find_sent-values values sent entry (rw (e) at h)
]

-- Every error that is not about a partition that exists is kept.
pub read_errors-errs :
    (sent : List Indexed) (errors : List PartitionError) (answer : Answer) (v : Values)
    → read_errors sent errors ≡ ok answer
    → refused (text "AlreadyExistsException") v errors ≡ true
    → errs v answer.1 ≡ true
unfolding read_errors
read_errors-errs sent [] answer v h r = absurd (cc r)
read_errors-errs sent (e ∷ errors) answer v h r = elim (Option-cases (find_sent e.values sent)) [
  | inl missing ↦ absurd (cc (rw (missing) at h))
  | inr (entry, found) ↦
      after (read_errors sent errors) (λ a. ok (with_error entry e.code a)) (rw (found) at h)
        (λ rest a b.
          subst (λ x. errs v x.1 ≡ true) (ok-injective b)
            (kept entry e.code e.values rest errors (find_sent-values e.values sent entry found) r
              (λ s. read_errors-errs sent errors rest v a s)))
]
  where
    kept :
        (entry : Indexed) (code : Text) (values : Values) (rest : Answer)
        (errors : List PartitionError)
        → entry.1.values ≡ values
        → (values_eq values v && not (text_eq code (text "AlreadyExistsException"))
            || refused (text "AlreadyExistsException") v errors)
          ≡ true
        → (refused (text "AlreadyExistsException") v errors ≡ true → errs v rest.1 ≡ true)
        → errs v (with_error entry code rest).1 ≡ true
    kept (i, p) code values (existing, others) errors same r ih =
        elim (Bool-cases (text_eq code (text "AlreadyExistsException"))) [
          | inl exists ↦ rw (exists) (ih (ground arith))
          | inr other ↦ rw (other, same) (ground arith)
        ]

pub read_errors-length :
    (sent : List Indexed) (errors : List PartitionError) (answer : Answer)
    → read_errors sent errors ≡ ok answer
    → length answer.1 ≤ length errors
unfolding read_errors
read_errors-length sent [] answer h = subst (λ a. length a.1 ≤ 0) (ok-injective h) (omega arith)
read_errors-length sent (e ∷ errors) answer h = elim (Option-cases (find_sent e.values sent)) [
  | inl missing ↦ absurd (cc (rw (missing) at h))
  | inr (entry, found) ↦
      after (read_errors sent errors) (λ a. ok (with_error entry e.code a)) (rw (found) at h)
        (λ rest a b.
          subst (λ x. length x.1 ≤ suc (length errors)) (ok-injective b)
            (longer entry rest (read_errors-length sent errors rest a)))
]
  where
    longer :
        (entry : Indexed) (rest : Answer)
        → length rest.1 ≤ length errors
        → length (with_error entry e.code rest).1 ≤ suc (length errors)
    longer (i, p) (existing, others) n =
        elim (Bool-cases (text_eq e.code (text "AlreadyExistsException"))) [
          | inl exists ↦ rw (exists) (omega arith)
          | inr other ↦ rw (other) (omega arith)
        ]

-- What is left is what the errors are about.
pub creations_left-pends :
    (attempt : ℕ) (errors : List (Indexed × Text)) (left : List Indexed)
    → creations_left attempt errors ≡ ok left
    → ((v : Values) → pends v left ≡ errs v errors) × (length left ≡ length errors)
unfolding creations_left
creations_left-pends attempt [] left h =
    subst (λ l. ((v : Values) → pends v l ≡ false) × (length l ≡ 0)) (ok-injective h)
      (λ v. refl, refl)
creations_left-pends attempt (((i, p), code) ∷ errors) left h =
    elim (Bool-cases (is_final code attempt)) [
      | inl final ↦ absurd (cc (rw (final) at h))
      | inr passes ↦
          after (creations_left attempt errors) (λ l. ok ((i, p) ∷ l)) (rw (passes) at h)
            (λ l a b.
              let (same, long) = creations_left-pends attempt errors l a in
              subst
                (λ l.
                  ((v : Values) → pends v l ≡ (values_eq p.values v || errs v errors))
                  × (length l ≡ suc (length errors)))
                (ok-injective b) (λ v. rw (same v) refl, omega (arith, long)))
    ]

pub creations_left-last :
    (errors : List (Indexed × Text)) (left : List Indexed)
    → creations_left 3 errors ≡ ok left
    → left ≡ []
unfolding creations_left
creations_left-last [] left h = sym (ok-injective h)
creations_left-last ((entry, code) ∷ errors) left h = absurd (cc (rw (is_final-last code) at h))

pub creations_left-NoFuel :
    (attempt : ℕ) (errors : List (Indexed × Text)) → creations_left attempt errors ≢ err out_of_fuel
unfolding creations_left
creations_left-NoFuel attempt [] h = cc
creations_left-NoFuel attempt ((entry, code) ∷ errors) h =
    elim (Bool-cases (is_final code attempt)) [
      | inl final ↦ absurd (cc (rw (final) at h))
      | inr passes ↦
          creations_left-NoFuel attempt errors
            (bound (creations_left attempt errors) (rw (passes) at h))
    ]
  where
    bound :
        (m : Outcome (List Indexed))
        → (m >>= λ l. ok (entry ∷ l)) ≡ err out_of_fuel
        → m ≡ err out_of_fuel
    bound (ok l) h = absurd (cc h)
    bound (err x) h = cc

pub read_errors-NoFuel :
    (sent : List Indexed) (errors : List PartitionError) → read_errors sent errors ≢ err out_of_fuel
unfolding read_errors
read_errors-NoFuel sent [] h = cc
read_errors-NoFuel sent (e ∷ errors) h =
    read_errors-NoFuel sent errors (bound (find_sent e.values sent) (read_errors sent errors) h)
  where
    bound :
        (entry : Option Indexed) (m : Outcome Answer)
        → matched_error entry e.code m ≡ err out_of_fuel
        → m ≡ err out_of_fuel
    bound none m h = absurd (cc h)
    bound (some entry) (ok a) h = absurd (cc h)
    bound (some entry) (err x) h = cc
