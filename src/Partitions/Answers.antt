-- ===== src/Partitions/Answers.antt =====
-- The answers to a batch request, read by BatchDeletePartitions (src/api/glue_partition_api.cpp).
use mathlib.Core.Path.{subst}
use duckdb_aws_glue.Base.{
  ℕ, zero, suc, ◌≤◌, ◌≡◌, ◌≢◌, refl, true, ◌&&◌, ◌||◌, not, List, [], ◌∷◌, Text, text, text_eq,
  length, take, drop, length-drop, Outcome, ok, err, ◌>>=◌, out_of_fuel, arith, Bool-cases, inl,
  inr, ◌⊎◌, after, ok-injective,
}
use duckdb_aws_glue.Partitions.Service.{
  Values, PartitionError, Run, and_then, values_eq, mem, refused,
}
use duckdb_aws_glue.Partitions.Delete.{is_final, deletions_left}

pub and_then-eq-ok :
    {S A B : Type 0} (m : Outcome A × S) (k : A → Run S B) {b : B} {s' : S}
    → and_then m k ≡ (ok b, s')
    → (a : A) × (s : S) × (m ≡ (ok a, s)) × (k a s ≡ (ok b, s'))
and_then-eq-ok (ok a, s) k h = (a, s, refl, h)
and_then-eq-ok (err e, s) k h = absurd (cc h)

again :
    (values : Values) (code : Text) (errors : List PartitionError) (l : List Values) (v : Values)
    → (values_eq values v && not (text_eq code (text "EntityNotFoundException"))
        || refused (text "EntityNotFoundException") v errors)
      ≡ true
    → (refused (text "EntityNotFoundException") v errors ≡ true → mem v l ≡ true)
    → mem v (values ∷ l) ≡ true
again values code errors l v r h = ground arith

pub then_after :
    {S A B C : Type 0} (m : Outcome A × S) (k : A → Run S B) {b : B} {s' : S}
    → and_then m k ≡ (ok b, s')
    → ((a : A) (s : S) → m ≡ (ok a, s) → k a s ≡ (ok b, s') → C)
    → C
then_after (ok a, s) k h g = g a s refl h
then_after (err e, s) k h g = absurd (cc h)

pub and_then-NoFuel :
    {S A B : Type 0} (m : Outcome A × S) (k : A → Run S B)
    → m.0 ≢ err out_of_fuel
    → ((a : A) (s : S) → m ≡ (ok a, s) → (k a s).0 ≢ err out_of_fuel)
    → (and_then m k).0 ≢ err out_of_fuel
and_then-NoFuel (ok a, s) k h g = g a s refl
and_then-NoFuel (err e, s) k h g = λ x. h (cc x)

pub deletions_left-mem :
    (attempt : ℕ) (errors : List PartitionError) (pending : List Values) (v : Values)
    → deletions_left attempt errors ≡ ok pending
    → refused (text "EntityNotFoundException") v errors ≡ true
    → mem v pending ≡ true
unfolding deletions_left
deletions_left-mem attempt [] pending v h r = ground arith
deletions_left-mem attempt (e ∷ errors) pending v h r =
    elim (Bool-cases (text_eq e.code (text "EntityNotFoundException"))) [
      | inl found ↦ deletions_left-mem attempt errors pending v (rw (found) at h) (ground arith)
      | inr other ↦ elim (Bool-cases (is_final e.code attempt)) [
        | inl final ↦ absurd (cc (rw (other, final) at h))
        | inr passes ↦
            after (deletions_left attempt errors) (λ l. ok (e.values ∷ l)) (rw (other, passes) at h)
              (λ l a b.
                subst (λ p. mem v p ≡ true) (ok-injective b)
                  (again e.values e.code errors l v r
                    (λ s. deletions_left-mem attempt errors l v a s)))
      ]
    ]

pub deletions_left-length :
    (attempt : ℕ) (errors : List PartitionError) (pending : List Values)
    → deletions_left attempt errors ≡ ok pending
    → length pending ≤ length errors
unfolding deletions_left
deletions_left-length attempt [] pending h = ground arith
deletions_left-length attempt (e ∷ errors) pending h =
    elim (Bool-cases (text_eq e.code (text "EntityNotFoundException"))) [
      | inl found ↦ omega (arith, deletions_left-length attempt errors pending (rw (found) at h))
      | inr other ↦ elim (Bool-cases (is_final e.code attempt)) [
        | inl final ↦ absurd (cc (rw (other, final) at h))
        | inr passes ↦
            after (deletions_left attempt errors) (λ l. ok (e.values ∷ l)) (rw (other, passes) at h)
              (λ l a b.
                subst (λ p. length p ≤ suc (length errors)) (ok-injective b)
                  (omega (arith, deletions_left-length attempt errors l a)))
      ]
    ]

pub deletions_left-NoFuel :
    (attempt : ℕ) (errors : List PartitionError) → deletions_left attempt errors ≢ err out_of_fuel
unfolding deletions_left
deletions_left-NoFuel attempt [] h = cc
deletions_left-NoFuel attempt (e ∷ errors) h =
    elim (Bool-cases (text_eq e.code (text "EntityNotFoundException"))) [
      | inl found ↦ deletions_left-NoFuel attempt errors (rw (found) at h)
      | inr other ↦ elim (Bool-cases (is_final e.code attempt)) [
        | inl final ↦ absurd (cc (rw (other, final) at h))
        | inr passes ↦
            deletions_left-NoFuel attempt errors
              (bound (deletions_left attempt errors) (rw (other, passes) at h))
      ]
    ]
  where
    bound :
        (m : Outcome (List Values))
        → (m >>= λ l. ok (e.values ∷ l)) ≡ err out_of_fuel
        → m ≡ err out_of_fuel
    bound (ok l) h = absurd (cc h)
    bound (err x) h = cc

pub is_final-last : (code : Text) → is_final code 3 ≡ true
is_final-last code = ground arith

-- No error may pass after the last attempt.
pub deletions_left-last :
    (errors : List PartitionError) (pending : List Values)
    → deletions_left 3 errors ≡ ok pending
    → pending ≡ []
unfolding deletions_left
deletions_left-last [] pending h = ground arith
deletions_left-last (e ∷ errors) pending h =
    elim (Bool-cases (text_eq e.code (text "EntityNotFoundException"))) [
      | inl found ↦ deletions_left-last errors pending (rw (found) at h)
      | inr other ↦ absurd (cc (rw (other, is_final-last e.code) at h))
    ]

pub mem-take-drop :
    (n : ℕ) (xs : List Values) (v : Values)
    → mem v xs ≡ true
    → (mem v (take n xs) ≡ true) ⊎ (mem v (drop n xs) ≡ true)
unfolding take drop
mem-take-drop zero xs v m = inr m
mem-take-drop (suc n) [] v m = inr m
mem-take-drop (suc n) (x ∷ xs) v m = elim (Bool-cases (values_eq x v)) [
  | inl e ↦ inl (rw (e) refl)
  | inr e ↦ elim (mem-take-drop n xs v (rw (e) at m)) [ inl a ↦ inl (rw (e) a) | inr b ↦ inr b ]
]

pub length-drop-cons :
    (n : ℕ) (x : Values) (xs : List Values) → length (drop (suc n) (x ∷ xs)) ≤ length xs
unfolding drop
length-drop-cons n x xs = length-drop n xs
