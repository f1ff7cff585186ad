-- ===== src/Partitions/Attempts.antt =====
-- The attempts of one batch of BatchCreatePartitions (src/api/glue_partition_api.cpp).
use mathlib.Core.Path.{subst, ap, ◌∙◌}
use duckdb_aws_glue.Base.{
  ℕ, zero, suc, ◌+◌, ◌≤◌, ◌≡◌, ◌≢◌, refl, Bool, true, false, ◌||◌, List, [], ◌∷◌, ◌++◌, text,
  length, length-append, ok, err, out_of_fuel, arith, Bool-cases, inl, inr, ◌⊎◌, ok-injective,
}
use duckdb_aws_glue.Partitions.Service.{
  Values, GluePartitionInput, PartitionError, GlueService, Documented, has_input, refused,
}
use duckdb_aws_glue.Partitions.Answers.{then_after, and_then-NoFuel}
use duckdb_aws_glue.Partitions.Create.{
  Indexed, InjectedPartitionFailure, sent_of, injected_errors, inputs_of, Answer, read_errors,
  creations_left, send_inputs, create_attempt, create_attempts,
}
use duckdb_aws_glue.Partitions.Matched.{
  pends, errs, has_input-inputs_of, length-inputs_of, errs-append, length-sent_of, pends-sent_of,
  read_errors-errs, read_errors-length, creations_left-pends, creations_left-last,
  creations_left-NoFuel, read_errors-NoFuel,
}

module _ {S : Type 0} {glue : GlueService S} {exists : S → Values → Bool}
    (docs : Documented glue exists) (injected : InjectedPartitionFailure) where
  send_inputs-there :
      (inputs : List GluePartitionInput) (s s' : S) (errors : List PartitionError)
      → length inputs ≤ 100
      → send_inputs glue inputs s ≡ (ok errors, s')
      → (v : Values) → has_input v inputs ≡ true
      → refused (text "AlreadyExistsException") v errors ≡ false
      → exists s' v ≡ true
  unfolding send_inputs
  send_inputs-there [] s s' errors n h v m r = absurd (cc m)
  send_inputs-there (i ∷ inputs) s s' errors n h v m r =
      docs.create-there (i ∷ inputs) s s' errors n h v m r

  send_inputs-stays :
      (inputs : List GluePartitionInput) (s s' : S) (errors : List PartitionError)
      → send_inputs glue inputs s ≡ (ok errors, s')
      → (v : Values) → exists s v ≡ true
      → exists s' v ≡ true
  unfolding send_inputs
  send_inputs-stays [] s s' errors h v e = subst (λ t. exists t v ≡ true) (ap (λ p. p.1) h) e
  send_inputs-stays (i ∷ inputs) s s' errors h v e =
      subst (λ t. exists t v ≡ true) (ap (λ p. p.1) h) (docs.create-stays (i ∷ inputs) s v e)

  send_inputs-length :
      (inputs : List GluePartitionInput) (s s' : S) (errors : List PartitionError)
      → send_inputs glue inputs s ≡ (ok errors, s')
      → length errors ≤ length inputs
  unfolding send_inputs
  send_inputs-length [] s s' errors h =
      subst (λ l. length l ≤ 0) (ok-injective (ap (λ p. p.0) h)) (omega arith)
  send_inputs-length (i ∷ inputs) s s' errors h = docs.create-errors (i ∷ inputs) s s' errors h

  send_inputs-NoFuel :
      (inputs : List GluePartitionInput) (s : S) → (send_inputs glue inputs s).0 ≢ err out_of_fuel
  unfolding send_inputs
  send_inputs-NoFuel [] s = λ h. absurd (cc h)
  send_inputs-NoFuel (i ∷ inputs) s = docs.create-throws (i ∷ inputs) s

  -- One attempt, once its answer is read: what is left is what did not come to exist.
  answered :
      (attempt : ℕ) (pending left : List Indexed) (errors : List PartitionError) (answer : Answer)
      (s s' : S)
      → length pending ≤ 100
      → send_inputs glue (inputs_of (sent_of injected attempt pending)) s ≡ (ok errors, s')
      → read_errors (sent_of injected attempt pending) errors ≡ ok answer
      → creations_left attempt (injected_errors injected attempt pending ++ answer.1) ≡ ok left
      → (length left ≤ 100)
        × ((v : Values)
            → (exists s v ≡ true) ⊎ (pends v pending ≡ true)
            → (exists s' v ≡ true) ⊎ (pends v left ≡ true))
  answered attempt pending left errors answer s s' n h₁ h₂ h₃ =
      let (same, long) =
        creations_left-pends attempt (injected_errors injected attempt pending ++ answer.1) left
          h₃ in
      (
        omega (
          arith,
          long,
          length-append (injected_errors injected attempt pending) answer.1,
          read_errors-length (sent_of injected attempt pending) errors answer h₂,
          send_inputs-length (inputs_of (sent_of injected attempt pending)) s s' errors h₁,
          length-inputs_of (sent_of injected attempt pending),
          length-sent_of injected attempt pending,
          n,
        ),
        λ v a. elim a [
          | inl e ↦
              inl (
                send_inputs-stays (inputs_of (sent_of injected attempt pending)) s s' errors h₁ v e)
          | inr m ↦ elim (pends-sent_of injected attempt pending v m) [
            | inr failed ↦ inr (
                same v
                ∙ (errs-append v (injected_errors injected attempt pending) answer.1
                    ∙ rw (failed) refl))
            | inl sent ↦ elim (Bool-cases (refused (text "AlreadyExistsException") v errors)) [
              | inl r ↦ inr (
                  same v
                  ∙ (errs-append v (injected_errors injected attempt pending) answer.1
                      ∙ true_right (errs v (injected_errors injected attempt pending)) (
                          read_errors-errs (sent_of injected attempt pending) errors answer v h₂
                            r)))
              | inr r ↦ inl (
                  send_inputs-there (inputs_of (sent_of injected attempt pending)) s s' errors
                    (omega (
                      arith,
                      length-inputs_of (sent_of injected attempt pending),
                      length-sent_of injected attempt pending,
                      n,
                    ))
                    h₁ v (has_input-inputs_of v (sent_of injected attempt pending) ∙ sent) r)
            ]
          ]
        ],
      )
    where
      true_right : (a : Bool) {b : Bool} → b ≡ true → (a || b) ≡ true
      true_right true h = refl
      true_right false h = h

  pub create_attempts-there :
      (fuel attempt : ℕ) (pending : List Indexed) (existing found : List GluePartitionInput)
      (s s' : S)
      → length pending ≤ 100
      → create_attempts glue injected fuel attempt pending existing s ≡ (ok found, s')
      → (v : Values) → (exists s v ≡ true) ⊎ (pends v pending ≡ true)
      → exists s' v ≡ true
  unfolding create_attempts create_attempt
  create_attempts-there fuel attempt [] existing found s s' n h v (inl e) =
      subst (λ t. exists t v ≡ true) (ap (λ p. p.1) h) e
  create_attempts-there fuel attempt [] existing found s s' n h v (inr e) = absurd (cc e)
  create_attempts-there zero attempt (p ∷ pending) existing found s s' n h v e =
      absurd (cc (ap (λ p. p.0) h))
  create_attempts-there (suc fuel) attempt (p ∷ pending) existing found s s' n h v e =
      then_after (create_attempt glue injected attempt (p ∷ pending) s) _ h (λ result s₁ a₁ h₁.
        then_after (send_inputs glue (inputs_of (sent_of injected attempt (p ∷ pending))) s) _ a₁
          (λ errors s₂ a₂ h₂.
            then_after (read_errors (sent_of injected attempt (p ∷ pending)) errors, s₂) _ h₂
              (λ answer s₃ a₃ h₃.
                then_after
                  (
                    creations_left attempt
                        (injected_errors injected attempt (p ∷ pending) ++ answer.1),
                    s₃,
                  )
                  _ h₃
                  (λ left s₄ a₄ h₄.
                    let (short, there) =
                      answered attempt (p ∷ pending) left errors answer s s₂ n a₂ (ap (λ p. p.0) a₃)
                        (ap (λ p. p.0) a₄) in
                    let same_left : left ≡ result.1 =
                      ap (λ r. r.1) (ok-injective (ap (λ p. p.0) h₄)) in
                    let same_state : s₂ ≡ s₁ =
                      ap (λ p. p.1) a₃ ∙ (ap (λ p. p.1) a₄ ∙ ap (λ p. p.1) h₄) in
                    create_attempts-there fuel (attempt + 1) result.1 (existing ++ result.0) found
                      s₁ s' (subst (λ l. length l ≤ 100) same_left short) h₁ v
                      (subst (λ t. (exists t v ≡ true) ⊎ (pends v result.1 ≡ true)) same_state
                        (subst (λ l. (exists s₂ v ≡ true) ⊎ (pends v l ≡ true)) same_left
                          (there v e)))))))

  pub create_attempts-NoFuel :
      (fuel attempt : ℕ) (pending : List Indexed) (existing : List GluePartitionInput) (s : S)
      → fuel + attempt ≡ 4
      → (attempt ≡ 4 → pending ≡ [])
      → (create_attempts glue injected fuel attempt pending existing s).0 ≢ err out_of_fuel
  unfolding create_attempts create_attempt
  create_attempts-NoFuel fuel attempt [] existing s e n = λ h. absurd (cc h)
  create_attempts-NoFuel zero attempt (p ∷ pending) existing s e n =
      λ h. absurd (cc (n (omega arith)))
  create_attempts-NoFuel (suc fuel) attempt (p ∷ pending) existing s e n =
      let sent = sent_of injected attempt (p ∷ pending) in
      and_then-NoFuel (create_attempt glue injected attempt (p ∷ pending) s) _
        (and_then-NoFuel (send_inputs glue (inputs_of sent) s) _
          (send_inputs-NoFuel (inputs_of sent) s)
          (λ errors s₂ h₂.
            and_then-NoFuel (read_errors sent errors, s₂) _ (read_errors-NoFuel sent errors)
              (λ answer s₃ h₃.
                and_then-NoFuel
                  (
                    creations_left attempt
                        (injected_errors injected attempt (p ∷ pending) ++ answer.1),
                    s₃,
                  )
                  _
                  (creations_left-NoFuel attempt
                    (injected_errors injected attempt (p ∷ pending) ++ answer.1))
                  (λ left s₄ h₄ x. absurd (cc x)))))
        (λ result s₁ a₁.
          create_attempts-NoFuel fuel (attempt + 1) result.1 (existing ++ result.0) s₁ (omega arith)
            (λ last.
              let three : attempt ≡ 3 = omega (arith, last) in
              then_after (send_inputs glue (inputs_of sent) s) _ a₁ (λ errors s₂ a₂ h₂.
                then_after (read_errors sent errors, s₂) _ h₂
                  (λ answer s₃ a₃ h₃.
                    then_after
                      (
                        creations_left attempt
                            (injected_errors injected attempt (p ∷ pending) ++ answer.1),
                        s₃,
                      )
                      _ h₃
                      (λ left s₄ a₄ h₄.
                        subst (λ l. l ≡ []) (ap (λ r. r.1) (ok-injective (ap (λ p. p.0) h₄)))
                          (creations_left-last
                            (injected_errors injected attempt (p ∷ pending) ++ answer.1) left
                            (subst
                              (λ n.
                                creations_left n
                                  (injected_errors injected attempt (p ∷ pending) ++ answer.1)
                                ≡ ok left)
                              three (ap (λ p. p.0) a₄))))))))
