-- ===== src/Partitions/Finds.antt =====
-- What one batch of PartitionLocations finds (src/api/glue_partition_api.cpp).
use mathlib.Core.Path.{subst}
use duckdb_aws_glue.Base.{
  ℕ, zero, suc, ◌≤◌, ◌≡◌, ◌⊎◌, inl, inr, refl, sym, ap, ◌∙◌, arith, Bool, true, false, ◌||◌, List,
  [], ◌∷◌, Text, length, ◌==◌, ok, Bool-cases, ok-injective,
}
use duckdb_aws_glue.Partitions.Service.{Values, values_eq, values_eq_sound, values_lt, mem, emplace}
use duckdb_aws_glue.Partitions.Answers.{then_after}
use duckdb_aws_glue.Partitions.Locate.{
  Locations, has_location, BatchGet, DocumentedGet, add_found, locate_attempts,
}

has_location-emplace :
    (u v : Values) (l : Text) (m : Locations)
    → has_location v (emplace u l m) ≡ (values_eq u v || has_location v m)
unfolding emplace
has_location-emplace u v l [] = refl
has_location-emplace u v l ((w, k) ∷ m) = elim (Bool-cases (values_eq w u)) [
  | inl same ↦
      let e : w ≡ u = values_eq_sound w u same in
      rw (same, e) (twice (values_eq u v) (has_location v m))
  | inr differ ↦ elim (Bool-cases (values_lt u w)) [
    | inl before ↦ rw (differ, before) refl
    | inr later ↦
        rw (differ, later, has_location-emplace u v l m)
          (swapped (values_eq w v) (values_eq u v) (has_location v m))
  ]
]
  where
    twice : (a b : Bool) → (a || b) ≡ (a || (a || b))
    twice true b = refl
    twice false b = refl

    swapped : (a b c : Bool) → (a || (b || c)) ≡ (b || (a || c))
    swapped true true c = refl
    swapped true false c = refl
    swapped false true c = refl
    swapped false false c = refl

has_location-add_found :
    (v : Values) (found m : Locations)
    → has_location v (add_found found m) ≡ (has_location v found || has_location v m)
unfolding add_found
has_location-add_found v [] m = refl
has_location-add_found v ((u, l) ∷ found) m =
    has_location-add_found v found (emplace u l m)
    ∙ (ap (λ b. has_location v found || b) (has_location-emplace u v l m)
        ∙ swapped (has_location v found) (values_eq u v) (has_location v m))
  where
    swapped : (a b c : Bool) → (a || (b || c)) ≡ ((b || a) || c)
    swapped true true c = refl
    swapped true false c = refl
    swapped false true c = refl
    swapped false false c = refl

module _ {S : Type 0} {get : BatchGet S} {exists : S → Values → Bool}
    (docs : DocumentedGet get exists) where
  -- What was found before stays, and what was asked for and exists is found; what is found exists.
  abbrev pub Finds : List Values → Locations → Locations → S → Type 0
  Finds keys existing result s =
      (v : Values)
      → ((has_location v existing ≡ true) ⊎ ((mem v keys ≡ true) × (exists s v ≡ true))
          → has_location v result ≡ true)
        × (has_location v result ≡ true → (has_location v existing ≡ true) ⊎ (exists s v ≡ true))

  Finds-step :
      (keys left : List Values) (found existing result : Locations) (s s₁ : S)
      → length keys ≤ 1000
      → get keys s ≡ (ok (found, left), s₁)
      → ((v : Values) → exists s₁ v ≡ exists s v)
      → Finds left (add_found found existing) result s₁
      → Finds keys existing result s
  Finds-step keys left found existing result s s₁ n h kept ih v = (forth, back)
    where
      added :
          has_location v (add_found found existing)
          ≡ (has_location v found || has_location v existing)
      added = has_location-add_found v found existing

      right : (a : Bool) {b : Bool} → b ≡ true → (a || b) ≡ true
      right true e = refl
      right false e = e

      forth :
          (has_location v existing ≡ true) ⊎ ((mem v keys ≡ true) × (exists s v ≡ true))
          → has_location v result ≡ true
      forth (inl there) = (ih v).0 (inl (added ∙ right (has_location v found) there))
      forth (inr (m, x)) = elim (docs.get-found keys left found s s₁ n h v m x) [
        | inl f ↦ (ih v).0 (inl (added ∙ rw (f) refl))
        | inr l ↦ (ih v).0 (inr (l, kept v ∙ x))
      ]

      either :
          has_location v (add_found found existing) ≡ true
          → (has_location v existing ≡ true) ⊎ (exists s v ≡ true)
      either e = elim (Bool-cases (has_location v found)) [
        | inl f ↦ inr (docs.get-sound keys left found s s₁ h v f)
        | inr f ↦ inl (rw (f) at (sym added ∙ e))
      ]

      back : has_location v result ≡ true → (has_location v existing ≡ true) ⊎ (exists s v ≡ true)
      back r = elim ((ih v).1 r) [ inl e ↦ either e | inr x ↦ inr (sym (kept v) ∙ x) ]

  pub locate_attempts-Finds :
      (fuel attempt : ℕ) (keys : List Values) (existing result : Locations) (s s' : S)
      → length keys ≤ 1000
      → locate_attempts get fuel attempt keys existing s ≡ (ok result, s')
      → Finds keys existing result s × ((v : Values) → exists s' v ≡ exists s v)
  unfolding locate_attempts
  locate_attempts-Finds fuel attempt [] existing result s s' n h =
      let same : existing ≡ result = ok-injective (ap (λ p. p.0) h) in
      (
        λ v. (
          λ e. elim e [
            | inl there ↦ subst (λ m. has_location v m ≡ true) same there
            | inr (m, x) ↦ absurd (cc m)
          ],
          λ there. inl (subst (λ m. has_location v m ≡ true) (sym same) there),
        ),
        λ v. ap (λ t. exists t v) (sym (ap (λ p. p.1) h)),
      )
  locate_attempts-Finds zero attempt (k ∷ keys) existing result s s' n h =
      absurd (cc (ap (λ p. p.0) h))
  locate_attempts-Finds (suc fuel) attempt (k ∷ keys) existing result s s' n h =
      elim (Bool-cases (attempt == 4)) [
        | inl last ↦ absurd (cc (ap (λ p. p.0) (rw (last) at h)))
        | inr more ↦ then_after (get (k ∷ keys) s) _ (rw (more) at h) (λ answer s₁ h₁ h₂.
            let short : length answer.1 ≤ length (k ∷ keys) =
              docs.get-length (k ∷ keys) answer.1 answer.0 s s₁ h₁ in
            let ih =
              locate_attempts-Finds fuel _ answer.1 (add_found answer.0 existing) result s₁ s'
                (omega (arith, short, n)) h₂ in
            let kept : (v : Values) → exists s₁ v ≡ exists s v =
              λ v. ap (λ t. exists t v) (sym (ap (λ p. p.1) h₁)) ∙ docs.get-exists (k ∷ keys) s v in
            (
              Finds-step (k ∷ keys) answer.1 answer.0 existing result s s₁ n h₁ kept ih.0,
              λ v. ih.1 v ∙ kept v,
            ))
      ]
