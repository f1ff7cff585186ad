-- ===== src/Transactions/Cached.antt =====
-- What GlueTransactionCache keeps, and what it forgets (src/include/catalog/glue_transaction.hpp).
use mathlib.Core.Path.{subst}
use duckdb_aws_glue.Base.{
  ℕ, ◌≡◌, refl, ap, ◌∙◌, arith, ◌==◌, Bool, true, false, List, [], ◌∷◌, Text, text_eq, text_eq_refl,
  text_eq_sound, Option, none, some, Outcome, ok, err, ok-injective, Bool-cases, inl, inr,
}
use duckdb_aws_glue.DuckDb.{DuckDb, lower}
use duckdb_aws_glue.Query.Listings.{lookup}
use duckdb_aws_glue.Transactions.Manager.{lookup as value_of}
use duckdb_aws_glue.Transactions.Entries.{
  Entries, found, find_entry, resolved, resolve, get, Event, finding, resolving, clearing, step,
  run,
}

abbrev pub is_clearing : {V : Type 0} → Event V → Bool
is_clearing clearing = true
is_clearing _ = false

abbrev pub any_clearing : {V : Type 0} → List (Event V) → Bool
any_clearing [] = false
any_clearing (clearing ∷ events) = true
any_clearing (_ ∷ events) = any_clearing events

lookup-cons :
    {A : Type 0} (key other : Text) (a b : A) (l : List (Text × A))
    → lookup other l ≡ none
    → lookup key l ≡ some a
    → lookup key ((other, b) ∷ l) ≡ some a
lookup-cons key other a b l missing h = elim (Bool-cases (text_eq other key)) [
  | inl same ↦
      let e : other ≡ key = text_eq_sound other key same in
      let gone : lookup key l ≡ none = rw (← e) missing in absurd (cc (gone, h))
  | inr differ ↦ rw differ h
]

value_of-cons :
    {A : Type 0} (slot other : ℕ) (v x : A) (l : List (ℕ × A))
    → value_of other l ≡ none
    → value_of slot l ≡ some v
    → value_of slot ((other, x) ∷ l) ≡ some v
value_of-cons slot other v x l missing h = elim (Bool-cases (other == slot)) [
  | inl same ↦
      let e : other ≡ slot = ground (arith, same) in
      let gone : value_of slot l ≡ none = rw (← e) missing in absurd (cc (gone, h))
  | inr differ ↦ rw differ h
]

module _ {V : Type 0} ⦃db : DuckDb⦄ where
  -- The entry of a key holds a value.
  abbrev Holds : Text → ℕ → V → Entries V → Type 0
  Holds key slot v m = (lookup (lower key) m.slots ≡ some slot) × (value_of slot m.values ≡ some v)

  found-Holds :
      (key : Text) (slot : ℕ) (v : V) (other : Text) (o : Option ℕ) (m : Entries V)
      → lookup other m.slots ≡ o
      → Holds key slot v m
      → Holds key slot v (found other o m).1
  found-Holds key slot v other none m e h =
      (lookup-cons (lower key) other slot m.allocated m.slots e h.0, h.1)
  found-Holds key slot v other (some s) m e h = h

  resolved-Holds :
      {W : Type 0} (key : Text) (slot : ℕ) (v : V) (s : ℕ) (o : Option V)
      (load : W → Outcome (Option V) × W) (answer : Outcome (Option V)) (m : Entries V) (w : W)
      → value_of s m.values ≡ o
      → (load w).0 ≡ answer
      → Holds key slot v m
      → Holds key slot v (resolved o s load m w).1.0
  resolved-Holds key slot v s (some x) load answer m w e a h = h
  resolved-Holds key slot v s none load (ok (some x)) m w e a h =
      rw a (h.0, value_of-cons slot s v x m.values e h.1)
  resolved-Holds key slot v s none load (ok none) m w e a h = rw a h
  resolved-Holds key slot v s none load (err thrown) m w e a h = rw a h

  step-Holds :
      (key : Text) (slot : ℕ) (v : V) (event : Event V) (m : Entries V)
      → is_clearing event ≡ false
      → Holds key slot v m
      → Holds key slot v (step event m)
  unfolding step find_entry resolve
  step-Holds key slot v (finding other) m no_clear h =
      found-Holds key slot v (lower other) _ m refl h
  step-Holds key slot v (resolving s answer) m no_clear h =
      resolved-Holds {W = Unit {0}} key slot v s _ (λ w. (answer, w)) answer m tt refl refl h
  step-Holds key slot v clearing m no_clear h = cc

  run-Holds :
      (key : Text) (slot : ℕ) (v : V) (events : List (Event V)) (m : Entries V)
      → any_clearing events ≡ false
      → Holds key slot v m
      → Holds key slot v (run events m)
  unfolding run
  run-Holds key slot v [] m no_clear h = h
  run-Holds key slot v (finding k ∷ events) m no_clear h =
      run-Holds key slot v events (step (finding k) m) no_clear
        (step-Holds key slot v (finding k) m refl h)
  run-Holds key slot v (resolving s a ∷ events) m no_clear h =
      run-Holds key slot v events (step (resolving s a) m) no_clear
        (step-Holds key slot v (resolving s a) m refl h)
  run-Holds key slot v (clearing ∷ events) m no_clear h = cc

  found-lookup :
      (key : Text) (o : Option ℕ) (m : Entries V)
      → lookup key m.slots ≡ o
      → lookup key (found key o m).1.slots ≡ some (found key o m).0
  found-lookup key none m e = rw (text_eq_refl key) refl
  found-lookup key (some slot) m e = e

  resolved-kept :
      {W : Type 0} (slot : ℕ) (v : V) (o : Option V) (load : W → Outcome (Option V) × W)
      (answer : Outcome (Option V)) (m : Entries V) (w : W)
      → value_of slot m.values ≡ o
      → (load w).0 ≡ answer
      → (resolved o slot load m w).0 ≡ ok (some v)
      → (value_of slot (resolved o slot load m w).1.0.values ≡ some v)
        × ((resolved o slot load m w).1.0.slots ≡ m.slots)
  resolved-kept slot v (some x) load answer m w e a h = (e ∙ ok-injective h, refl)
  resolved-kept slot v none load (ok (some x)) m w e a h =
      let same : x ≡ v = cc (a, h) in rw (a, same) (ground arith, refl)
  resolved-kept slot v none load (ok none) m w e a h = absurd (cc (a, h))
  resolved-kept slot v none load (err thrown) m w e a h = absurd (cc (a, h))

  get-Holds :
      {W : Type 0} (key : Text) (load : W → Outcome (Option V) × W) (m m₁ : Entries V) (w w₁ : W)
      (v : V)
      → get key load m w ≡ (ok (some v), (m₁, w₁))
      → (slot : ℕ) × Holds key slot v m₁
  unfolding get find_entry resolve
  get-Holds key load m m₁ w w₁ v h =
      let f = find_entry key m in
      let there : lookup (lower key) f.1.slots ≡ some f.0 = found-lookup (lower key) _ m refl in
      let kept = resolved-kept f.0 v _ load _ f.1 w refl refl (ap (λ p. p.0) h) in
      subst (λ n. (slot : ℕ) × Holds key slot v n) (ap (λ p. p.1.0) h)
        (f.0, (ap (lookup (lower key)) kept.1 ∙ there, kept.0))

  get-hit :
      {W : Type 0} (key : Text) (slot : ℕ) (v : V) (load : W → Outcome (Option V) × W)
      (m : Entries V) (w : W)
      → Holds key slot v m
      → get key load m w ≡ (ok (some v), (m, w))
  unfolding get find_entry resolve
  get-hit key slot v load m w h = rw h.0 (rw h.1 refl)

  -- What a transaction found of a table is what it finds from then on: unless the cache is cleared,
  -- whatever other readers look up and load in between, the same name in any case gets the same
  -- definition, and Glue is not asked again.
  pub get-once :
      {W : Type 0} (key again : Text) (load load' : W → Outcome (Option V) × W) (m m₁ : Entries V)
      (w w₁ w' : W) (v : V) (events : List (Event V))
      → get key load m w ≡ (ok (some v), (m₁, w₁))
      → lower again ≡ lower key
      → any_clearing events ≡ false
      → get again load' (run events m₁) w' ≡ (ok (some v), (run events m₁, w'))
  get-once key again load load' m m₁ w w₁ w' v events h same no_clear =
      let (slot, holds) = get-Holds key load m m₁ w w₁ v h in
      let kept = run-Holds key slot v events m₁ no_clear holds in
      get-hit again slot v load' (run events m₁) w'
        (ap (λ k. lookup k (run events m₁).slots) same ∙ kept.0, kept.1)
