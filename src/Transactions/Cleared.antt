-- ===== src/Transactions/Cleared.antt =====
-- Nothing of GlueTransactionCache outlives Clear (src/include/catalog/glue_transaction.hpp).
use duckdb_aws_glue.Base.{
  ℕ, ◌+◌, ◌<◌, ◌≡◌, refl, ◌∙◌, arith, List, [], ◌∷◌, Text, Option, none, some, Outcome, ok, err,
}
use duckdb_aws_glue.DuckDb.{DuckDb, lower}
use duckdb_aws_glue.Transactions.Manager.{lookup as value_of}
use duckdb_aws_glue.Transactions.Entries.{
  Entries, no_entries, found, find_entry, resolved, resolve, get, clear, Event, finding, resolving,
  clearing, step, run,
}

-- A reader resolves only an entry that it was given.
abbrev pub Handed : {V : Type 0} → ℕ → Event V → Type 0
Handed allocated (finding key) = Unit
Handed allocated (resolving slot answer) = slot < allocated
Handed allocated clearing = Unit

-- the states that readers can bring about
pub data Reach {V : Type 0} ⦃db : DuckDb⦄ : Entries V → Type 0 where
  fresh : Reach no_entries
  later :
      {m : Entries V}
      → Reach m
      → (event : Event V) → Handed m.allocated event
      → Reach (step event m)

-- Readers that found their entries before come back with what they loaded.
abbrev pub Stale : {V : Type 0} → ℕ → List (Event V) → Type 0
Stale allocated [] = Unit
Stale allocated (resolving slot answer ∷ events) = (slot < allocated) × Stale allocated events
Stale allocated (_ ∷ events) = ⊥

abbrev ValuesBelow : {V : Type 0} → ℕ → List (ℕ × V) → Type 0
ValuesBelow n [] = Unit
ValuesBelow n ((slot, v) ∷ l) = (slot < n) × ValuesBelow n l

ValuesBelow-suc : {V : Type 0} (n : ℕ) (l : List (ℕ × V)) → ValuesBelow n l → ValuesBelow (n + 1) l
ValuesBelow-suc n [] h = tt
ValuesBelow-suc n ((slot, v) ∷ l) h = (omega (arith, h.0), ValuesBelow-suc n l h.1)

value_of-fresh : {V : Type 0} (n : ℕ) (l : List (ℕ × V)) → ValuesBelow n l → value_of n l ≡ none
value_of-fresh n [] h = refl
value_of-fresh n ((slot, v) ∷ l) h = ground (arith, h.0, value_of-fresh n l h.1)

module _ {V : Type 0} where
  found-Below :
      (key : Text) (o : Option ℕ) (m : Entries V)
      → ValuesBelow m.allocated m.values
      → ValuesBelow (found key o m).1.allocated (found key o m).1.values
  found-Below key none m h = ValuesBelow-suc m.allocated m.values h
  found-Below key (some slot) m h = h

  -- what resolving an entry leaves as it was
  resolved-rest :
      (slot : ℕ) (o : Option V) (answer : Outcome (Option V)) (m : Entries V)
      → slot < m.allocated
      → ValuesBelow m.allocated m.values
      → ((resolved {W = Unit {0}} o slot (λ w. (answer, w)) m tt).1.0.slots ≡ m.slots)
        × ((resolved {W = Unit {0}} o slot (λ w. (answer, w)) m tt).1.0.allocated ≡ m.allocated)
        × ValuesBelow m.allocated
            (resolved {W = Unit {0}} o slot (λ w. (answer, w)) m tt).1.0.values
  resolved-rest slot (some v) answer m lt h = (refl, refl, h)
  resolved-rest slot none (ok (some v)) m lt h = (refl, refl, (lt, h))
  resolved-rest slot none (ok none) m lt h = (refl, refl, h)
  resolved-rest slot none (err e) m lt h = (refl, refl, h)

module _ {V : Type 0} ⦃db : DuckDb⦄ where
  Reach-Below : {m : Entries V} → Reach m → ValuesBelow m.allocated m.values
  unfolding step find_entry resolve clear
  Reach-Below fresh = tt
  Reach-Below (later {m} r (finding key) h) = found-Below (lower key) _ m (Reach-Below r)
  Reach-Below (later {m} r (resolving slot answer) h) =
      let rest = resolved-rest slot (value_of slot m.values) answer m h (Reach-Below r) in
      rw rest.1 rest.2
  Reach-Below (later {m} r clearing h) = Reach-Below r

  run-Stale :
      (events : List (Event V)) (m : Entries V)
      → Stale m.allocated events
      → ValuesBelow m.allocated m.values
      → ((run events m).slots ≡ m.slots)
        × ((run events m).allocated ≡ m.allocated)
        × ValuesBelow (run events m).allocated (run events m).values
  unfolding run step resolve
  run-Stale [] m s h = (refl, refl, h)
  run-Stale (resolving slot answer ∷ events) m s h =
      let rest = resolved-rest slot (value_of slot m.values) answer m s.0 h in
      let after =
        (resolved {W = Unit {0}} (value_of slot m.values) slot (λ w. (answer, w)) m tt).1.0 in
      let (a, b, c) = run-Stale events after (rw rest.1 s.1) (rw rest.1 rest.2) in
      (a ∙ rest.0, b ∙ rest.1, c)
  run-Stale (finding key ∷ events) m s h = absurd s
  run-Stale (clearing ∷ events) m s h = absurd s

  -- Nothing that was found before Clear is found after it: a reader asks Glue, whatever was cached, and
  -- even where readers that had found their entries before come back with what they loaded in between.
  pub get-clear :
      {W : Type 0} {m : Entries V} (reach : Reach m) (stale : List (Event V)) (key : Text)
      (load : W → Outcome (Option V) × W) (w : W)
      → Stale m.allocated stale
      → ((get key load (run stale (clear m)) w).0 ≡ (load w).0)
        × ((get key load (run stale (clear m)) w).1.1 ≡ (load w).1)
  unfolding get find_entry resolve clear
  get-clear {m = m} reach stale key load w s =
      let (a, b, c) = run-Stale stale (record m { slots = [] }) s (Reach-Below reach) in
      rw a (rw (value_of-fresh _ _ c) (refl, refl))
