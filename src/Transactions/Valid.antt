-- ===== src/Transactions/Valid.antt =====
-- What holds of GlueTransactionManager after every sequence of calls
-- (src/catalog/glue_transaction_manager.cpp).
use duckdb_aws_glue.Base.{
  ℕ, ◌+◌, ◌^◌, ◌≤◌, ◌<◌, ◌≡◌, ◌⊎◌, inl, inr, refl, sym, ◌∙◌, arith, ◌==◌, leb, Bool, true, false,
  length, List, [], ◌∷◌, ◌++◌, Option, none, some, Bool-cases,
}
use duckdb_aws_glue.Transactions.Rollback.{CreatedTable, GlueTransaction, DeleteOutcome}
use duckdb_aws_glue.Transactions.Manager.{
  idx_max, lookup, erase, Manager, no_transactions, oldest_running, still_needed,
  free_retired_entries, retire_entry, start_transaction, end_transaction, Event, starting, creating,
  committing, rolling_back, retiring, modify_to, modify, step, run,
}

-- The entry was retired at a sequence number and is kept.
abbrev pub Keeps : {E : Type 0} → ℕ → E → List (ℕ × E) → Type 0
Keeps r e [] = ⊥
Keeps r e ((r', e') ∷ rest) = ((r ≡ r') × (e ≡ e')) ⊎ Keeps r e rest

-- whether a call ends a transaction, or takes its address for another one
abbrev pub ends : {C Cache E : Type 0} → ℕ → Event C Cache E → Bool
ends address (committing a) = a == address
ends address (rolling_back a) = a == address
ends address (starting a cache) = a == address
ends address _ = false

pub oldest_running-le : (a s : ℕ) (l : List (ℕ × ℕ)) → lookup a l ≡ some s → oldest_running l ≤ s
unfolding oldest_running
oldest_running-le a s [] h = cc
oldest_running-le a s ((a', s') ∷ l) h = ground (arith, oldest_running-le a s l)

pub oldest_running-le_max : (l : List (ℕ × ℕ)) → oldest_running l ≤ idx_max
unfolding oldest_running
oldest_running-le_max [] = omega arith
oldest_running-le_max ((a', s') ∷ l) = ground (arith, oldest_running-le_max l)

pub lookup-erase :
    {A : Type 0} (a b : ℕ) (l : List (ℕ × A)) → (a == b) ≡ false → lookup b (erase a l) ≡ lookup b l
lookup-erase a b [] h = refl
lookup-erase a b ((k, x) ∷ l) h = ground (arith, lookup-erase a b l h)

pub still_needed-Keeps :
    {E : Type 0} (oldest r : ℕ) (e : E) (l : List (ℕ × E))
    → oldest < r
    → Keeps r e l
    → Keeps r e (still_needed oldest l)
unfolding still_needed
still_needed-Keeps oldest r e [] h k = k
still_needed-Keeps oldest r e ((r', e') ∷ l) h (inl (p, q)) = elim (Bool-cases (leb r' oldest)) [
  | inl low ↦ absurd (ground arith)
  | inr high ↦ rw high (inl (p, q))
]
still_needed-Keeps oldest r e ((r', e') ∷ l) h (inr k) = elim (Bool-cases (leb r' oldest)) [
  | inl low ↦ rw low (still_needed-Keeps oldest r e l h k)
  | inr high ↦ rw high (inr (still_needed-Keeps oldest r e l h k))
]

pub append-Keeps :
    {E : Type 0} (r : ℕ) (e : E) (l m : List (ℕ × E))
    → Keeps r e l ⊎ Keeps r e m
    → Keeps r e (l ++ m)
append-Keeps r e [] m (inl k) = absurd k
append-Keeps r e [] m (inr k) = k
append-Keeps r e ((r', e') ∷ l) m (inl (inl same)) = inl same
append-Keeps r e ((r', e') ∷ l) m (inl (inr k)) = inr (append-Keeps r e l m (inl k))
append-Keeps r e ((r', e') ∷ l) m (inr k) = inr (append-Keeps r e l m (inr k))

lookup-erase_self : {A : Type 0} (a : ℕ) (l : List (ℕ × A)) → lookup a (erase a l) ≡ none
lookup-erase_self a [] = refl
lookup-erase_self a ((k, y) ∷ l) = elim (Bool-cases (k == a)) [
  | inl same ↦ rw same (lookup-erase_self a l)
  | inr differ ↦ rw (differ, differ) (lookup-erase_self a l)
]

lookup_of_erase :
    {A : Type 0} (a b : ℕ) (x : A) (l : List (ℕ × A))
    → lookup b (erase a l) ≡ some x
    → lookup b l ≡ some x
lookup_of_erase a b x l h = elim (Bool-cases (a == b)) [
  | inl same ↦
      let e : a ≡ b = ground (arith, same) in
      let gone : lookup b (erase a l) ≡ none = rw e (lookup-erase_self b l) in absurd (cc (gone, h))
  | inr differ ↦ sym (lookup-erase a b l differ) ∙ h
]

-- Every entry was retired at a sequence number that an idx_t holds.
abbrev pub AllRetired : {E : Type 0} → List (ℕ × E) → Type 0
AllRetired [] = Unit
AllRetired ((r, e) ∷ l) = (r ≤ idx_max) × AllRetired l

append-AllRetired :
    {E : Type 0} (r : ℕ) (e : E) (l : List (ℕ × E))
    → AllRetired l
    → r ≤ idx_max
    → AllRetired (l ++ ((r, e) ∷ []))
append-AllRetired r e [] h b = (b, tt)
append-AllRetired r e (x ∷ l) h b = (h.0, append-AllRetired r e l h.1 b)

pub still_needed-AllRetired :
    {E : Type 0} (oldest : ℕ) (l : List (ℕ × E)) → AllRetired l → AllRetired (still_needed oldest l)
unfolding still_needed
still_needed-AllRetired oldest [] h = tt
still_needed-AllRetired oldest ((r, e) ∷ l) h = elim (Bool-cases (leb r oldest)) [
  | inl low ↦ rw low (still_needed-AllRetired oldest l h.1)
  | inr high ↦ rw high (h.0, still_needed-AllRetired oldest l h.1)
]

still_needed-none : {E : Type 0} (l : List (ℕ × E)) → AllRetired l → still_needed idx_max l ≡ []
unfolding still_needed
still_needed-none [] h = refl
still_needed-none ((r, e) ∷ l) h =
    let low : leb r idx_max ≡ true = ground (arith, h.0) in rw low (still_needed-none l h.1)

module _ {T E : Type 0} where
  pub record IsValid (m : Manager T E) : Type 0 where
    pub in_range : m.next_sequence < 2 ^ 64
    pub started_before : (a s : ℕ) → lookup a m.transaction_sequence ≡ some s → s < m.next_sequence
    pub retired : AllRetired m.retired_entries

  pub no_transactions-IsValid : IsValid no_transactions
  no_transactions-IsValid = record {
    in_range = omega arith;
    started_before = λ a s h. cc;
    retired = tt;
  }

  start_transaction-IsValid :
      (a : ℕ) (t : T) (m : Manager T E)
      → m.next_sequence + 1 < 2 ^ 64
      → IsValid m
      → IsValid (start_transaction a t m)
  unfolding start_transaction
  start_transaction-IsValid a t m small v = record {
    in_range = omega arith;
    started_before =
        λ b s h. ground (arith, v.started_before b s, lookup_of_erase a b s m.transaction_sequence);
    retired = v.retired;
  }

  retire_entry-IsValid : (e : E) (m : Manager T E) → IsValid m → IsValid (retire_entry e m)
  unfolding retire_entry
  retire_entry-IsValid e m v = record {
    in_range = v.in_range;
    started_before = v.started_before;
    retired =
        append-AllRetired m.next_sequence e m.retired_entries v.retired (omega (arith, v.in_range));
  }

  end_transaction-IsValid : (a : ℕ) (m : Manager T E) → IsValid m → IsValid (end_transaction a m)
  unfolding end_transaction free_retired_entries
  end_transaction-IsValid a m v = record {
    in_range = v.in_range;
    started_before = λ b s h. v.started_before b s (lookup_of_erase a b s m.transaction_sequence h);
    retired = still_needed-AllRetired _ m.retired_entries v.retired;
  }

  -- What a change of a transaction leaves as it was.
  pub modify-IsValid : (a : ℕ) (f : T → T) (m : Manager T E) → IsValid m → IsValid (modify a f m)
  modify-IsValid a f m v = elim (lookup a m.transactions) as (λ o. IsValid (modify_to a f o m)) [
    | none ↦ v
    | some t ↦ record {
      in_range = v.in_range;
      started_before = v.started_before;
      retired = v.retired;
    }
  ]

module _ {C Cache W : Type 0} (delete_table : CreatedTable C → W → DeleteOutcome × W) where
  pub step-IsValid :
      {E : Type 0} (event : Event C Cache E) (s : Manager (GlueTransaction C Cache) E × W)
      → s.0.next_sequence + 1 < 2 ^ 64
      → IsValid s.0
      → IsValid (step delete_table event s).0
  unfolding step
  step-IsValid (starting a cache) (m, w) small v = start_transaction-IsValid a _ m small v
  step-IsValid (creating a table) (m, w) small v = modify-IsValid a _ m v
  step-IsValid (committing a) (m, w) small v = end_transaction-IsValid a _ (modify-IsValid a _ m v)
  step-IsValid (rolling_back a) (m, w) small v = end_transaction-IsValid a m v
  step-IsValid (retiring e) (m, w) small v = retire_entry-IsValid e m v

  modify-next :
      {E : Type 0} (a : ℕ) (f : GlueTransaction C Cache → GlueTransaction C Cache)
      (m : Manager (GlueTransaction C Cache) E)
      → (o : Option (GlueTransaction C Cache)) → (modify_to a f o m).next_sequence ≡ m.next_sequence
  modify-next a f m none = refl
  modify-next a f m (some t) = refl

  step-next :
      {E : Type 0} (event : Event C Cache E) (s : Manager (GlueTransaction C Cache) E × W)
      → s.0.next_sequence + 1 < 2 ^ 64
      → (step delete_table event s).0.next_sequence ≤ s.0.next_sequence + 1
  unfolding step start_transaction end_transaction free_retired_entries retire_entry
  step-next (starting a cache) (m, w) small = omega arith
  step-next (creating a table) (m, w) small =
      omega (arith, modify-next a _ m (lookup a m.transactions))
  step-next (committing a) (m, w) small = omega (arith, modify-next a _ m (lookup a m.transactions))
  step-next (rolling_back a) (m, w) small = omega arith
  step-next (retiring e) (m, w) small = omega arith

  pub run-IsValid :
      {E : Type 0} (events : List (Event C Cache E)) (s : Manager (GlueTransaction C Cache) E × W)
      → s.0.next_sequence + length events < 2 ^ 64
      → IsValid s.0
      → IsValid (run delete_table events s).0
  unfolding run
  run-IsValid [] s small v = v
  run-IsValid (event ∷ events) s small v =
      run-IsValid events (step delete_table event s)
        (omega (arith, step-next event s (omega arith))) (step-IsValid event s (omega arith) v)

  pub run-next :
      {E : Type 0} (events : List (Event C Cache E)) (s : Manager (GlueTransaction C Cache) E × W)
      → s.0.next_sequence + length events < 2 ^ 64
      → (run delete_table events s).0.next_sequence ≤ s.0.next_sequence + length events
  unfolding run
  run-next [] s small = omega arith
  run-next (event ∷ events) s small =
      let first = step-next event s (omega arith) in
      omega (arith, first, run-next events (step delete_table event s) (omega (arith, first)))
