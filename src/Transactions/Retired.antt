-- ===== src/Transactions/Retired.antt =====
-- How long GlueTransactionManager keeps the catalog entries that left the catalog
-- (src/catalog/glue_transaction_manager.cpp).
use duckdb_aws_glue.Base.{
  ℕ, ◌^◌, ◌≤◌, ◌<◌, ◌≡◌, ◌⊎◌, inl, inr, refl, ◌∙◌, arith, ◌==◌, leb, ltb, Bool, true, false, any,
  length, List, [], ◌∷◌, if◌then◌else◌, Option, none, some, Bool-cases,
}
use duckdb_aws_glue.Transactions.Rollback.{commit, CreatedTable, GlueTransaction, DeleteOutcome}
use duckdb_aws_glue.Transactions.Manager.{
  idx_max, lookup, erase, Manager, no_transactions, oldest_running, still_needed,
  free_retired_entries, retire_entry, start_transaction, end_transaction, Event, starting, creating,
  committing, rolling_back, retiring, modify_to, modify, step, run,
}
use duckdb_aws_glue.Transactions.Valid.{
  Keeps, ends, oldest_running-le, lookup-erase, still_needed-Keeps, append-Keeps, AllRetired,
  no_transactions-IsValid, IsValid, run-IsValid, modify-IsValid,
}

-- A running transaction, the entry that it may use, and the number of each.
abbrev Uses : {T E : Type 0} → ℕ → ℕ → ℕ → E → Manager T E → Type 0
Uses a q r e m = (lookup a m.transaction_sequence ≡ some q) × (q < r) × Keeps r e m.retired_entries

module _ {T E : Type 0} where
  modify-Uses :
      (a q r : ℕ) (e : E) (b : ℕ) (f : T → T) (o : Option T) (m : Manager T E)
      → Uses a q r e m
      → Uses a q r e (modify_to b f o m)
  modify-Uses a q r e b f none m u = u
  modify-Uses a q r e b f (some t) m u = u

  end_transaction-Uses :
      (a q r : ℕ) (e : E) (b : ℕ) (m : Manager T E)
      → (b == a) ≡ false
      → Uses a q r e m
      → Uses a q r e (end_transaction b m)
  unfolding end_transaction free_retired_entries
  end_transaction-Uses a q r e b m other u =
      let running : lookup a (erase b m.transaction_sequence) ≡ some q =
        lookup-erase b a m.transaction_sequence other ∙ u.0 in
      (
        running,
        u.1,
        still_needed-Keeps _ r e m.retired_entries
            (omega (arith, u.1, oldest_running-le a q (erase b m.transaction_sequence) running))
            u.2,
      )

module _ {C Cache W E : Type 0} (delete_table : CreatedTable C → W → DeleteOutcome × W) where
  step-Uses :
      (a q r : ℕ) (e : E) (event : Event C Cache E) (s : Manager (GlueTransaction C Cache) E × W)
      → ends a event ≡ false
      → Uses a q r e s.0
      → Uses a q r e (step delete_table event s).0
  unfolding step start_transaction retire_entry
  step-Uses a q r e (starting b cache) (m, w) other u =
      (rw other (lookup-erase b a m.transaction_sequence other ∙ u.0), u.1, u.2)
  step-Uses a q r e (creating b table) (m, w) other u =
      modify-Uses a q r e b _ (lookup b m.transactions) m u
  step-Uses a q r e (committing b) (m, w) other u =
      end_transaction-Uses a q r e b (modify b commit m) other
        (modify-Uses a q r e b commit (lookup b m.transactions) m u)
  step-Uses a q r e (rolling_back b) (m, w) other u = end_transaction-Uses a q r e b m other u
  step-Uses a q r e (retiring e') (m, w) other u =
      (u.0, u.1, append-Keeps r e m.retired_entries _ (inl u.2))

  run-Uses :
      (a q r : ℕ) (e : E) (events : List (Event C Cache E))
      (s : Manager (GlueTransaction C Cache) E × W)
      → any (ends a) events ≡ false
      → Uses a q r e s.0
      → Uses a q r e (run delete_table events s).0
  unfolding run
  run-Uses a q r e [] s others u = u
  run-Uses a q r e (event ∷ events) s others u =
      run-Uses a q r e events (step delete_table event s) (ground arith)
        (step-Uses a q r e event s (ground arith) u)

  -- A catalog entry that leaves the catalog while a transaction runs is kept at least until that
  -- transaction ends, whatever other transactions start, end, or retire in between: for every
  -- sequence of less than 2 ^ 64 calls before, and every sequence of calls after that neither ends the
  -- transaction nor starts another one at its address.
  pub retire_entry-kept :
      (before after : List (Event C Cache E)) (w : W) (a q : ℕ) (e : E)
      → length before < 2 ^ 64
      → lookup a (run delete_table before (no_transactions, w)).0.transaction_sequence ≡ some q
      → any (ends a) after ≡ false
      → Keeps
          (run delete_table before (no_transactions, w)).0.next_sequence
          e
          (run delete_table
            (retiring e ∷ after)
            (run delete_table before (no_transactions, w))).0.retired_entries
  unfolding run step retire_entry
  retire_entry-kept before after w a q e few running others =
      let s = run delete_table before (no_transactions, w) in
      let valid : IsValid s.0 =
        run-IsValid delete_table before (no_transactions, w) (omega arith)
          no_transactions-IsValid in
      (run-Uses a q s.0.next_sequence e after (step delete_table (retiring e) s) others (
        running,
        valid.started_before a q running,
        append-Keeps s.0.next_sequence e s.0.retired_entries _ (inr (inl (refl, refl))),
      )).2

oldest_running-found :
    (r : ℕ) (l : List (ℕ × ℕ))
    → r ≤ idx_max
    → oldest_running l < r
    → (a : ℕ) × (q : ℕ) × Keeps a q l × (q < r)
unfolding oldest_running
oldest_running-found r [] b h = absurd (omega arith)
oldest_running-found r ((a, q) ∷ l) b h = elim (Bool-cases (ltb q r)) [
  | inl early ↦ (a, q, inl (refl, refl), ground (arith, early))
  | inr late ↦
      let (a', q', k, lt) = oldest_running-found r l b (ground (arith, late)) in (a', q', inr k, lt)
]

Keeps-split :
    {E : Type 0} (r r' : ℕ) (e e' : E) (b : Bool) (l : List (ℕ × E))
    → Keeps r e (if b then l else (r', e') ∷ l)
    → ((b ≡ false) × (r ≡ r')) ⊎ Keeps r e l
Keeps-split r r' e e' true l k = inr k
Keeps-split r r' e e' false l (inl (p, q)) = inl (refl, p)
Keeps-split r r' e e' false l (inr k) = inr k

still_needed-needed :
    {E : Type 0} (oldest r : ℕ) (e : E) (l : List (ℕ × E))
    → AllRetired l
    → Keeps r e (still_needed oldest l)
    → (oldest < r) × (r ≤ idx_max)
unfolding still_needed
still_needed-needed oldest r e [] v k = absurd k
still_needed-needed oldest r e ((r', e') ∷ l) v k =
    elim (Keeps-split r r' e e' (leb r' oldest) (still_needed oldest l) k) [
      | inl (high, same) ↦ (ground arith, omega (arith, v.0))
      | inr rest ↦ still_needed-needed oldest r e l v.1 rest
    ]

end_transaction-needed :
    {T E : Type 0} (b r : ℕ) (e : E) (m : Manager T E)
    → IsValid m
    → Keeps r e (end_transaction b m).retired_entries
    → (a : ℕ) × (q : ℕ) × Keeps a q (end_transaction b m).transaction_sequence × (q < r)
unfolding end_transaction free_retired_entries
end_transaction-needed b r e m v k =
    let (late, fits) =
      still_needed-needed (oldest_running (erase b m.transaction_sequence)) r e m.retired_entries
        v.retired k in
    oldest_running-found r (erase b m.transaction_sequence) fits late

-- No catalog entry is kept for longer than needed: after every sequence of less than 2 ^ 64 calls,
-- once a transaction has committed or rolled back, each entry that is still kept was retired after
-- the start of a transaction that still runs.
pub run-freed :
    {C Cache W E : Type 0} (delete_table : CreatedTable C → W → DeleteOutcome × W)
    (events : List (Event C Cache E)) (w : W) (b r : ℕ) (e : E) (rolls_back : Bool)
    → length events < 2 ^ 64
    → Keeps r e
        (step delete_table
          (if rolls_back then rolling_back b else committing b)
          (run delete_table events (no_transactions, w))).0.retired_entries
    → (a : ℕ) × (q : ℕ) × Keeps a q
        (step delete_table
          (if rolls_back then rolling_back b else committing b)
          (run delete_table events (no_transactions, w))).0.transaction_sequence
      × (q < r)
unfolding step
run-freed delete_table events w b r e true few k =
    let s = run delete_table events (no_transactions, w) in
    end_transaction-needed b r e s.0
      (run-IsValid delete_table events (no_transactions, w) (omega arith) no_transactions-IsValid) k
run-freed delete_table events w b r e false few k =
    let s = run delete_table events (no_transactions, w) in
    end_transaction-needed b r e (modify b commit s.0)
      (modify-IsValid b commit s.0 (
        run-IsValid delete_table events (no_transactions, w) (omega arith) no_transactions-IsValid))
      k
