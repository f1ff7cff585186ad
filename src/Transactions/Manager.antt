-- ===== src/Transactions/Manager.antt =====
-- GlueTransactionManager (src/catalog/glue_transaction_manager.cpp). A transaction is known by its
-- address; an idx_t has 64 bits.
use duckdb_aws_glue.Base.{
  ℕ, ◌+◌, ◌-◌, ◌%◌, ◌^◌, ◌==◌, leb, ltb, true, List, [], ◌∷◌, ◌++◌, if◌then◌else◌, Option, none,
  some,
}
use duckdb_aws_glue.Transactions.Rollback.{
  CreatedTable, GlueTransaction, DeleteOutcome, start, commit, add_created_table, rollback,
}

-- NumericLimits<idx_t>::Maximum()
abbrev pub idx_max : ℕ
idx_max = 2 ^ 64 - 1

abbrev pub lookup : {A : Type 0} → ℕ → List (ℕ × A) → Option A
lookup key [] = none
lookup key ((k, a) ∷ rest) = if k == key then some a else lookup key rest

abbrev pub erase : {A : Type 0} → ℕ → List (ℕ × A) → List (ℕ × A)
erase key [] = []
erase key ((k, a) ∷ rest) = if k == key then erase key rest else (k, a) ∷ erase key rest

-- `map[key] = a`
abbrev pub put : {A : Type 0} → ℕ → A → List (ℕ × A) → List (ℕ × A)
put key a entries = (key, a) ∷ erase key entries

pub record Manager (T E : Type 0) : Type 0 where
  pub transactions : List (ℕ × T)
  pub transaction_sequence : List (ℕ × ℕ)
  pub next_sequence : ℕ
  pub retired_entries : List (ℕ × E)

abbrev pub no_transactions : {T E : Type 0} → Manager T E
no_transactions = record {
  transactions = [];
  transaction_sequence = [];
  next_sequence = 0;
  retired_entries = [];
}

-- the loop of FreeRetiredEntries, down from a start
unfoldable pub oldest_running : List (ℕ × ℕ) → ℕ
oldest_running [] = idx_max
oldest_running ((address, sequence) ∷ rest) =
    let oldest = oldest_running rest in if ltb sequence oldest then sequence else oldest

-- remove_if of FreeRetiredEntries
unfoldable pub still_needed : {E : Type 0} → ℕ → List (ℕ × E) → List (ℕ × E)
still_needed oldest [] = []
still_needed oldest ((retired_at, e) ∷ rest) =
    if leb retired_at oldest
    then still_needed oldest rest
    else (retired_at, e) ∷ still_needed oldest rest

module _ {T E : Type 0} where
  unfoldable pub free_retired_entries : Manager T E → Manager T E
  free_retired_entries m = record m {
    retired_entries = still_needed (oldest_running m.transaction_sequence) m.retired_entries;
  }

  unfoldable pub retire_entry : E → Manager T E → Manager T E
  retire_entry e m = record m { retired_entries = m.retired_entries ++ ((m.next_sequence, e) ∷ []) }

  -- StartTransaction, for the transaction that was made
  unfoldable pub start_transaction : ℕ → T → Manager T E → Manager T E
  start_transaction address t m = record m {
    transactions = put address t m.transactions;
    transaction_sequence = put address m.next_sequence m.transaction_sequence;
    next_sequence = (m.next_sequence + 1) % 2 ^ 64;
  }

  -- what CommitTransaction and RollbackTransaction both do at their end
  unfoldable pub end_transaction : ℕ → Manager T E → Manager T E
  unfolding free_retired_entries
  end_transaction address m = free_retired_entries (record m {
    transaction_sequence = erase address m.transaction_sequence;
    transactions = erase address m.transactions;
  })

-- a call on the manager, with the address of the transaction that it is for
pub data Event (C Cache E : Type 0) : Type 0 where
  starting : ℕ → Cache → Event C Cache E
  creating : ℕ → CreatedTable C → Event C Cache E
  committing : ℕ → Event C Cache E
  rolling_back : ℕ → Event C Cache E
  retiring : E → Event C Cache E

-- the transaction at an address changes
abbrev pub modify_to : {T E : Type 0} → ℕ → (T → T) → Option T → Manager T E → Manager T E
modify_to address f none m = m
modify_to address f (some t) m = record m { transactions = put address (f t) m.transactions }

abbrev pub modify : {T E : Type 0} → ℕ → (T → T) → Manager T E → Manager T E
modify address f m = modify_to address f (lookup address m.transactions) m

module _ {C Cache W : Type 0} (delete_table : CreatedTable C → W → DeleteOutcome × W) where
  -- what Glue is asked to drop for the transaction at an address
  abbrev rolled_back : Option (GlueTransaction C Cache) → W → W
  rolled_back none w = w
  rolled_back (some t) w = (rollback delete_table true t w).1.1

  unfoldable pub step :
      {E : Type 0}
      → Event C Cache E
      → Manager (GlueTransaction C Cache) E × W
      → Manager (GlueTransaction C Cache) E × W
  unfolding start_transaction end_transaction retire_entry start commit add_created_table rollback
  step (starting address cache) (m, w) = (start_transaction address (start cache) m, w)
  step (creating address table) (m, w) = (modify address (add_created_table table) m, w)
  step (committing address) (m, w) = (end_transaction address (modify address commit m), w)
  step (rolling_back address) (m, w) =
      (end_transaction address m, rolled_back (lookup address m.transactions) w)
  step (retiring e) (m, w) = (retire_entry e m, w)

  unfoldable pub run :
      {E : Type 0}
      → List (Event C Cache E)
      → Manager (GlueTransaction C Cache) E × W
      → Manager (GlueTransaction C Cache) E × W
  unfolding step
  run [] s = s
  run (event ∷ events) s = run events (step event s)
