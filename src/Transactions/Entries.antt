-- ===== src/Transactions/Entries.antt =====
-- The cached values of GlueTransactionCache (src/include/catalog/glue_transaction.hpp): FindEntry and
-- Resolve are apart, since others may run in between. An entry is known by the number of its
-- allocation, and a reader that found it keeps it alive.
use duckdb_aws_glue.Base.{ℕ, ◌+◌, List, [], ◌∷◌, Text, Option, none, some, Outcome, ok, err}
use duckdb_aws_glue.DuckDb.{DuckDb, lower}
use duckdb_aws_glue.Query.Listings.{lookup}
use duckdb_aws_glue.Transactions.Manager.{lookup as value_of}

-- `values` has no value for an entry that holds null.
pub record Entries (V : Type 0) : Type 0 where
  pub slots : List (Text × ℕ)
  pub values : List (ℕ × V)
  pub allocated : ℕ

abbrev pub no_entries : {V : Type 0} → Entries V
no_entries = record { slots = []; values = []; allocated = 0 }

module _ {V : Type 0} where
  abbrev pub found : Text → Option ℕ → Entries V → ℕ × Entries V
  found key (some slot) m = (slot, m)
  found key none m =
      (m.allocated, record m { slots = (key, m.allocated) ∷ m.slots; allocated = m.allocated + 1 })

  -- FindEntry
  unfoldable pub find_entry : ⦃db : DuckDb⦄ → Text → Entries V → ℕ × Entries V
  find_entry key m = found (lower key) (lookup (lower key) m.slots) m

  -- what a load leaves in the entry: null where it found nothing, and where it threw
  abbrev pub stored : ℕ → Outcome (Option V) → Entries V → Entries V
  stored slot (ok (some v)) m = record m { values = (slot, v) ∷ m.values }
  stored slot (ok none) m = m
  stored slot (err e) m = m

  abbrev pub resolved :
      {W : Type 0}
      → Option V
      → ℕ
      → (W → Outcome (Option V) × W)
      → Entries V
      → W
      → Outcome (Option V) × (Entries V × W)
  resolved (some v) slot load m w = (ok (some v), (m, w))
  resolved none slot load m w = ((load w).0, (stored slot (load w).0 m, (load w).1))

  -- Resolve
  unfoldable pub resolve :
      {W : Type 0}
      → ℕ
      → (W → Outcome (Option V) × W)
      → Entries V
      → W
      → Outcome (Option V) × (Entries V × W)
  resolve slot load m w = resolved (value_of slot m.values) slot load m w

  -- GetTable and GetPartitions, for a key
  unfoldable pub get :
      ⦃db : DuckDb⦄
      → {W : Type 0} → Text
      → (W → Outcome (Option V) × W)
      → Entries V
      → W
      → Outcome (Option V) × (Entries V × W)
  unfolding find_entry resolve
  get key load m w = let f = find_entry key m in resolve f.0 load f.1 w

  -- the clear of a map
  unfoldable pub clear : Entries V → Entries V
  clear m = record m { slots = [] }

-- What other readers do in between: one finds an entry, one resolves an entry that it found, with what
-- its load comes back with, or the cache is cleared.
pub data Event (V : Type 0) : Type 0 where
  finding : Text → Event V
  resolving : ℕ → Outcome (Option V) → Event V
  clearing : Event V

module _ {V : Type 0} ⦃db : DuckDb⦄ where
  unfoldable pub step : Event V → Entries V → Entries V
  unfolding find_entry resolve clear
  step (finding key) m = (find_entry key m).1
  step (resolving slot answer) m = (resolve {W = Unit {0}} slot (λ w. (answer, w)) m tt).1.0
  step clearing m = clear m

  unfoldable pub run : List (Event V) → Entries V → Entries V
  unfolding step
  run [] m = m
  run (event ∷ events) m = run events (step event m)
