-- ===== src/Tests/TransactionTests.antt =====
-- Instances of the theorems about transactions and the metadata that they cache.
use duckdb_aws_glue.Base.{
  ℕ, ◌+◌, ◌<◌, ◌≡◌, inl, inr, refl, arith, ◌==◌, Bool, true, false, List, [], ◌∷◌, text, text_eq,
  if◌then◌else◌, Option, some, Outcome, ok, err, io,
}
use duckdb_aws_glue.DuckDb.{lower_byte}
use duckdb_aws_glue.DuckDb.Ascii.{ascii}
use duckdb_aws_glue.Transactions.Rollback.{
  CreatedTable, GlueTransaction, DeleteOutcome, success, failure, start, rollback, DocumentedDelete,
}
use duckdb_aws_glue.Transactions.Manager.{
  no_transactions, Event, starting, committing, rolling_back, retiring, run, step, oldest_running,
  still_needed,
}
use duckdb_aws_glue.Transactions.Retired.{retire_entry-kept, run-freed}
use duckdb_aws_glue.Transactions.Valid.{Keeps}
use duckdb_aws_glue.Transactions.Dropped.{rollback-gone, IsDropped}
use duckdb_aws_glue.Transactions.Entries
use duckdb_aws_glue.Transactions.Entries.{Entries, no_entries, get, find_entry, resolve, clear}
use duckdb_aws_glue.Transactions.Cached.{get-once}
use duckdb_aws_glue.Transactions.Cleared.{get-clear, fresh, later}
use duckdb_aws_glue.Transactions.Attached
use duckdb_aws_glue.Transactions.Attached.{Handout, run-apart}
use duckdb_aws_glue.Transactions.Metadata.{
  GlueTransactionCache, empty_cache, clear_cache, clear_each, clear_object, Metadata, get_cache,
  make_cache, erase_cache, invalidate, clear_all,
}
use duckdb_aws_glue.Transactions.Invalidated.{invalidate-FindsNothing}

-- a Glue of one table, which the client 9 can not delete
abbrev delete : CreatedTable ℕ → Bool → DeleteOutcome × Bool
delete t w = if t.client == 9 then (failure, w) else (success, false)

abbrev there : CreatedTable ℕ → Bool → Bool
there t w = w

delete-DocumentedDelete : DocumentedDelete delete there
delete-DocumentedDelete = record {
  deleted = λ t w h. ground arith;
  missing = λ t w h. ground arith;
  others = λ t u w h. ground arith;
}

abbrev orders : CreatedTable ℕ
orders = record {
  client = 9;
  catalog_id = [];
  database_name = text "sales";
  table_name = text "orders";
}

abbrev creates_orders : GlueTransaction ℕ ℕ
creates_orders = record (start 1) { created_tables = orders ∷ [] }

rollback-gone_example :
    IsDropped delete-DocumentedDelete orders true
      (orders ∷ [])
      true
      (rollback delete true creates_orders true).1
unfolding start
rollback-gone_example =
    rollback-gone delete-DocumentedDelete orders true creates_orders true (inl refl)

abbrev opened : List (Event ℕ ℕ ℕ)
opened = starting 64 1 ∷ starting 96 2 ∷ []

abbrev goes_on : List (Event ℕ ℕ ℕ)
goes_on = committing 96 ∷ retiring 5 ∷ starting 96 3 ∷ rolling_back 96 ∷ []

-- the entry 7 is kept: the transaction at 64 still runs
retire_entry-kept_example :
    Keeps
      (run delete opened (no_transactions, true)).0.next_sequence
      7
      (run delete
        (retiring 7 ∷ goes_on)
        (run delete opened (no_transactions, true))).0.retired_entries
unfolding run
retire_entry-kept_example =
    retire_entry-kept delete opened goes_on true 64 0 7 (omega arith) refl refl

abbrev retired_two : List (Event ℕ ℕ ℕ)
retired_two = starting 64 1 ∷ retiring 7 ∷ starting 96 2 ∷ retiring 5 ∷ []

run-freed_example :
    (a : ℕ) × (q : ℕ) × Keeps a q
      (step delete
        (if false then rolling_back 64 else committing 64)
        (run delete retired_two (no_transactions, true))).0.transaction_sequence
    × (q < 2)
unfolding run oldest_running still_needed
run-freed_example = run-freed delete retired_two true 64 2 5 false (omega arith) (inl (refl, refl))

abbrev load_some : ℕ → Outcome (Option ℕ) × ℕ
load_some w = (ok (some w), w + 1)

abbrev load_fails : ℕ → Outcome (Option ℕ) × ℕ
load_fails w = (err io, w + 1)

abbrev loaded : Entries ℕ
loaded = record { slots = (text "sales", 0) ∷ []; values = (0, 5) ∷ []; allocated = 1 }

get-once_example :
    get (text "SALES") load_fails (Entries.run (Entries.finding (text "hr") ∷ []) loaded) 8
    ≡ (ok (some 5), (Entries.run (Entries.finding (text "hr") ∷ []) loaded, 8))
get-once_example =
    get-once (text "Sales") (text "SALES") load_some load_fails no_entries loaded 5 6 8 5
      (Entries.finding (text "hr") ∷ []) (unfold get find_entry resolve ascii lower_byte in refl)
      (unfold ascii lower_byte in refl) refl

abbrev found_sales : Entries ℕ
found_sales = Entries.step (Entries.finding (text "sales")) no_entries

get-clear_example :
    ((get
        (text "sales")
        load_some
        (Entries.run (Entries.resolving 0 (ok (some 3)) ∷ []) (clear found_sales))
        5).0
      ≡ (load_some 5).0)
    × ((get
          (text "sales")
          load_some
          (Entries.run (Entries.resolving 0 (ok (some 3)) ∷ []) (clear found_sales))
          5).1.1
        ≡ (load_some 5).1)
get-clear_example =
    get-clear (later fresh (Entries.finding (text "sales")) tt)
      (Entries.resolving 0 (ok (some 3)) ∷ []) (text "sales") load_some 5
      (unfold Entries.step find_entry ascii lower_byte in (omega arith, tt))

abbrev reattached : List Attached.Event
reattached =
    Attached.starting true (text "glue") 3
    ∷ Attached.detaching (text "glue") 3
    ∷ Attached.starting true (text "glue") 4
    ∷ Attached.starting true (text "glue") 4
    ∷ []

abbrev again : Handout
again = record { name = text "glue"; oid = 4; id = 2 }

run-apart_example : (again.name ≡ again.name) × (again.oid ≡ again.oid)
unfolding Attached.run get_cache make_cache erase_cache text_eq
run-apart_example = run-apart ℕ ℕ reattached again again (inl refl) (inr (inl refl)) refl

abbrev sales_loaded : GlueTransactionCache ℕ ℕ
sales_loaded = record empty_cache { tables = loaded }

abbrev one_cache : Metadata ℕ ℕ
one_cache = record {
  caches = (text "glue", record { attach_oid = 3; cache = 1 }) ∷ [];
  objects = (1, sales_loaded) ∷ [];
  next_id = 1;
}

invalidate-FindsNothing_example :
    ((clear_cache sales_loaded).tables.slots ≡ [])
    × ((clear_cache sales_loaded).partitions.slots ≡ [])
unfolding clear_cache clear
invalidate-FindsNothing_example =
    invalidate-FindsNothing 4 1 one_cache (clear_cache sales_loaded) (inr (inl refl))
      (unfold invalidate clear_all clear_each clear_object clear_cache clear in refl)
