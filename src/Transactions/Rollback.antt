-- ===== src/Transactions/Rollback.antt =====
-- GlueTransaction (src/catalog/glue_transaction.cpp) and GlueAPI::DropCreatedTable
-- (src/api/glue_table_api.cpp). The client of Glue that a table was created with, and Glue itself,
-- are parameters.
use duckdb_aws_glue.Base.{◌≡◌, Bool, true, false, List, [], ◌∷◌, ◌++◌, Text, Outcome, ok, err, glue}

pub data GlueTransactionState : Type 0 where
  not_yet_started started finished : GlueTransactionState

pub record CreatedTable (C : Type 0) : Type 0 where
  pub client : C
  pub catalog_id : Text
  pub database_name : Text
  pub table_name : Text

-- `cache` is the id of the metadata cache.
pub record GlueTransaction (C Cache : Type 0) : Type 0 where
  pub cache : Cache
  pub created_tables : List (CreatedTable C)
  pub transaction_state : GlueTransactionState

-- what a DeleteTable request comes back with
pub data DeleteOutcome : Type 0 where
  success entity_not_found failure : DeleteOutcome

abbrev finish_if_started : GlueTransactionState → GlueTransactionState
finish_if_started started = finished
finish_if_started state = state

module _ {C Cache : Type 0} where
  -- Start, on a transaction that was made with this cache
  unfoldable pub start : Cache → GlueTransaction C Cache
  start cache = record { cache = cache; created_tables = []; transaction_state = started }

  unfoldable pub commit : GlueTransaction C Cache → GlueTransaction C Cache
  commit t = record t { transaction_state = finish_if_started t.transaction_state }

  unfoldable pub add_created_table :
      CreatedTable C → GlueTransaction C Cache → GlueTransaction C Cache
  add_created_table table t = record t { created_tables = t.created_tables ++ (table ∷ []) }

module _ {C W : Type 0} (delete_table : CreatedTable C → W → DeleteOutcome × W) where
  -- DropCreatedTable
  abbrev pub dropped : DeleteOutcome → Outcome (Unit {0})
  dropped success = ok tt
  dropped entity_not_found = ok tt
  dropped failure = err glue

  unfoldable pub drop_created_table : CreatedTable C → W → Outcome (Unit {0}) × W
  drop_created_table created w = let answer = delete_table created w in (dropped answer.0, answer.1)

  -- the names in a warning, while the connection is there to log it
  abbrev pub warn : Bool → CreatedTable C → Outcome (Unit {0}) → List (Text × Text)
  warn true created (err e) = (created.database_name, created.table_name) ∷ []
  warn _ created _ = []

  -- the loop of Rollback, with the tables that it warns of
  unfoldable pub drop_all : Bool → List (CreatedTable C) → W → List (Text × Text) × W
  unfolding drop_created_table
  drop_all connected [] w = ([], w)
  drop_all connected (created ∷ rest) w =
      let answer = drop_created_table created w in
      let others = drop_all connected rest answer.1 in
      (warn connected created answer.0 ++ others.0, others.1)

  unfoldable pub rollback :
      {Cache : Type 0}
      → Bool
      → GlueTransaction C Cache
      → W
      → GlueTransaction C Cache × (List (Text × Text) × W)
  unfolding drop_all
  rollback connected t w = (
    record t { transaction_state = finish_if_started t.transaction_state },
    drop_all connected t.created_tables w,
  )

  -- What Glue documents of DeleteTable: a table that was deleted, or not found, is not there, and no
  -- table comes into being.
  pub record DocumentedDelete (exists : CreatedTable C → W → Bool) : Type 0 where
    pub deleted :
        (t : CreatedTable C) (w : W)
        → (delete_table t w).0 ≡ success
        → exists t (delete_table t w).1 ≡ false
    pub missing :
        (t : CreatedTable C) (w : W)
        → (delete_table t w).0 ≡ entity_not_found
        → exists t (delete_table t w).1 ≡ false
    pub others :
        (t u : CreatedTable C) (w : W) → exists u w ≡ false → exists u (delete_table t w).1 ≡ false
