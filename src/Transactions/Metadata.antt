-- ===== src/Transactions/Metadata.antt =====
-- GlueTransactionCache and GlueMetadataCacheState (src/include/catalog/glue_transaction.hpp,
-- src/catalog/glue_transaction.cpp). A cache is known by its Id(); `objects` are the caches that there are.
use duckdb_aws_glue.Base.{
  ℕ, ◌+◌, ◌==◌, Bool, false, List, [], ◌∷◌, ◌++◌, Text, text, text_eq, if◌then◌else◌, Option, none,
  some, Outcome,
}
use duckdb_aws_glue.DuckDb.{DuckDb, lower}
use duckdb_aws_glue.Query.Listings.{lookup}
use duckdb_aws_glue.Transactions.Manager.{lookup as object_of, put as put_object}
use duckdb_aws_glue.Transactions.Entries.{Entries, no_entries, get, clear}

pub record GlueTransactionCache (T P : Type 0) : Type 0 where
  pub tables : Entries T
  pub partitions : Entries P

abbrev pub empty_cache : {T P : Type 0} → GlueTransactionCache T P
empty_cache = record { tables = no_entries; partitions = no_entries }

abbrev pub cache_key : Text → Text → Text
cache_key database_name table_name = database_name ++ (10 ∷ table_name)

module _ {T P W : Type 0} ⦃db : DuckDb⦄ where
  unfoldable pub get_table :
      Text
      → Text
      → (W → Outcome (Option T) × W)
      → GlueTransactionCache T P
      → W
      → Outcome (Option T) × (GlueTransactionCache T P × W)
  unfolding get
  get_table database_name table_name load c w =
      let r = get (cache_key database_name table_name) load c.tables w in
      (r.0, (record c { tables = r.1.0 }, r.1.1))

  unfoldable pub get_partitions :
      Text
      → Text
      → (W → Outcome (Option P) × W)
      → GlueTransactionCache T P
      → W
      → Outcome (Option P) × (GlueTransactionCache T P × W)
  unfolding get
  get_partitions database_name table_name load c w =
      let r = get (cache_key database_name table_name) load c.partitions w in
      (r.0, (record c { partitions = r.1.0 }, r.1.1))

module _ {T P : Type 0} where
  unfoldable pub clear_cache : GlueTransactionCache T P → GlueTransactionCache T P
  unfolding clear
  clear_cache c = record { tables = clear c.tables; partitions = clear c.partitions }

pub record CatalogCache : Type 0 where
  pub attach_oid : ℕ
  pub cache : ℕ

-- `next_id` is the counter of NextId, which makes the ids of all caches.
pub record Metadata (T P : Type 0) : Type 0 where
  pub caches : List (Text × CatalogCache)
  pub objects : List (ℕ × GlueTransactionCache T P)
  pub next_id : ℕ

abbrev pub no_metadata : {T P : Type 0} → Metadata T P
no_metadata = record { caches = []; objects = []; next_id = 0 }

abbrev pub erase_key : {A : Type 0} → Text → List (Text × A) → List (Text × A)
erase_key key [] = []
erase_key key ((k, a) ∷ rest) =
    if text_eq k key then erase_key key rest else (k, a) ∷ erase_key key rest

module _ {T P : Type 0} where
  -- make_shared_ptr<GlueTransactionCache>()
  unfoldable pub make_cache : Metadata T P → ℕ × Metadata T P
  make_cache m =
      let id : ℕ = m.next_id + 1 in
      (id, record m { objects = (id, empty_cache) ∷ m.objects; next_id = id })

  -- a new cache takes the place of what the catalog had
  abbrev pub with_new_cache : Text → ℕ → Metadata T P → ℕ × Metadata T P
  with_new_cache name oid m =
      let made = make_cache m in
      (
        made.0,
        record made.1 {
          caches = (name, record { attach_oid = oid; cache = made.0 }) ∷ erase_key name m.caches;
        },
      )

  abbrev pub cache_or_new : Option CatalogCache → Text → ℕ → Metadata T P → ℕ × Metadata T P
  cache_or_new none name oid m = with_new_cache name oid m
  cache_or_new (some entry) name oid m =
      if entry.attach_oid == oid then (entry.cache, m) else with_new_cache name oid m

  -- GetCache
  unfoldable pub get_cache : Text → ℕ → Metadata T P → ℕ × Metadata T P
  unfolding make_cache
  get_cache name oid m = cache_or_new (lookup name m.caches) name oid m

  abbrev pub erased : Option CatalogCache → Text → ℕ → Metadata T P → Metadata T P
  erased none name oid m = m
  erased (some entry) name oid m =
      if entry.attach_oid == oid then record m { caches = erase_key name m.caches } else m

  -- EraseCache
  unfoldable pub erase_cache : Text → ℕ → Metadata T P → Metadata T P
  erase_cache name oid m = erased (lookup name m.caches) name oid m

  abbrev pub cleared :
      Option (GlueTransactionCache T P)
      → ℕ
      → List (ℕ × GlueTransactionCache T P)
      → List (ℕ × GlueTransactionCache T P)
  cleared none id objects = objects
  cleared (some c) id objects = put_object id (clear_cache c) objects

  -- Clear of a cache
  unfoldable pub clear_object :
      ℕ → List (ℕ × GlueTransactionCache T P) → List (ℕ × GlueTransactionCache T P)
  unfolding clear_cache
  clear_object id objects = cleared (object_of id objects) id objects

  unfoldable pub clear_each :
      List (Text × CatalogCache)
      → List (ℕ × GlueTransactionCache T P)
      → List (ℕ × GlueTransactionCache T P)
  unfolding clear_object
  clear_each [] objects = objects
  clear_each ((name, entry) ∷ rest) objects = clear_each rest (clear_object entry.cache objects)

  -- ClearAll, and TransactionRollback
  unfoldable pub clear_all : Metadata T P → Metadata T P
  unfolding clear_each
  clear_all m = record m { objects = clear_each m.caches m.objects }

  -- the cache of a new GlueTransaction
  unfoldable pub transaction_cache : Bool → Text → ℕ → Metadata T P → ℕ × Metadata T P
  unfolding get_cache make_cache
  transaction_cache connection_scoped name oid m =
      if connection_scoped then get_cache name oid m else make_cache m

  -- Invalidate, in a transaction with this cache; listings are in Query.Listings
  unfoldable pub invalidate : ℕ → Metadata T P → Metadata T P
  unfolding clear_object clear_all
  invalidate id m = clear_all (record m { objects = clear_object id m.objects })

-- ConnectionScoped, for the setting where it is set and not NULL
unfoldable pub connection_scoped : ⦃db : DuckDb⦄ → Option Text → Bool
connection_scoped none = false
connection_scoped (some scope) = text_eq (lower scope) (text "connection")
