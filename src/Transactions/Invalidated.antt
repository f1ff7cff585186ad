-- ===== src/Transactions/Invalidated.antt =====
-- GlueTransactionCache::Invalidate (src/catalog/glue_transaction.cpp).
use mathlib.Core.Path.{subst}
use duckdb_aws_glue.Base.{
  ℕ, ◌≡◌, refl, sym, ◌∙◌, arith, ◌==◌, List, [], ◌∷◌, Text, Option, none, some, Bool-cases, inl,
  inr, ◌⊎◌,
}
use duckdb_aws_glue.Transactions.Manager.{lookup as object_of}
use duckdb_aws_glue.Transactions.Valid.{lookup-erase}
use duckdb_aws_glue.Transactions.Entries.{clear}
use duckdb_aws_glue.Transactions.Metadata.{
  GlueTransactionCache, CatalogCache, Metadata, clear_cache, cleared, clear_object, clear_each,
  clear_all, invalidate,
}

-- A cache that the connection has for one of its catalogs.
abbrev pub Serves : ℕ → List (Text × CatalogCache) → Type 0
Serves id [] = ⊥
Serves id ((name, entry) ∷ caches) = (id ≡ entry.cache) ⊎ Serves id caches

module _ {T P : Type 0} where
  -- The cache with this id, where there is one, finds nothing.
  abbrev FindsNothing : ℕ → List (ℕ × GlueTransactionCache T P) → Type 0
  FindsNothing id objects =
      (c : GlueTransactionCache T P)
      → object_of id objects ≡ some c
      → (c.tables.slots ≡ []) × (c.partitions.slots ≡ [])

  cleared-FindsNothing :
      (id : ℕ) (o : Option (GlueTransactionCache T P))
      (objects : List (ℕ × GlueTransactionCache T P))
      → object_of id objects ≡ o
      → FindsNothing id (cleared o id objects)
  unfolding clear_cache clear
  cleared-FindsNothing id none objects e c h = absurd (cc (e, h))
  cleared-FindsNothing id (some d) objects e c h =
      let same : clear_cache d ≡ c = ground (arith, h) in rw (← same) (refl, refl)

  cleared-others :
      (id i : ℕ) (o : Option (GlueTransactionCache T P))
      (objects : List (ℕ × GlueTransactionCache T P))
      → object_of id objects ≡ o
      → FindsNothing i objects
      → FindsNothing i (cleared o id objects)
  cleared-others id i none objects e f = f
  cleared-others id i (some d) objects e f = λ c h. elim (Bool-cases (id == i)) [
    | inl same ↦
        let p : id ≡ i = ground (arith, same) in
        subst (λ x. FindsNothing x (cleared (some d) id objects)) p
          (cleared-FindsNothing id (some d) objects e) c h
    | inr differ ↦ f c (sym (lookup-erase id i objects differ) ∙ (rw differ at h))
  ]

  clear_each-others :
      (i : ℕ) (caches : List (Text × CatalogCache)) (objects : List (ℕ × GlueTransactionCache T P))
      → FindsNothing i objects
      → FindsNothing i (clear_each caches objects)
  unfolding clear_each clear_object
  clear_each-others i [] objects f = f
  clear_each-others i ((name, entry) ∷ caches) objects f =
      clear_each-others i caches (clear_object entry.cache objects)
        (cleared-others entry.cache i _ objects refl f)

  clear_each-FindsNothing :
      (id : ℕ) (caches : List (Text × CatalogCache)) (objects : List (ℕ × GlueTransactionCache T P))
      → Serves id caches
      → FindsNothing id (clear_each caches objects)
  unfolding clear_each clear_object
  clear_each-FindsNothing id [] objects h = absurd h
  clear_each-FindsNothing id ((name, entry) ∷ caches) objects (inl same) =
      clear_each-others id caches (clear_object entry.cache objects) (
        subst (λ x. FindsNothing x (clear_object entry.cache objects)) (sym same)
          (cleared-FindsNothing entry.cache _ objects refl))
  clear_each-FindsNothing id ((name, entry) ∷ caches) objects (inr later) =
      clear_each-FindsNothing id caches (clear_object entry.cache objects) later

  -- After a write has invalidated, the cache of its own transaction and each cache that the connection keeps for one of
  -- its catalogs have no entry, neither of a table nor of partitions. Nothing is said of the cache of a transaction
  -- on another catalog that the connection does not keep.
  pub invalidate-FindsNothing :
      (own id : ℕ) (m : Metadata T P) (c : GlueTransactionCache T P)
      → (id ≡ own) ⊎ Serves id m.caches
      → object_of id (invalidate own m).objects ≡ some c
      → (c.tables.slots ≡ []) × (c.partitions.slots ≡ [])
  unfolding invalidate clear_all clear_object
  invalidate-FindsNothing own id m c (inl same) h =
      subst (λ x. FindsNothing x (clear_each m.caches (clear_object own m.objects))) (sym same)
        (clear_each-others own m.caches _ (cleared-FindsNothing own _ m.objects refl)) c h
  invalidate-FindsNothing own id m c (inr served) h =
      clear_each-FindsNothing id m.caches _ served c h
