-- ===== src/Transactions/Dropped.antt =====
-- What GlueTransaction::Rollback leaves of the tables that a transaction created
-- (src/catalog/glue_transaction.cpp).
use duckdb_aws_glue.Base.{
  ◌≡◌, refl, ap, ◌⊎◌, inl, inr, Bool, true, false, List, [], ◌∷◌, ◌++◌, Text,
}
use duckdb_aws_glue.Transactions.Rollback.{
  CreatedTable, GlueTransaction, DeleteOutcome, success, entity_not_found, failure,
  drop_created_table, drop_all, rollback, dropped, warn, DocumentedDelete,
}

-- A warning names the table.
abbrev pub Warned : {C : Type 0} → CreatedTable C → List (Text × Text) → Type 0
Warned t [] = ⊥
Warned t ((d, n) ∷ rest) = ((d ≡ t.database_name) × (n ≡ t.table_name)) ⊎ Warned t rest

abbrev pub Created : {C : Type 0} → CreatedTable C → List (CreatedTable C) → Type 0
Created t [] = ⊥
Created t (u ∷ rest) = (t ≡ u) ⊎ Created t rest

Warned-append :
    {C : Type 0} (t : CreatedTable C) (l m : List (Text × Text))
    → Warned t l ⊎ Warned t m
    → Warned t (l ++ m)
Warned-append t [] m (inl k) = absurd k
Warned-append t [] m (inr k) = k
Warned-append t (x ∷ l) m (inl (inl same)) = inl same
Warned-append t (x ∷ l) m (inl (inr k)) = inr (Warned-append t l m (inl k))
Warned-append t (x ∷ l) m (inr k) = inr (Warned-append t l m (inr k))

module _ {C W : Type 0} {delete_table : CreatedTable C → W → DeleteOutcome × W}
    {exists : CreatedTable C → W → Bool} (docs : DocumentedDelete delete_table exists) where
  drop_all-others :
      (t : CreatedTable C) (connected : Bool) (l : List (CreatedTable C)) (w : W)
      → exists t w ≡ false
      → exists t (drop_all delete_table connected l w).1 ≡ false
  unfolding drop_all drop_created_table
  drop_all-others t connected [] w h = h
  drop_all-others t connected (u ∷ l) w h =
      drop_all-others t connected l (delete_table u w).1 (docs.others u t w h)

  -- The drop of the table itself fails: it is the one that was created after those in `before`.
  pub record OwnDropFails (t : CreatedTable C) (connected : Bool) (l : List (CreatedTable C))
      (w : W) : Type 0 where
    before : List (CreatedTable C)
    others : List (CreatedTable C)
    is_split : l ≡ before ++ (t ∷ others)
    fails : (delete_table t (drop_all delete_table connected before w).1).0 ≡ failure

  -- The table is gone; or its own drop failed, and where there is a connection a warning names it.
  abbrev pub IsDropped :
      CreatedTable C → Bool → List (CreatedTable C) → W → List (Text × Text) × W → Type 0
  IsDropped t connected l w r =
      (exists t r.1 ≡ false) ⊎ (OwnDropFails t connected l w × (connected ≡ true → Warned t r.0))

  -- the table that a request asked to delete
  answer-gone :
      (t : CreatedTable C) (w : W) (answer : DeleteOutcome)
      → (delete_table t w).0 ≡ answer
      → (exists t (delete_table t w).1 ≡ false)
        ⊎ (((delete_table t w).0 ≡ failure)
            × ((connected : Bool)
                → connected ≡ true
                → Warned t (warn delete_table connected t (dropped delete_table answer))))
  answer-gone t w success e = inl (docs.deleted t w e)
  answer-gone t w entity_not_found e = inl (docs.missing t w e)
  answer-gone t w failure e = inr (e, λ connected c. rw c (inl (refl, refl)))

  drop_all-gone :
      (t : CreatedTable C) (connected : Bool) (l : List (CreatedTable C)) (w : W)
      → Created t l
      → IsDropped t connected l w (drop_all delete_table connected l w)
  unfolding drop_all drop_created_table
  drop_all-gone t connected [] w h = absurd h
  drop_all-gone t connected (u ∷ l) w (inl same) = elim (answer-gone u w _ refl) [
    | inl gone ↦ inl (rw same (drop_all-others u connected l (delete_table u w).1 gone))
    | inr (failed, warned) ↦ inr (
      record { before = []; others = l; is_split = rw same refl; fails = rw same failed },
      λ c. rw same (Warned-append u _ _ (inl (warned connected c))),
    )
  ]
  drop_all-gone t connected (u ∷ l) w (inr later) =
      elim (drop_all-gone t connected l (delete_table u w).1 later) [
        | inl gone ↦ inl gone
        | inr (own, warned) ↦ inr (
          record {
            before = u ∷ own.before;
            others = own.others;
            is_split = ap (λ rest. u ∷ rest) own.is_split;
            fails = own.fails;
          },
          λ c. Warned-append t _ _ (inr (warned c)),
        )
      ]

-- After a rollback, each table that the transaction created is gone from Glue, or its own drop failed, and if the
-- connection is still there a warning names the table. A drop that fails stops none of the others.
pub rollback-gone :
    {C W Cache : Type 0} {delete_table : CreatedTable C → W → DeleteOutcome × W}
    {exists : CreatedTable C → W → Bool} (docs : DocumentedDelete delete_table exists)
    (t : CreatedTable C) (connected : Bool) (transaction : GlueTransaction C Cache) (w : W)
    → Created t transaction.created_tables
    → IsDropped docs t connected transaction.created_tables w
        (rollback delete_table connected transaction w).1
unfolding rollback
rollback-gone docs t connected transaction w h =
    drop_all-gone docs t connected transaction.created_tables w h
