-- ===== src/Views/Stored.antt =====
-- What QualifyForStorage makes of the names in a view body (src/catalog/glue_view_names.cpp).
use mathlib.Core.Path.{subst}
use duckdb_aws_glue.Base.{
  ◌==◌, ◌≡◌, ◌≢◌, ◌⊎◌, inl, inr, refl, ap, ◌∙◌, arith, Bool, true, false, not, ◌&&◌, ◌||◌, List, [],
  ◌∷◌, Text, is_empty, if◌then◌else◌, Option, none, some, Outcome, ok, err, Bool-cases,
  ok-injective, >>=-eq-ok,
}
use duckdb_aws_glue.DuckDb.{DuckDb}
use duckdb_aws_glue.Views.Body.{QualifiedName, Query, Expr, column_ref, star}
use duckdb_aws_glue.Views.Walker.{is_visible, walk}
use duckdb_aws_glue.Views.Holds.{NodeHolds, IfOk, returns, throws}
use duckdb_aws_glue.Views.Visited.{IfOk-bind, IfOk-ok, visit_node-Holds}
use duckdb_aws_glue.Views.Any.{AnyName, AnyExpr, NodeHolds-any}
use duckdb_aws_glue.Views.Same.{visit_node-Same}
use duckdb_aws_glue.Views.Collected.{
  IfOk-any, IfOk-if, IfOk-weaken, Collected, walk-Collected, is_visible_self,
}
use duckdb_aws_glue.Views.Names.{
  AttachedCatalog, TableEntry, Session, catalog_id_of, same_glue_service, store_external,
  store_glue, store_found, store_bare, lookup_bare, bind_catalog, store_name, names_one_of,
  refuse_column, same_table, any_expression, refuse_catalog_qualified_columns, qualify_for_storage,
  is_glue_type, usable_external_catalog, first_of,
}

-- Every table that DuckDB finds is in a schema with a name.
abbrev pub InSchemas : Session → Type 0
InSchemas session =
    (name : QualifiedName) (entry : TableEntry)
    → session.lookup_table name ≡ ok (some entry)
    → entry.parent_schema ≢ []

module _ ⦃db : DuckDb⦄ where
  -- A stored name has a schema, but for that of a CTE in scope.
  abbrev pub StoredName : List Text → QualifiedName → Type 0
  StoredName visible name =
      (name.schema ≢ []) ⊎ ((name.catalog ≡ []) × (is_visible name.name visible ≡ true))

  -- The expression qualifies no column with one of the catalogs.
  abbrev pub NotNaming : List Text → Expr → Type 0
  NotNaming catalogs e = names_one_of catalogs e ≡ false

  store_found-StoredName :
      (view_catalog : AttachedCatalog) (session : Session) (found : Option TableEntry)
      (name : QualifiedName) (catalogs visible : List Text)
      → ((entry : TableEntry) → found ≡ some entry → entry.parent_schema ≢ [])
      → IfOk (λ r. StoredName visible r.0) (store_found view_catalog session found name catalogs)
  unfolding store_glue store_external
  store_found-StoredName view_catalog session none name catalogs visible h = throws _
  store_found-StoredName view_catalog session (some entry) name catalogs visible h =
      IfOk-if (is_glue_type entry.parent_catalog)
        (λ g.
          IfOk-if (not (same_glue_service entry.parent_catalog view_catalog)) (λ p. throws _)
            (λ p. IfOk-bind (IfOk-any (catalog_id_of entry.parent_catalog)) λ id q.
              IfOk-if (is_empty id) (λ r. throws _)
                (λ r.
                  IfOk-bind (IfOk-any (catalog_id_of view_catalog))
                    λ own s. returns (inl (h entry refl)))))
        (λ g.
          IfOk-if
            (not (is_visible entry.parent_catalog.catalog_type session.external_catalog_types))
            (λ p. throws _)
            (λ p.
              IfOk-if (not (usable_external_catalog entry.parent_catalog)) (λ q. throws _)
                (λ q. returns (inl (h entry refl)))))

  lookup_bare-found :
      (view_catalog : AttachedCatalog) (view_schema : Text) (session : Session)
      (name : QualifiedName)
      → InSchemas session
      → IfOk
          (λ found. (entry : TableEntry) → found ≡ some entry → entry.parent_schema ≢ [])
          (lookup_bare view_catalog view_schema session name)
  unfolding lookup_bare
  lookup_bare-found view_catalog view_schema session name docs =
      IfOk-bind (IfOk-any (session.lookup_table _)) λ a p. first a p (
        IfOk-bind (IfOk-any (session.lookup_table _))
          λ b q. first b q (last (session.lookup_table name) refl))
    where
      first :
          (o : Option TableEntry) {n : QualifiedName}
          → session.lookup_table n ≡ ok o
          → {m : Outcome (Option TableEntry)}
          → IfOk (λ found. (entry : TableEntry) → found ≡ some entry → entry.parent_schema ≢ []) m
          → IfOk
              (λ found. (entry : TableEntry) → found ≡ some entry → entry.parent_schema ≢ [])
              (first_of o m)
      first none p h = h
      first (some e) {n} p h = returns (λ entry same. docs n entry (p ∙ ap ok same))

      last :
          (m : Outcome (Option TableEntry))
          → session.lookup_table name ≡ m
          → IfOk (λ found. (entry : TableEntry) → found ≡ some entry → entry.parent_schema ≢ []) m
      last (ok o) p = returns (λ entry same. docs name entry (p ∙ ap ok same))
      last (err e) p = throws e

  store_bare-StoredName :
      (view_catalog : AttachedCatalog) (found : Option TableEntry) (catalogs visible : List Text)
      → ((entry : TableEntry) → found ≡ some entry → entry.parent_schema ≢ [])
      → IfOk (λ r. StoredName visible r.0) (store_bare view_catalog found catalogs)
  store_bare-StoredName view_catalog none catalogs visible h = throws _
  store_bare-StoredName view_catalog (some entry) catalogs visible h =
      IfOk-if (entry.parent_catalog.oid == view_catalog.oid) (λ p. returns (inl (h entry refl)))
        (λ p. throws _)

  pub is_empty-nil : (t : Text) → is_empty t ≡ true → t ≡ []
  is_empty-nil [] h = refl
  is_empty-nil (c ∷ t) h = cc

  -- A name whose catalog is not given after it was bound is the one that was written.
  bind_catalog-written :
      (session : Session) (written : QualifiedName)
      → IfOk
          (λ (name : QualifiedName). name.catalog ≡ [] → name ≡ written)
          (bind_catalog session written)
  unfolding bind_catalog
  bind_catalog-written session written =
      IfOk-if (is_empty written.catalog && not (is_empty written.schema))
        (λ p.
          IfOk-bind (IfOk-any (session.names_catalog written.schema))
            λ names q. returns (bound names p))
        (λ p. returns (λ e. refl))
    where
      bound :
          (names : Bool)
          → (is_empty written.catalog && not (is_empty written.schema)) ≡ true
          → (if names
              then record { catalog = written.schema; schema = []; name = written.name }
              else written).catalog
            ≡ []
          → (if names
              then record { catalog = written.schema; schema = []; name = written.name }
              else written)
            ≡ written
      bound true p e = absurd (ground (arith, ap is_empty e))
      bound false p e = refl

  -- a name that stays as it was written
  stays-StoredName :
      (visible : List Text) (name : QualifiedName)
      → name.catalog ≡ []
      → (not (is_empty name.schema) || is_visible name.name visible) ≡ true
      → StoredName visible name
  stays-StoredName visible name no_catalog h = elim (Bool-cases (is_empty name.schema)) [
    | inl none_given ↦ inr (no_catalog, rw none_given at h)
    | inr given ↦ inl (λ e. cc (ap is_empty e, given))
  ]

  store_name-StoredName :
      (view_catalog : AttachedCatalog) (view_schema : Text) (session : Session)
      → InSchemas session
      → (name : QualifiedName) (visible catalogs : List Text)
      → IfOk
          (λ r. StoredName visible r.0)
          (store_name view_catalog view_schema session name visible catalogs)
  unfolding store_name
  store_name-StoredName view_catalog view_schema session docs written visible catalogs =
      IfOk-bind (bind_catalog-written session written) λ name hn.
        IfOk-if (not (is_empty name.catalog))
          (λ p. IfOk-bind (IfOk-any (session.lookup_table name)) λ found q.
            store_found-StoredName view_catalog session found name catalogs visible
              (λ entry e. docs name entry (q ∙ ap ok e)))
          (λ p.
            let no_catalog : name.catalog ≡ [] = is_empty-nil name.catalog (ground (arith, p)) in
            IfOk-if (not (is_empty name.schema) || is_visible name.name visible)
              (λ q. returns (
                subst (StoredName visible) (hn no_catalog)
                  (stays-StoredName visible name no_catalog q)))
              (λ q.
                IfOk-bind (lookup_bare-found view_catalog view_schema session name docs)
                  λ found h. store_bare-StoredName view_catalog found catalogs visible h))

  refuse_column-NotNaming :
      (catalogs : List Text) (e : Expr) → refuse_column catalogs e ≡ ok tt → NotNaming catalogs e
  unfolding refuse_column
  refuse_column-NotNaming catalogs e h = elim (Bool-cases (names_one_of catalogs e)) [
    | inl names ↦ absurd (cc (rw names at h))
    | inr other ↦ other
  ]

  pub same_table-same :
      (n : QualifiedName) (v : List Text) (s : Unit {0}) → IfOk (λ r. r.0 ≡ n) (same_table n v s)
  same_table-same n v s = returns refl

  -- What CREATE VIEW stores does not depend on the search path of a later session: every table that the
  -- body reads has a schema, but for a CTE where SQL has it in scope, and no column is qualified with
  -- the name of the view's own catalog or of a catalog with which the user qualified a table of the body, be it by a
  -- name that the session takes for a catalog.
  pub qualify_for_storage-Holds :
      (view_catalog : AttachedCatalog) (view_schema : Text) (session : Session) (q stored : Query)
      → InSchemas session
      → qualify_for_storage view_catalog view_schema session q ≡ ok stored
      → (catalogs : List Text) × (is_visible view_catalog.name catalogs ≡ true)
        × NodeHolds ⊥ (Collected session catalogs) AnyExpr q []
        × NodeHolds ⊥ StoredName (NotNaming catalogs) stored []
  unfolding qualify_for_storage refuse_catalog_qualified_columns walk
  qualify_for_storage-Holds view_catalog view_schema session q stored docs h =
      let (named, e₁, h₁) = >>=-eq-ok _ _ h in
      let (checked, e₂, h₂) = >>=-eq-ok _ _ h₁ in
      let same : checked.0 ≡ named.0 =
        IfOk-ok (visit_node-Same same_table (refuse_column named.1) same_table-same named.0 [] tt)
          e₂ in
      let (below, collected) =
        walk-Collected view_catalog view_schema session q named.0 (view_catalog.name ∷ []) named.1
          e₁ in
      let holds : NodeHolds ⊥ StoredName AnyExpr named.0 [] =
        (IfOk-ok
          (visit_node-Holds (store_name view_catalog view_schema session) any_expression
            (λ s. Unit {0}) (Unit {0}) AnyName AnyExpr StoredName AnyExpr
            (λ n v s p.
              IfOk-weaken (store_name-StoredName view_catalog view_schema session docs n v s)
                (λ a k g. (tt, k)))
            (λ names p e. tt) (λ x r c c' p e. tt) q [] (view_catalog.name ∷ [])
            (NodeHolds-any q []))
          e₁ tt).1 in
      let own : is_visible view_catalog.name named.1 ≡ true =
        elim (Bool-cases (is_visible view_catalog.name named.1)) [
          | inl yes_own ↦ yes_own
          | inr not_own ↦
              absurd (cc (below view_catalog.name not_own, is_visible_self view_catalog.name []))
        ] in
      let columns : NodeHolds ⊥ StoredName (NotNaming named.1) checked.0 [] =
        (IfOk-ok
          (visit_node-Holds same_table (refuse_column named.1) (λ s. Unit {0}) ⊥ StoredName AnyExpr
            StoredName (NotNaming named.1) (λ n v s p. returns (λ g. (tt, p)))
            (λ names p e. refuse_column-NotNaming named.1 (column_ref names) e)
            (λ x r c c' p e. refuse_column-NotNaming named.1 (star x r c) e) named.0 [] tt holds)
          e₂ tt).1 in
      (
        named.1,
        own,
        collected,
        subst (λ b. NodeHolds ⊥ StoredName (NotNaming named.1) b []) (ok-injective h₂) columns,
      )
