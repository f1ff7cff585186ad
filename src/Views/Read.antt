-- ===== src/Views/Read.antt =====
-- A view that was stored can be read (src/catalog/glue_view.cpp, src/catalog/glue_view_names.cpp).
use mathlib.Core.Path.{subst}
use duckdb_aws_glue.Base.{
  ◌≡◌, ◌≢◌, ◌⊎◌, inl, inr, refl, sym, ap, ◌∙◌, true, false, List, [], ◌∷◌, Text, is_empty, any,
  Option, none, some, ok, ◌>>=◌, Bool-cases,
}
use duckdb_aws_glue.DuckDb.{DuckDb, ci_equals}
use duckdb_aws_glue.Views.Body.{QualifiedName, Query, Expr}
use duckdb_aws_glue.Views.Walker.{is_visible, walk}
use duckdb_aws_glue.Views.Holds.{NodeHolds, IfOk, returns, throws}
use duckdb_aws_glue.Views.Visited.{IfOk-ok, Post, visit_node-Holds}
use duckdb_aws_glue.Views.Any.{AnyExpr}
use duckdb_aws_glue.Views.Same.{visit_node-Same}
use duckdb_aws_glue.Views.Total.{Returns, visit_node-Returns}
use duckdb_aws_glue.Views.Names.{AttachedCatalog, Session, any_expression, qualify_for_storage}
use duckdb_aws_glue.Views.Reading.{
  Identifiers, alias_of, collect_id, referenced_catalog_ids, resolved_name, resolve_name,
  resolve_for_reading, pin_name, pin_table, pin_to_catalog, attached_aliases, refused_id,
  ReadEnvironment, parse_body, resolve_body, read_parsed, get_query,
}
use duckdb_aws_glue.Views.Collected.{is_visible_self}
use duckdb_aws_glue.Views.Stored.{
  InSchemas, StoredName, NotNaming, qualify_for_storage-Holds, is_empty-nil,
}

module _ ⦃db : DuckDb⦄ where
  -- A name that needs no search path: all of its parts are given, but for that of a CTE in scope.
  abbrev pub FullName : List Text → QualifiedName → Type 0
  FullName visible name =
      ((name.catalog ≢ []) × (name.schema ≢ []))
      ⊎ ((name.catalog ≡ []) × (name.schema ≡ []) × (is_visible name.name visible ≡ true))

  -- A catalog of this id is attached, under a name.
  abbrev pub IsAttached : List (Text × Text) → Text → Type 0
  IsAttached aliases id = (alias : Text) × (alias_of id aliases ≡ some alias)

  -- A stored name, in a catalog that is attached where it is in another than the view's.
  abbrev Readable : List (Text × Text) → List Text → QualifiedName → Type 0
  Readable aliases visible name =
      StoredName visible name × ((name.catalog ≡ []) ⊎ IsAttached aliases name.catalog)

  collect_id-same : (n : QualifiedName) (v s : List Text) → IfOk (λ r. r.0 ≡ n) (collect_id n v s)
  collect_id-same n v s = returns refl

  collect_id-Readable :
      (aliases : List (Text × Text)) (n : QualifiedName) (v s : List Text)
      → StoredName v n
      → IfOk
          (Post
            (λ s'. (id : Text) → is_visible id s' ≡ true → IsAttached aliases id)
            s
            (Readable aliases v))
          (collect_id n v s)
  collect_id-Readable aliases n v s p = elim (Bool-cases (is_empty n.catalog)) [
    | inl own ↦ rw own (returns (λ g. (g, (p, inl (is_empty-nil n.catalog own)))))
    | inr other ↦ elim (Bool-cases (is_visible n.catalog s)) [
      | inl old ↦ rw (other, old) (returns (λ g. (g, (p, inr (g n.catalog old)))))
      | inr new ↦
          rw (other, new)
            (returns (λ g.
              (λ id h. g id (later id h), (p, inr (g n.catalog (is_visible_self n.catalog s))))))
    ]
  ]
    where
      later : (id : Text) → is_visible id s ≡ true → is_visible id (n.catalog ∷ s) ≡ true
      later id h = elim (Bool-cases (ci_equals n.catalog id)) [
        | inl same ↦ rw same refl
        | inr differ ↦ rw differ h
      ]

  resolve_name-Returns :
      (aliases : List (Text × Text)) (n : QualifiedName) (v : List Text) (s : Unit {0})
      → Readable aliases v n
      → Returns (resolve_name aliases n v s)
  unfolding resolve_name
  resolve_name-Returns aliases n v s (p, inl own) = rw own (_, refl)
  resolve_name-Returns aliases n v s (p, inr (alias, e)) = elim (Bool-cases (is_empty n.catalog)) [
    | inl own ↦ rw own (_, refl)
    | inr other ↦ rw other (rw e (_, refl))
  ]

  resolve_name-StoredName :
      (aliases : List (Text × Text)) (n : QualifiedName) (v : List Text) (s : Unit {0})
      → Readable aliases v n
      → IfOk (Post (λ x. Unit {0}) s (StoredName v)) (resolve_name aliases n v s)
  unfolding resolve_name
  resolve_name-StoredName aliases n v s (p, q) = elim (Bool-cases (is_empty n.catalog)) [
    | inl own ↦ rw own (returns (λ g. (tt, p)))
    | inr other ↦ rw other (named (alias_of n.catalog aliases) p other)
  ]
    where
      named :
          (o : Option Text)
          → StoredName v n
          → is_empty n.catalog ≡ false
          → IfOk
              (Post (λ x. Unit {0}) s (StoredName v))
              (resolved_name o n >>= λ name'. ok (name', s))
      named none k other = throws _
      named (some alias) (inl given) other = returns (λ g. (tt, inl given))
      named (some alias) (inr (own, visible)) other = absurd (cc (ap is_empty own, other))

  pin_name-FullName :
      (catalog_name schema_name : Text) (n : QualifiedName) (v : List Text)
      → catalog_name ≢ []
      → StoredName v n
      → FullName v (pin_name catalog_name schema_name n v)
  unfolding pin_name
  pin_name-FullName catalog_name schema_name n v c (inl given) =
      elim (Bool-cases (is_empty n.catalog)) [
        | inl own ↦ elim (Bool-cases (is_empty n.schema)) [
          | inl none_given ↦ absurd (given (is_empty-nil n.schema none_given))
          | inr some_given ↦ rw (own, some_given) (inl (c, given))
        ]
        | inr other ↦ rw other (inl (λ e. cc (ap is_empty e, other), given))
      ]
  pin_name-FullName catalog_name schema_name n v c (inr (own, visible)) =
      elim (Bool-cases (is_empty n.schema)) [
        | inl none_given ↦
            rw (ap is_empty own, none_given)
              (rw visible (inr (own, is_empty-nil n.schema none_given, visible)))
        | inr some_given ↦
            rw (ap is_empty own, some_given) (inl (c, λ e. cc (ap is_empty e, some_given)))
      ]

  -- A body whose names are stored is pinned to the view's catalog, and needs no search path then.
  pin_to_catalog-FullName :
      (catalog_name schema_name : Text) (q : Query) (X : Expr → Type 0)
      → catalog_name ≢ []
      → NodeHolds ⊥ StoredName X q []
      → (r : Query × Unit {0}) × (pin_to_catalog catalog_name schema_name q ≡ ok r)
        × NodeHolds ⊥ FullName AnyExpr r.0 []
  unfolding pin_to_catalog walk
  pin_to_catalog-FullName catalog_name schema_name q X c h =
      let (r, e) =
        visit_node-Returns (pin_table catalog_name schema_name) any_expression StoredName X
          (λ n v s p. (_, refl)) (λ x p. refl) q [] tt h in
      (
        r,
        e,
        (IfOk-ok
            (visit_node-Holds (pin_table catalog_name schema_name) any_expression (λ s. Unit {0}) ⊥
              StoredName X FullName AnyExpr
              (λ n v s p. returns (λ g. (tt, pin_name-FullName catalog_name schema_name n v c p)))
              (λ names p k. tt) (λ x y c c' p k. tt) q [] tt h)
            e tt).1,
      )

  resolve_for_reading-StoredName :
      (aliases : List (Text × Text)) (q : Query)
      → NodeHolds ⊥ (Readable aliases) AnyExpr q []
      → (r : Query × Unit {0}) × (resolve_for_reading aliases q ≡ ok r)
        × NodeHolds ⊥ StoredName AnyExpr r.0 []
  unfolding resolve_for_reading walk
  resolve_for_reading-StoredName aliases q h =
      let (r, e) =
        visit_node-Returns (resolve_name aliases) any_expression (Readable aliases) AnyExpr
          (λ n v s p. resolve_name-Returns aliases n v s p) (λ x p. refl) q [] tt h in
      (
        r,
        e,
        (IfOk-ok
            (visit_node-Holds (resolve_name aliases) any_expression (λ s. Unit {0}) ⊥
              (Readable aliases) AnyExpr StoredName AnyExpr
              (λ n v s p. resolve_name-StoredName aliases n v s p) (λ names p k. tt)
              (λ x y c c' p k. tt) q [] tt h)
            e tt).1,
      )

module _ ⦃db : DuckDb⦄ (identifiers : Identifiers) (env : ReadEnvironment) where
  resolve_body-FullName :
      (aliases : List (Text × Text)) (q : Query)
      → env.view_catalog.name ≢ []
      → NodeHolds ⊥ (Readable aliases) AnyExpr q []
      → (r : Query) × (resolve_body identifiers env aliases q ≡ ok r)
        × NodeHolds ⊥ FullName AnyExpr r []
  unfolding resolve_body
  resolve_body-FullName aliases q c h =
      let (named, e₁, k) = resolve_for_reading-StoredName aliases q h in
      let (pinned, e₂, l) =
        pin_to_catalog-FullName env.view_catalog.name env.view_schema named.0 AnyExpr c k in
      (pinned.0, rw e₁ (rw e₂ refl), l)

  -- the parsed body, where it reads no catalog but the view's own
  parse_body-pinned :
      (stored parsed : Query) (ids : List Text) (pinned : Query × Unit {0})
      → env.parse ≡ ok stored
      → referenced_catalog_ids stored ≡ ok (parsed, ids)
      → is_empty ids ≡ true
      → pin_to_catalog env.view_catalog.name env.view_schema parsed ≡ ok pinned
      → parse_body identifiers env ≡ ok (pinned.0, ids)
  unfolding parse_body
  parse_body-pinned stored parsed ids pinned p r own e = rw p (rw r (rw own (rw e refl)))

  parse_body-others :
      (stored parsed : Query) (ids : List Text)
      → env.parse ≡ ok stored
      → referenced_catalog_ids stored ≡ ok (parsed, ids)
      → is_empty ids ≡ false
      → parse_body identifiers env ≡ ok (parsed, ids)
  unfolding parse_body
  parse_body-others stored parsed ids p r others = rw p (rw r (rw others refl))

  get_query-parsed :
      (parsed : Query) (ids : List Text)
      → env.is_supported ≡ true
      → parse_body identifiers env ≡ ok (parsed, ids)
      → (get_query identifiers env (record { parsed = none; resolved = [] })).0
        ≡ (read_parsed identifiers env
            (parsed, ids)
            (record { parsed = some (parsed, ids); resolved = [] })).0
  unfolding get_query
  get_query-parsed parsed ids supported p = rw supported (rw p refl)

  read_parsed-others :
      (parsed r : Query) (ids : List Text)
      → is_empty ids ≡ false
      → any (refused_id identifiers env.external_catalog_types) ids ≡ false
      → resolve_body identifiers env
          (attached_aliases identifiers env.view_catalog ids env.databases)
          parsed
        ≡ ok r
      → (read_parsed identifiers env
          (parsed, ids)
          (record { parsed = some (parsed, ids); resolved = [] })).0
        ≡ ok r
  unfolding read_parsed
  read_parsed-others parsed r ids others allowed e = rw others (rw allowed (rw e refl))

  read_parsed-own :
      (parsed : Query) (ids : List Text)
      → is_empty ids ≡ true
      → (read_parsed identifiers env
          (parsed, ids)
          (record { parsed = some (parsed, ids); resolved = [] })).0
        ≡ ok parsed
  unfolding read_parsed
  read_parsed-own parsed ids own = rw own refl

  referenced_catalog_ids-same :
      (q parsed : Query) (ids : List Text)
      → referenced_catalog_ids q ≡ ok (parsed, ids)
      → parsed ≡ q
  unfolding referenced_catalog_ids walk
  referenced_catalog_ids-same q parsed ids r =
      IfOk-ok (visit_node-Same collect_id any_expression collect_id-same q [] []) r

  referenced_catalog_ids-Readable :
      (aliases : List (Text × Text)) (X : Expr → Type 0) (q parsed : Query) (ids : List Text)
      → referenced_catalog_ids q ≡ ok (parsed, ids)
      → ((id : Text) → is_visible id ids ≡ true → IsAttached aliases id)
      → NodeHolds ⊥ StoredName X q []
      → NodeHolds ⊥ (Readable aliases) AnyExpr parsed []
  unfolding referenced_catalog_ids walk
  referenced_catalog_ids-Readable aliases X q parsed ids r attached h =
      (IfOk-ok
        (visit_node-Holds collect_id any_expression
          (λ s. (id : Text) → is_visible id s ≡ true → IsAttached aliases id) ⊥ StoredName X
          (Readable aliases) AnyExpr (λ n v s p. collect_id-Readable aliases n v s p)
          (λ names p k. tt) (λ x y c c' p k. tt) q [] [] h)
        r attached).1

  -- A view that was stored can be read: in a session where each catalog that its body reads is
  -- attached and of a type that is allowed, its first use gives a body, and every table in it is
  -- named in full, with a catalog and a schema, but for a CTE where SQL has it in scope.
  pub get_query-FullName :
      (written_in : AttachedCatalog) (written_schema : Text) (session : Session)
      (q stored parsed : Query) (ids : List Text)
      → InSchemas session
      → qualify_for_storage written_in written_schema session q ≡ ok stored
      → env.is_supported ≡ true
      → env.parse ≡ ok stored
      → env.view_catalog.name ≢ []
      → referenced_catalog_ids stored ≡ ok (parsed, ids)
      → any (refused_id identifiers env.external_catalog_types) ids ≡ false
      → ((id : Text)
          → is_visible id ids ≡ true
          → IsAttached (attached_aliases identifiers env.view_catalog ids env.databases) id)
      → (r : Query) × ((get_query identifiers env (record { parsed = none; resolved = [] })).0
          ≡ ok r)
        × NodeHolds ⊥ FullName AnyExpr r []
  get_query-FullName written_in written_schema session q stored parsed ids docs st supported parses
        named refs allowed attached =
      let (catalogs, own_name, collected, holds) =
        qualify_for_storage-Holds written_in written_schema session q stored docs st in
      elim (Bool-cases (is_empty ids)) [
        | inl own ↦
            let (r, e, k) =
              pin_to_catalog-FullName env.view_catalog.name env.view_schema parsed
                (NotNaming catalogs) named
                (subst (λ b. NodeHolds ⊥ StoredName (NotNaming catalogs) b [])
                  (sym (referenced_catalog_ids-same stored parsed ids refs)) holds) in
            (
              r.0,
              get_query-parsed r.0 ids supported
                    (parse_body-pinned stored parsed ids r parses refs own e)
                  ∙ read_parsed-own r.0 ids own,
              k,
            )
        | inr others ↦
            let (r, e, k) =
              resolve_body-FullName
                (attached_aliases identifiers env.view_catalog ids env.databases) parsed named
                (referenced_catalog_ids-Readable _ (NotNaming catalogs) stored parsed ids refs
                  attached holds) in
            (
              r,
              get_query-parsed parsed ids supported
                    (parse_body-others stored parsed ids parses refs others)
                  ∙ read_parsed-others parsed r ids others allowed e,
              k,
            )
      ]
