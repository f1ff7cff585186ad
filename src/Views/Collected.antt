-- ===== src/Views/Collected.antt =====
-- The catalogs that QualifyForStorage collects from a view body (src/catalog/glue_view_names.cpp).
use duckdb_aws_glue.Base.{
  ◌==◌, ◌≡◌, ◌∙◌, text_eq_refl, inl, inr, refl, arith, Bool, true, false, not, ◌||◌, List, [], ◌∷◌,
  Text, is_empty, if◌then◌else◌, Option, none, some, Outcome, ok, err, Bool-cases,
}
use duckdb_aws_glue.DuckDb.{DuckDb, ci_equals}
use duckdb_aws_glue.Views.Body.{QualifiedName, Query}
use duckdb_aws_glue.Views.Walker.{is_visible, walk}
use duckdb_aws_glue.Views.Holds.{NodeHolds, IfOk, returns, throws}
use duckdb_aws_glue.Views.Visited.{IfOk-bind, IfOk-ok}
use duckdb_aws_glue.Views.Any.{AnyExpr}
use duckdb_aws_glue.Views.Input.{visit_node-Input}
use duckdb_aws_glue.Views.Names.{
  AttachedCatalog, TableEntry, Session, catalog_id_of, same_glue_service, store_external,
  store_glue, store_found, store_bare, lookup_bare, bind_catalog, store_name, any_expression,
  is_glue_type, usable_external_catalog,
}

pub IfOk-any : {A : Type 0} (m : Outcome A) → IfOk (λ a. m ≡ ok a) m
IfOk-any (ok a) = returns refl
IfOk-any (err e) = throws e

pub IfOk-if :
    {A : Type 0} {P : A → Type 0} (b : Bool) {m n : Outcome A}
    → (b ≡ true → IfOk P m)
    → (b ≡ false → IfOk P n)
    → IfOk P (if b then m else n)
IfOk-if true f g = f refl
IfOk-if false f g = g refl

pub IfOk-weaken :
    {A : Type 0} {P Q : A → Type 0} {m : Outcome A} → IfOk P m → ((a : A) → P a → Q a) → IfOk Q m
IfOk-weaken (returns {a} h) k = returns (k a h)
IfOk-weaken (throws e) k = throws e

module _ ⦃db : DuckDb⦄ where
  pub is_visible_self :
      (name : Text) (visible : List Text) → is_visible name (name ∷ visible) ≡ true
  is_visible_self name visible =
      let same : ci_equals name name ≡ true =
        db.ci_equals_lem name name ∙ text_eq_refl (db.lower name) in
      rw same refl

  -- the catalog of a name, once it was bound, is none or one of those
  abbrev pub qualifier_in : List Text → Outcome QualifiedName → Bool
  qualifier_in catalogs (ok name) = is_empty name.catalog || is_visible name.catalog catalogs
  qualifier_in catalogs (err e) = true

  -- `x.t` names the catalog x when one is attached under that name
  abbrev pub Collected : Session → List Text → List Text → QualifiedName → Type 0
  Collected session catalogs visible name = qualifier_in catalogs (bind_catalog session name) ≡ true

  -- every catalog that is in a list is in the other
  abbrev Below : List Text → List Text → Type 0
  Below final catalogs = (c : Text) → is_visible c final ≡ false → is_visible c catalogs ≡ false

  -- the catalogs that are there after a table: those before it, and the one that it is qualified with
  abbrev Adds : Text → List Text → List Text → Type 0
  Adds catalog before after =
      ((c : Text) → is_visible c after ≡ false → is_visible c before ≡ false)
      × ((is_empty catalog || is_visible catalog after) ≡ true)

  cons-Adds : (catalog : Text) (before : List Text) → Adds catalog before (catalog ∷ before)
  cons-Adds catalog before =
      (λ c h. ground arith, rw (is_visible_self catalog before) (ground arith))

  bare-Adds :
      (catalog : Text) (before : List Text) → is_empty catalog ≡ true → Adds catalog before before
  bare-Adds catalog before h = (λ c k. k, rw h refl)

  store_found-Adds :
      (view_catalog : AttachedCatalog) (session : Session) (found : Option TableEntry)
      (name : QualifiedName) (catalogs : List Text)
      → IfOk
          (λ r. Adds name.catalog catalogs r.1)
          (store_found view_catalog session found name catalogs)
  unfolding store_glue store_external
  store_found-Adds view_catalog session none name catalogs = throws _
  store_found-Adds view_catalog session (some entry) name catalogs =
      IfOk-if (is_glue_type entry.parent_catalog)
        (λ g.
          IfOk-if (not (same_glue_service entry.parent_catalog view_catalog)) (λ p. throws _)
            (λ p. IfOk-bind (IfOk-any (catalog_id_of entry.parent_catalog)) λ id q.
              IfOk-if (is_empty id) (λ r. throws _)
                (λ r.
                  IfOk-bind (IfOk-any (catalog_id_of view_catalog))
                    λ own s. returns (cons-Adds name.catalog catalogs))))
        (λ g.
          IfOk-if
            (not (is_visible entry.parent_catalog.catalog_type session.external_catalog_types))
            (λ p. throws _)
            (λ p.
              IfOk-if (not (usable_external_catalog entry.parent_catalog)) (λ q. throws _)
                (λ q. returns (cons-Adds name.catalog catalogs))))

  store_bare-same :
      (view_catalog : AttachedCatalog) (found : Option TableEntry) (catalogs : List Text)
      → IfOk (λ r. r.1 ≡ catalogs) (store_bare view_catalog found catalogs)
  store_bare-same view_catalog none catalogs = throws _
  store_bare-same view_catalog (some entry) catalogs =
      IfOk-if (entry.parent_catalog.oid == view_catalog.oid) (λ p. returns refl) (λ p. throws _)

  -- what the callback adds for a name
  abbrev AddsFor : Outcome QualifiedName → List Text → List Text → Type 0
  AddsFor bound before after =
      ((c : Text) → is_visible c after ≡ false → is_visible c before ≡ false)
      × (qualifier_in after bound ≡ true)

  store_name-Adds :
      (view_catalog : AttachedCatalog) (view_schema : Text) (session : Session)
      (written : QualifiedName) (visible catalogs : List Text)
      → IfOk
          (λ r. AddsFor (bind_catalog session written) catalogs r.1)
          (store_name view_catalog view_schema session written visible catalogs)
  unfolding store_name
  store_name-Adds view_catalog view_schema session written visible catalogs =
      IfOk-bind (IfOk-any (bind_catalog session written)) λ name bound. rw bound (
        IfOk-if (not (is_empty name.catalog))
          (λ p.
            IfOk-bind (IfOk-any (session.lookup_table name))
              λ found q. store_found-Adds view_catalog session found name catalogs)
          (λ p.
            let bare : is_empty name.catalog ≡ true = ground (arith, p) in
            IfOk-if (not (is_empty name.schema) || is_visible name.name visible)
              (λ q. returns (bare-Adds name.catalog catalogs bare))
              (λ q.
                IfOk-bind (IfOk-any (lookup_bare view_catalog view_schema session name)) λ found h.
                  IfOk-weaken (store_bare-same view_catalog found catalogs)
                    (λ a same. rw same (bare-Adds name.catalog catalogs bare)))))

  qualifier_in-Below :
      (bound : Outcome QualifiedName) (final after : List Text)
      → Below final after
      → qualifier_in after bound ≡ true
      → qualifier_in final bound ≡ true
  qualifier_in-Below (err e) final after below h = refl
  qualifier_in-Below (ok name) final after below h =
      elim (Bool-cases (is_visible name.catalog final)) [
        | inl there ↦ rw there (ground arith)
        | inr out ↦ ground (arith, below name.catalog out, h)
      ]

  -- Every catalog that qualifies a table of the body is among those that the walk returns, and so is each
  -- from before.
  pub walk-Collected :
      (view_catalog : AttachedCatalog) (view_schema : Text) (session : Session) (q named : Query)
      (before final : List Text)
      → walk (store_name view_catalog view_schema session) any_expression q before
        ≡ ok (named, final)
      → Below final before × NodeHolds ⊥ (Collected session final) AnyExpr q []
  unfolding walk
  walk-Collected view_catalog view_schema session q named before final h =
      (IfOk-ok
          (visit_node-Input (store_name view_catalog view_schema session) any_expression
            (Below final) (Collected session final) AnyExpr
            (λ n v s.
              IfOk-weaken (store_name-Adds view_catalog view_schema session n v s)
                (λ a k g. (λ c out. k.0 c (g c out), qualifier_in-Below _ final a.1 g k.1)))
            (λ names e. tt) (λ x r c e. tt) q [] before)
          h)
        (λ c out. out)
