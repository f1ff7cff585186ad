-- ===== src/Views/Total.antt =====
-- A walk whose callbacks accept every name and column of a view body throws nothing
-- (src/catalog/glue_view_names.cpp).
use mathlib.Core.Path.{subst}
use duckdb_aws_glue.Base.{List, [], ◌∷◌, Text, Outcome, ok, ◌>>=◌, ◌≡◌, refl, sym}
use duckdb_aws_glue.Views.Body.{
  QualifiedName, Query, select_node, set_operation_node, recursive_cte_node, other_node, Queries,
  no_queries, query, Ctes, no_ctes, cte, Ref, no_ref, base_table, join, subquery_ref, pivot,
  expression_list, empty_from, table_function, other_ref, Expr, null_expr, column_ref, star,
  subquery, operation, Exprs, no_exprs, expr,
}
use duckdb_aws_glue.Views.Walker.{
  visit_node, visit_nodes, visit_ctes, visit_ref, visit_expr, visit_exprs,
}
use duckdb_aws_glue.Views.Holds.{
  scope, NodeHolds, NodesHold, CtesHold, RefHolds, ExprHolds, ExprsHold,
}

-- a call that returns
abbrev pub Returns : {A : Type 0} → Outcome A → Type 0
Returns {A} m = (a : A) × (m ≡ ok a)

Returns-bind :
    {A B : Type 0} {m : Outcome A} {f : A → Outcome B}
    → Returns m
    → ((a : A) → m ≡ ok a → Returns (f a))
    → Returns (m >>= f)
Returns-bind {m = m} {f = f} (a, e) k = let (b, p) = k a e in (b, rw e p)

Returns-scoped :
    {S B : Type 0} {m : Outcome (Ctes × (List Text × S))} (f : Ctes × (List Text × S) → Outcome B)
    (visible : List Text)
    → (r : Ctes × (List Text × S)) × (m ≡ ok r) × (r.1.0 ≡ visible)
    → ((c : Ctes) (s : S) → Returns (f (c, (visible, s))))
    → Returns (m >>= f)
Returns-scoped {m = m} f visible (r, p, e) k =
    let (b, q) = subst (λ x. Returns (f (r.0, (x, r.1.1)))) (sym e) (k r.0 r.1.1) in (b, rw p q)

module _ {S : Type 0} (table : QualifiedName → List Text → S → Outcome (QualifiedName × S))
    (expression : Expr → Outcome (Unit {0})) (P : List Text → QualifiedName → Type 0)
    (X : Expr → Type 0)
    (table-returns : (n : QualifiedName) (v : List Text) (s : S) → P v n → Returns (table n v s))
    (expression-returns : (e : Expr) → X e → expression e ≡ ok tt) where
  mutual
    unfolding visit_node visit_nodes visit_ctes visit_ref visit_expr visit_exprs NodeHolds NodesHold
        CtesHold RefHolds ExprHolds ExprsHold

    pub visit_node-Returns :
        (q : Query) (v : List Text) (s : S)
        → NodeHolds ⊥ P X q v
        → Returns (visit_node table expression q v s)
    visit_node-Returns (select_node ctes from list groups condition having qualify mods) v s h =
        Returns-scoped _ (scope ctes v) (visit_ctes-Returns ctes v s h.0) λ c s₁.
          Returns-bind (visit_ref-Returns from (scope ctes v) s₁ h.1) λ r₁ e₁.
            Returns-bind (visit_exprs-Returns list (scope ctes v) r₁.1 h.2) λ r₂ e₂.
              Returns-bind (visit_exprs-Returns groups (scope ctes v) r₂.1 h.3) λ r₃ e₃.
                Returns-bind (visit_expr-Returns condition (scope ctes v) r₃.1 h.4) λ r₄ e₄.
                  Returns-bind (visit_expr-Returns having (scope ctes v) r₄.1 h.5) λ r₅ e₅.
                    Returns-bind (visit_expr-Returns qualify (scope ctes v) r₅.1 h.6) λ r₆ e₆.
                      Returns-bind (visit_exprs-Returns mods (scope ctes v) r₆.1 h.7)
                        λ r₇ e₇. (_, refl)
    visit_node-Returns (set_operation_node ctes children mods) v s h =
        Returns-scoped _ (scope ctes v) (visit_ctes-Returns ctes v s h.0) λ c s₁.
          Returns-bind (visit_nodes-Returns children (scope ctes v) s₁ h.1) λ r₁ e₁.
            Returns-bind (visit_exprs-Returns mods (scope ctes v) r₁.1 h.2) λ r₂ e₂. (_, refl)
    visit_node-Returns (recursive_cte_node ctes name left right key_targets mods) v s h =
        Returns-scoped _ (scope ctes v) (visit_ctes-Returns ctes v s h.0) λ c s₁.
          Returns-bind (visit_node-Returns left (scope ctes v) s₁ h.1) λ r₁ e₁.
            Returns-bind (visit_node-Returns right (name ∷ scope ctes v) r₁.1 h.2) λ r₂ e₂.
              Returns-bind (visit_exprs-Returns key_targets [] r₂.1 h.3) λ r₃ e₃.
                Returns-bind (visit_exprs-Returns mods (scope ctes v) r₃.1 h.4) λ r₄ e₄. (_, refl)
    visit_node-Returns (other_node ctes) v s h = absurd h.1

    visit_nodes-Returns :
        (q : Queries) (v : List Text) (s : S)
        → NodesHold ⊥ P X q v
        → Returns (visit_nodes table expression q v s)
    visit_nodes-Returns no_queries v s h = (_, refl)
    visit_nodes-Returns (query node rest) v s h =
        Returns-bind (visit_node-Returns node v s h.0)
          λ n e. Returns-bind (visit_nodes-Returns rest v n.1 h.1) λ r e'. (_, refl)

    visit_ctes-Returns :
        (q : Ctes) (v : List Text) (s : S)
        → CtesHold ⊥ P X q v
        → (r : Ctes × (List Text × S)) × (visit_ctes table expression q v s ≡ ok r)
          × (r.1.0 ≡ scope q v)
    visit_ctes-Returns no_ctes v s h = (_, refl, refl)
    visit_ctes-Returns (cte name node key_targets rest) v s h =
        let (n, p) = visit_node-Returns node v s h.0 in
        let (k, q) = visit_exprs-Returns key_targets [] n.1 h.1 in
        let (r, w, e) = visit_ctes-Returns rest (name ∷ v) k.1 h.2 in
        ((cte name n.0 k.0 r.0, r.1), rw p (rw q (rw w refl)), e)

    visit_ref-Returns :
        (q : Ref) (v : List Text) (s : S)
        → RefHolds ⊥ P X q v
        → Returns (visit_ref table expression q v s)
    visit_ref-Returns no_ref v s h = (_, refl)
    visit_ref-Returns (base_table name) v s h =
        Returns-bind (table-returns name v s h) λ n e. (_, refl)
    visit_ref-Returns (join left right condition ranking) v s h =
        Returns-bind (visit_ref-Returns left v s h.0) λ l e₁.
          Returns-bind (visit_ref-Returns right v l.1 h.1) λ r e₂.
            Returns-bind (visit_expr-Returns condition v r.1 h.2)
              λ c e₃. Returns-bind (visit_expr-Returns ranking v c.1 h.3) λ k e₄. (_, refl)
    visit_ref-Returns (subquery_ref node) v s h =
        Returns-bind (visit_node-Returns node v s h) λ n e. (_, refl)
    visit_ref-Returns (pivot source aggregates columns) v s h =
        Returns-bind (visit_ref-Returns source v s h.0) λ l e₁.
          Returns-bind (visit_exprs-Returns aggregates v l.1 h.1)
            λ r e₂. Returns-bind (visit_exprs-Returns columns v r.1 h.2) λ c e₃. (_, refl)
    visit_ref-Returns (expression_list values) v s h =
        Returns-bind (visit_exprs-Returns values v s h) λ n e. (_, refl)
    visit_ref-Returns empty_from v s h = (_, refl)
    visit_ref-Returns table_function v s h = absurd h
    visit_ref-Returns other_ref v s h = absurd h

    visit_expr-Returns :
        (q : Expr) (v : List Text) (s : S)
        → ExprHolds ⊥ P X q v
        → Returns (visit_expr table expression q v s)
    visit_expr-Returns null_expr v s h = (_, refl)
    visit_expr-Returns (column_ref names) v s h =
        Returns-bind (tt, expression-returns (column_ref names) h) λ u e. (_, refl)
    visit_expr-Returns (star excluded renamed children) v s h =
        Returns-bind (tt, expression-returns (star excluded renamed children) h.0)
          λ u e. Returns-bind (visit_exprs-Returns children v s h.1) λ n e'. (_, refl)
    visit_expr-Returns (subquery node children) v s h =
        Returns-bind (visit_node-Returns node v s h.0)
          λ n e. Returns-bind (visit_exprs-Returns children v n.1 h.1) λ c e'. (_, refl)
    visit_expr-Returns (operation children) v s h =
        Returns-bind (visit_exprs-Returns children v s h) λ n e. (_, refl)

    visit_exprs-Returns :
        (q : Exprs) (v : List Text) (s : S)
        → ExprsHold ⊥ P X q v
        → Returns (visit_exprs table expression q v s)
    visit_exprs-Returns no_exprs v s h = (_, refl)
    visit_exprs-Returns (expr e rest) v s h =
        Returns-bind (visit_expr-Returns e v s h.0)
          λ n p. Returns-bind (visit_exprs-Returns rest v n.1 h.1) λ r p'. (_, refl)
