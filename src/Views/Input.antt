-- ===== src/Views/Input.antt =====
-- What a walk that succeeds tells of the body that it was given (src/catalog/glue_view_names.cpp).
use duckdb_aws_glue.Base.{List, [], ◌∷◌, Text, Outcome, ok, ◌≡◌, refl}
use duckdb_aws_glue.Views.Body.{
  QualifiedName, Query, select_node, set_operation_node, recursive_cte_node, other_node, Queries,
  no_queries, query, Ctes, no_ctes, cte, Ref, no_ref, base_table, join, subquery_ref, pivot,
  expression_list, empty_from, table_function, other_ref, Expr, null_expr, column_ref, star,
  subquery, operation, Exprs, no_exprs, expr,
}
use duckdb_aws_glue.Views.Walker.{
  visit_node, visit_nodes, visit_ctes, visit_ref, visit_expr, visit_exprs,
}
use duckdb_aws_glue.Views.Holds.{
  scope, NodeHolds, NodesHold, CtesHold, RefHolds, ExprHolds, ExprsHold, IfOk, returns, throws,
}
use duckdb_aws_glue.Views.Visited.{IfOk-bind, Post, seen, IfOk-scoped}

module _ {S : Type 0} (table : QualifiedName → List Text → S → Outcome (QualifiedName × S))
    (expression : Expr → Outcome (Unit {0})) (G : S → Type 0)
    (P : List Text → QualifiedName → Type 0) (X : Expr → Type 0)
    (table-holds : (n : QualifiedName) (v : List Text) (s : S)
      → IfOk (Post G s (λ _. P v n)) (table n v s))
    (column-holds : (names : List Text)
      → expression (column_ref names) ≡ ok tt
      → X (column_ref names))
    (star-holds : (e r : List Text) (c : Exprs)
      → expression (star e r c) ≡ ok tt
      → X (star e r c)) where
  mutual
    unfolding visit_node visit_nodes visit_ctes visit_ref visit_expr visit_exprs NodeHolds NodesHold
        CtesHold RefHolds ExprHolds ExprsHold

    pub visit_node-Input :
        (q : Query) (v : List Text) (s : S)
        → IfOk (Post G s (λ _. NodeHolds ⊥ P X q v)) (visit_node table expression q v s)
    visit_node-Input (select_node ctes from list groups condition having qualify mods) v s =
        IfOk-scoped _ (scope ctes v) (visit_ctes-Input ctes v s) λ c s₁ hc.
          IfOk-bind (visit_ref-Input from (scope ctes v) s₁) λ f hf.
            IfOk-bind (visit_exprs-Input list (scope ctes v) f.1) λ l hl.
              IfOk-bind (visit_exprs-Input groups (scope ctes v) l.1) λ m hm.
                IfOk-bind (visit_expr-Input condition (scope ctes v) m.1) λ n hn.
                  IfOk-bind (visit_expr-Input having (scope ctes v) n.1) λ o ho.
                    IfOk-bind (visit_expr-Input qualify (scope ctes v) o.1) λ p hp.
                      IfOk-bind (visit_exprs-Input mods (scope ctes v) p.1) λ q hq. returns (λ g₇.
                        let (g₆, y₇) = hq g₇ in
                        let (g₅, y₆) = hp g₆ in
                        let (g₄, y₅) = ho g₅ in
                        let (g₃, y₄) = hn g₄ in
                        let (g₂, y₃) = hm g₃ in
                        let (g₁, y₂) = hl g₂ in
                        let (g₀, y₁) = hf g₁ in
                        let (g, y₀) = hc g₀ in (g, (y₀, y₁, y₂, y₃, y₄, y₅, y₆, y₇)))
    visit_node-Input (set_operation_node ctes children mods) v s =
        IfOk-scoped _ (scope ctes v) (visit_ctes-Input ctes v s) λ c s₁ hc.
          IfOk-bind (visit_nodes-Input children (scope ctes v) s₁) λ n hn.
            IfOk-bind (visit_exprs-Input mods (scope ctes v) n.1) λ m hm. returns (λ g₂.
              let (g₁, y₂) = hm g₂ in
              let (g₀, y₁) = hn g₁ in let (g, y₀) = hc g₀ in (g, (y₀, y₁, y₂)))
    visit_node-Input (recursive_cte_node ctes name left right key_targets mods) v s =
        IfOk-scoped _ (scope ctes v) (visit_ctes-Input ctes v s) λ c s₁ hc.
          IfOk-bind (visit_node-Input left (scope ctes v) s₁) λ l hl.
            IfOk-bind (visit_node-Input right (name ∷ scope ctes v) l.1) λ r hr.
              IfOk-bind (visit_exprs-Input key_targets [] r.1) λ k hk.
                IfOk-bind (visit_exprs-Input mods (scope ctes v) k.1) λ m hm. returns (λ g₄.
                  let (g₃, y₄) = hm g₄ in
                  let (g₂, y₃) = hk g₃ in
                  let (g₁, y₂) = hr g₂ in
                  let (g₀, y₁) = hl g₁ in let (g, y₀) = hc g₀ in (g, (y₀, y₁, y₂, y₃, y₄)))
    visit_node-Input (other_node ctes) v s = IfOk-bind (visit_ctes-Input ctes v s) λ c hc. throws _

    visit_nodes-Input :
        (q : Queries) (v : List Text) (s : S)
        → IfOk (Post G s (λ _. NodesHold ⊥ P X q v)) (visit_nodes table expression q v s)
    visit_nodes-Input no_queries v s = returns (λ g. (g, tt))
    visit_nodes-Input (query node rest) v s = IfOk-bind (visit_node-Input node v s) λ n hn.
        IfOk-bind (visit_nodes-Input rest v n.1)
          λ r hr. returns (λ g. let (g₁, b) = hr g in let (g₀, a) = hn g₁ in (g₀, (a, b)))

    visit_ctes-Input :
        (q : Ctes) (v : List Text) (s : S)
        → IfOk
            (λ (r : Ctes × (List Text × S)).
              (r.1.0 ≡ scope q v) × (G r.1.1 → G s × CtesHold ⊥ P X q v))
            (visit_ctes table expression q v s)
    visit_ctes-Input no_ctes v s = returns (refl, λ g. (g, tt))
    visit_ctes-Input (cte name node key_targets rest) v s =
        IfOk-bind (visit_node-Input node v s) λ n hn.
          IfOk-bind (visit_exprs-Input key_targets [] n.1) λ k hk.
            IfOk-bind (visit_ctes-Input rest (name ∷ v) k.1) λ r hr. returns (
              hr.0,
              λ g.
                  let (g₂, c) = hr.1 g in
                  let (g₁, b) = hk g₂ in let (g₀, a) = hn g₁ in (g₀, (a, b, c)),
            )

    visit_ref-Input :
        (q : Ref) (v : List Text) (s : S)
        → IfOk (Post G s (λ _. RefHolds ⊥ P X q v)) (visit_ref table expression q v s)
    visit_ref-Input no_ref v s = returns (λ g. (g, tt))
    visit_ref-Input (base_table name) v s = IfOk-bind (table-holds name v s) λ n hn. returns hn
    visit_ref-Input (join left right condition ranking) v s =
        IfOk-bind (visit_ref-Input left v s) λ l hl. IfOk-bind (visit_ref-Input right v l.1) λ r hr.
          IfOk-bind (visit_expr-Input condition v r.1) λ c hc.
            IfOk-bind (visit_expr-Input ranking v c.1) λ k hk. returns (λ g.
              let (g₃, d) = hk g in
              let (g₂, c') = hc g₃ in
              let (g₁, b) = hr g₂ in let (g₀, a) = hl g₁ in (g₀, (a, b, c', d)))
    visit_ref-Input (subquery_ref node) v s =
        IfOk-bind (visit_node-Input node v s) λ n hn. returns hn
    visit_ref-Input (pivot source aggregates columns) v s =
        IfOk-bind (visit_ref-Input source v s) λ l hl.
          IfOk-bind (visit_exprs-Input aggregates v l.1) λ r hr.
            IfOk-bind (visit_exprs-Input columns v r.1) λ c hc. returns (λ g.
              let (g₂, c') = hc g in let (g₁, b) = hr g₂ in let (g₀, a) = hl g₁ in (g₀, (a, b, c')))
    visit_ref-Input (expression_list values) v s =
        IfOk-bind (visit_exprs-Input values v s) λ n hn. returns hn
    visit_ref-Input empty_from v s = returns (λ g. (g, tt))
    visit_ref-Input table_function v s = throws _
    visit_ref-Input other_ref v s = throws _

    visit_expr-Input :
        (q : Expr) (v : List Text) (s : S)
        → IfOk (Post G s (λ _. ExprHolds ⊥ P X q v)) (visit_expr table expression q v s)
    visit_expr-Input null_expr v s = returns (λ g. (g, tt))
    visit_expr-Input (column_ref names) v s =
        seen (expression (column_ref names)) _ λ e. returns (λ g. (g, column-holds names e))
    visit_expr-Input (star excluded renamed children) v s =
        seen (expression (star excluded renamed children)) _ λ e.
          IfOk-bind (visit_exprs-Input children v s) λ c hc.
            returns (λ g. let (g₀, a) = hc g in (g₀, (star-holds excluded renamed children e, a)))
    visit_expr-Input (subquery node children) v s = IfOk-bind (visit_node-Input node v s) λ n hn.
        IfOk-bind (visit_exprs-Input children v n.1)
          λ c hc. returns (λ g. let (g₁, b) = hc g in let (g₀, a) = hn g₁ in (g₀, (a, b)))
    visit_expr-Input (operation children) v s =
        IfOk-bind (visit_exprs-Input children v s) λ n hn. returns hn

    visit_exprs-Input :
        (q : Exprs) (v : List Text) (s : S)
        → IfOk (Post G s (λ _. ExprsHold ⊥ P X q v)) (visit_exprs table expression q v s)
    visit_exprs-Input no_exprs v s = returns (λ g. (g, tt))
    visit_exprs-Input (expr e rest) v s = IfOk-bind (visit_expr-Input e v s) λ n hn.
        IfOk-bind (visit_exprs-Input rest v n.1)
          λ r hr. returns (λ g. let (g₁, b) = hr g in let (g₀, a) = hn g₁ in (g₀, (a, b)))
