-- ===== src/Views/Same.antt =====
-- A walk whose callback keeps the names leaves the body as it was (src/catalog/glue_view_names.cpp).
use duckdb_aws_glue.Base.{List, [], ◌∷◌, Text, Outcome, ◌≡◌}
use duckdb_aws_glue.Views.Body.{
  QualifiedName, Query, select_node, set_operation_node, recursive_cte_node, other_node, Queries,
  no_queries, query, Ctes, no_ctes, cte, Ref, no_ref, base_table, join, subquery_ref, pivot,
  expression_list, empty_from, table_function, other_ref, Expr, null_expr, column_ref, star,
  subquery, operation, Exprs, no_exprs, expr,
}
use duckdb_aws_glue.Views.Walker.{
  visit_node, visit_nodes, visit_ctes, visit_ref, visit_expr, visit_exprs,
}
use duckdb_aws_glue.Views.Holds.{IfOk, returns, throws}
use duckdb_aws_glue.Views.Visited.{IfOk-bind, seen}

module _ {S : Type 0} (table : QualifiedName → List Text → S → Outcome (QualifiedName × S))
    (expression : Expr → Outcome (Unit {0}))
    (table-same : (n : QualifiedName) (v : List Text) (s : S)
      → IfOk (λ r. r.0 ≡ n) (table n v s)) where
  mutual
    unfolding visit_node visit_nodes visit_ctes visit_ref visit_expr visit_exprs

    pub visit_node-Same :
        (q : Query) (v : List Text) (s : S)
        → IfOk (λ r. r.0 ≡ q) (visit_node table expression q v s)
    visit_node-Same (select_node ctes from list groups condition having qualify mods) v s =
        IfOk-bind (visit_ctes-Same ctes v s) λ c hc.
          IfOk-bind (visit_ref-Same from c.1.0 c.1.1) λ f hf.
            IfOk-bind (visit_exprs-Same list c.1.0 f.1) λ l hl.
              IfOk-bind (visit_exprs-Same groups c.1.0 l.1) λ m hm.
                IfOk-bind (visit_expr-Same condition c.1.0 m.1) λ n hn.
                  IfOk-bind (visit_expr-Same having c.1.0 n.1) λ o ho.
                    IfOk-bind (visit_expr-Same qualify c.1.0 o.1)
                      λ p hp. IfOk-bind (visit_exprs-Same mods c.1.0 p.1) λ q hq. returns (cc)
    visit_node-Same (set_operation_node ctes children mods) v s =
        IfOk-bind (visit_ctes-Same ctes v s) λ c hc.
          IfOk-bind (visit_nodes-Same children c.1.0 c.1.1)
            λ n hn. IfOk-bind (visit_exprs-Same mods c.1.0 n.1) λ m hm. returns (cc)
    visit_node-Same (recursive_cte_node ctes name left right key_targets mods) v s =
        IfOk-bind (visit_ctes-Same ctes v s) λ c hc.
          IfOk-bind (visit_node-Same left c.1.0 c.1.1) λ l hl.
            IfOk-bind (visit_node-Same right (name ∷ c.1.0) l.1) λ r hr.
              IfOk-bind (visit_exprs-Same key_targets [] r.1)
                λ k hk. IfOk-bind (visit_exprs-Same mods c.1.0 k.1) λ m hm. returns (cc)
    visit_node-Same (other_node ctes) v s = IfOk-bind (visit_ctes-Same ctes v s) λ c hc. throws _

    visit_nodes-Same :
        (q : Queries) (v : List Text) (s : S)
        → IfOk (λ r. r.0 ≡ q) (visit_nodes table expression q v s)
    visit_nodes-Same no_queries v s = returns (cc)
    visit_nodes-Same (query node rest) v s =
        IfOk-bind (visit_node-Same node v s)
          λ n hn. IfOk-bind (visit_nodes-Same rest v n.1) λ r hr. returns (cc)

    visit_ctes-Same :
        (q : Ctes) (v : List Text) (s : S) → IfOk (λ r. r.0 ≡ q) (visit_ctes table expression q v s)
    visit_ctes-Same no_ctes v s = returns (cc)
    visit_ctes-Same (cte name node key_targets rest) v s =
        IfOk-bind (visit_node-Same node v s) λ n hn.
          IfOk-bind (visit_exprs-Same key_targets [] n.1)
            λ k hk. IfOk-bind (visit_ctes-Same rest (name ∷ v) k.1) λ r hr. returns (cc)

    visit_ref-Same :
        (q : Ref) (v : List Text) (s : S) → IfOk (λ r. r.0 ≡ q) (visit_ref table expression q v s)
    visit_ref-Same no_ref v s = returns (cc)
    visit_ref-Same (base_table name) v s = IfOk-bind (table-same name v s) λ n hn. returns (cc)
    visit_ref-Same (join left right condition ranking) v s =
        IfOk-bind (visit_ref-Same left v s) λ l hl. IfOk-bind (visit_ref-Same right v l.1) λ r hr.
          IfOk-bind (visit_expr-Same condition v r.1)
            λ c hc. IfOk-bind (visit_expr-Same ranking v c.1) λ k hk. returns (cc)
    visit_ref-Same (subquery_ref node) v s =
        IfOk-bind (visit_node-Same node v s) λ n hn. returns (cc)
    visit_ref-Same (pivot source aggregates columns) v s =
        IfOk-bind (visit_ref-Same source v s) λ l hl.
          IfOk-bind (visit_exprs-Same aggregates v l.1)
            λ r hr. IfOk-bind (visit_exprs-Same columns v r.1) λ c hc. returns (cc)
    visit_ref-Same (expression_list values) v s =
        IfOk-bind (visit_exprs-Same values v s) λ n hn. returns (cc)
    visit_ref-Same empty_from v s = returns (cc)
    visit_ref-Same table_function v s = throws _
    visit_ref-Same other_ref v s = throws _

    visit_expr-Same :
        (q : Expr) (v : List Text) (s : S) → IfOk (λ r. r.0 ≡ q) (visit_expr table expression q v s)
    visit_expr-Same null_expr v s = returns (cc)
    visit_expr-Same (column_ref names) v s =
        seen (expression (column_ref names)) _ λ e. returns (cc)
    visit_expr-Same (star excluded renamed children) v s =
        seen (expression (star excluded renamed children)) _
          λ e. IfOk-bind (visit_exprs-Same children v s) λ c hc. returns (cc)
    visit_expr-Same (subquery node children) v s =
        IfOk-bind (visit_node-Same node v s)
          λ n hn. IfOk-bind (visit_exprs-Same children v n.1) λ c hc. returns (cc)
    visit_expr-Same (operation children) v s =
        IfOk-bind (visit_exprs-Same children v s) λ n hn. returns (cc)

    visit_exprs-Same :
        (q : Exprs) (v : List Text) (s : S)
        → IfOk (λ r. r.0 ≡ q) (visit_exprs table expression q v s)
    visit_exprs-Same no_exprs v s = returns (cc)
    visit_exprs-Same (expr e rest) v s =
        IfOk-bind (visit_expr-Same e v s)
          λ n hn. IfOk-bind (visit_exprs-Same rest v n.1) λ r hr. returns (cc)
