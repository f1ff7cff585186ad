-- ===== src/Views/Walker.antt =====
-- ViewBodyWalker (src/catalog/glue_view_names.cpp). The callbacks are arguments; the one for a base
-- table returns the name that it has afterwards, and what the closure has captured.
use duckdb_aws_glue.Base.{Bool, List, [], ◌∷◌, Text, Outcome, ok, err, ◌>>=◌, binder, any}
use duckdb_aws_glue.DuckDb.{DuckDb, ci_equals}
use duckdb_aws_glue.Views.Body.{
  QualifiedName, Query, select_node, set_operation_node, recursive_cte_node, other_node, Queries,
  no_queries, query, Ctes, no_ctes, cte, Ref, no_ref, base_table, join, subquery_ref, pivot,
  expression_list, empty_from, table_function, other_ref, Expr, null_expr, column_ref, star,
  subquery, operation, Exprs, no_exprs, expr,
}

-- case_insensitive_set_t::count
abbrev pub is_visible : ⦃db : DuckDb⦄ → Text → List Text → Bool
is_visible name visible = any (λ other. ci_equals other name) visible

abbrev pub Outcomes : Type 0 → Type 0 → Type 0
Outcomes S A = Outcome (A × S)

module _ {S : Type 0} (table : QualifiedName → List Text → S → Outcome (QualifiedName × S))
    (expression : Expr → Outcome (Unit {0})) where
  -- VisitNode, whose loop over the CTEs also returns what is visible after it; VisitRef; and
  -- VisitExpression, with the loops over them. VisitKeyTargets sees no CTE.
  unfoldable mutual
    pub visit_node : Query → List Text → S → Outcome (Query × S)
    visit_node (select_node ctes from list groups condition having qualify mods) outer s =
        visit_ctes ctes outer s >>= λ (ctes', (visible, s₁)).
        visit_ref from visible s₁ >>= λ (from', s₂). visit_exprs list visible s₂ >>= λ (list', s₃).
        visit_exprs groups visible s₃ >>= λ (groups', s₄).
        visit_expr condition visible s₄ >>= λ (condition', s₅).
        visit_expr having visible s₅ >>= λ (having', s₆).
        visit_expr qualify visible s₆ >>= λ (qualify', s₇).
        visit_exprs mods visible s₇ >>= λ (mods', s₈).
        ok (select_node ctes' from' list' groups' condition' having' qualify' mods', s₈)
    visit_node (set_operation_node ctes children mods) outer s =
        visit_ctes ctes outer s >>= λ (ctes', (visible, s₁)).
        visit_nodes children visible s₁ >>= λ (children', s₂).
        visit_exprs mods visible s₂ >>= λ (mods', s₃).
        ok (set_operation_node ctes' children' mods', s₃)
    visit_node (recursive_cte_node ctes name left right key_targets mods) outer s =
        visit_ctes ctes outer s >>= λ (ctes', (visible, s₁)).
        visit_node left visible s₁ >>= λ (left', s₂).
        visit_node right (name ∷ visible) s₂ >>= λ (right', s₃).
        visit_exprs key_targets [] s₃ >>= λ (key_targets', s₄).
        visit_exprs mods visible s₄ >>= λ (mods', s₅).
        ok (recursive_cte_node ctes' name left' right' key_targets' mods', s₅)
    visit_node (other_node ctes) outer s = visit_ctes ctes outer s >>= λ visited. err binder

    pub visit_nodes : Queries → List Text → S → Outcome (Queries × S)
    visit_nodes no_queries visible s = ok (no_queries, s)
    visit_nodes (query node rest) visible s = visit_node node visible s >>= λ (node', s₁).
        visit_nodes rest visible s₁ >>= λ (rest', s₂). ok (query node' rest', s₂)

    pub visit_ctes : Ctes → List Text → S → Outcome (Ctes × (List Text × S))
    visit_ctes no_ctes visible s = ok (no_ctes, (visible, s))
    visit_ctes (cte name node key_targets rest) visible s =
        visit_node node visible s >>= λ (node', s₁).
        visit_exprs key_targets [] s₁ >>= λ (key_targets', s₂).
        visit_ctes rest (name ∷ visible) s₂ >>= λ (rest', found).
        ok (cte name node' key_targets' rest', found)

    pub visit_ref : Ref → List Text → S → Outcome (Ref × S)
    visit_ref no_ref visible s = ok (no_ref, s)
    visit_ref (base_table name) visible s =
        table name visible s >>= λ (name', s₁). ok (base_table name', s₁)
    visit_ref (join left right condition ranking) visible s =
        visit_ref left visible s >>= λ (left', s₁). visit_ref right visible s₁ >>= λ (right', s₂).
        visit_expr condition visible s₂ >>= λ (condition', s₃).
        visit_expr ranking visible s₃ >>= λ (ranking', s₄).
        ok (join left' right' condition' ranking', s₄)
    visit_ref (subquery_ref node) visible s =
        visit_node node visible s >>= λ (node', s₁). ok (subquery_ref node', s₁)
    visit_ref (pivot source aggregates columns) visible s =
        visit_ref source visible s >>= λ (source', s₁).
        visit_exprs aggregates visible s₁ >>= λ (aggregates', s₂).
        visit_exprs columns visible s₂ >>= λ (columns', s₃).
        ok (pivot source' aggregates' columns', s₃)
    visit_ref (expression_list values) visible s =
        visit_exprs values visible s >>= λ (values', s₁). ok (expression_list values', s₁)
    visit_ref empty_from visible s = ok (empty_from, s)
    visit_ref table_function visible s = err binder
    visit_ref other_ref visible s = err binder

    pub visit_expr : Expr → List Text → S → Outcome (Expr × S)
    visit_expr null_expr visible s = ok (null_expr, s)
    visit_expr (column_ref names) visible s =
        expression (column_ref names) >>= λ seen. ok (column_ref names, s)
    visit_expr (star excluded renamed children) visible s =
        expression (star excluded renamed children) >>= λ seen.
        visit_exprs children visible s >>= λ (children', s₁).
        ok (star excluded renamed children', s₁)
    visit_expr (subquery node children) visible s = visit_node node visible s >>= λ (node', s₁).
        visit_exprs children visible s₁ >>= λ (children', s₂). ok (subquery node' children', s₂)
    visit_expr (operation children) visible s =
        visit_exprs children visible s >>= λ (children', s₁). ok (operation children', s₁)

    pub visit_exprs : Exprs → List Text → S → Outcome (Exprs × S)
    visit_exprs no_exprs visible s = ok (no_exprs, s)
    visit_exprs (expr e rest) visible s = visit_expr e visible s >>= λ (e', s₁).
        visit_exprs rest visible s₁ >>= λ (rest', s₂). ok (expr e' rest', s₂)

  -- Walk
  unfoldable pub walk : Query → S → Outcome (Query × S)
  unfolding visit_node
  walk node s = visit_node node [] s
