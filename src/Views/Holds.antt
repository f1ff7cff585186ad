-- ===== src/Views/Holds.antt =====
-- What holds of every base table and column of a view body, under the scoping of SQL
-- (src/catalog/glue_view_names.cpp), and that a walk establishes it.
use duckdb_aws_glue.Base.{List, [], ◌∷◌, Text, Outcome, ok, err}
use duckdb_aws_glue.Views.Body.{
  QualifiedName, Query, select_node, set_operation_node, recursive_cte_node, other_node, Queries,
  no_queries, query, Ctes, no_ctes, cte, Ref, no_ref, base_table, join, subquery_ref, pivot,
  expression_list, empty_from, table_function, other_ref, Expr, null_expr, column_ref, star,
  subquery, operation, Exprs, no_exprs, expr,
}

-- The names of the CTEs that a list of them adds to those in scope, the last one first.
abbrev pub scope : Ctes → List Text → List Text
scope no_ctes visible = visible
scope (cte name node key_targets rest) visible = scope rest (name ∷ visible)

-- `P` holds of each base table with the CTEs in scope there, and `X` of each column reference and star:
-- a CTE is in scope after its definition, and in the recursive term of its own; no CTE is in a USING KEY. `U` says what is
-- known where the body has a part that a Glue view can not store.
module _ (U : Type 0) (P : List Text → QualifiedName → Type 0) (X : Expr → Type 0) where
  unfoldable mutual
    pub NodeHolds : Query → List Text → Type 0
    NodeHolds (select_node ctes from list groups condition having qualify mods) outer =
        CtesHold ctes outer
        × RefHolds from (scope ctes outer)
        × ExprsHold list (scope ctes outer)
        × ExprsHold groups (scope ctes outer)
        × ExprHolds condition (scope ctes outer)
        × ExprHolds having (scope ctes outer)
        × ExprHolds qualify (scope ctes outer)
        × ExprsHold mods (scope ctes outer)
    NodeHolds (set_operation_node ctes children mods) outer =
        CtesHold ctes outer
        × NodesHold children (scope ctes outer)
        × ExprsHold mods (scope ctes outer)
    NodeHolds (recursive_cte_node ctes name left right key_targets mods) outer =
        CtesHold ctes outer
        × NodeHolds left (scope ctes outer)
        × NodeHolds right (name ∷ scope ctes outer)
        × ExprsHold key_targets []
        × ExprsHold mods (scope ctes outer)
    NodeHolds (other_node ctes) outer = CtesHold ctes outer × U

    pub NodesHold : Queries → List Text → Type 0
    NodesHold no_queries visible = Unit
    NodesHold (query node rest) visible = NodeHolds node visible × NodesHold rest visible

    pub CtesHold : Ctes → List Text → Type 0
    CtesHold no_ctes visible = Unit
    CtesHold (cte name node key_targets rest) visible =
        NodeHolds node visible × ExprsHold key_targets [] × CtesHold rest (name ∷ visible)

    pub RefHolds : Ref → List Text → Type 0
    RefHolds no_ref visible = Unit
    RefHolds (base_table name) visible = P visible name
    RefHolds (join left right condition ranking) visible =
        RefHolds left visible
        × RefHolds right visible
        × ExprHolds condition visible
        × ExprHolds ranking visible
    RefHolds (subquery_ref node) visible = NodeHolds node visible
    RefHolds (pivot source aggregates columns) visible =
        RefHolds source visible × ExprsHold aggregates visible × ExprsHold columns visible
    RefHolds (expression_list values) visible = ExprsHold values visible
    RefHolds empty_from visible = Unit
    RefHolds table_function visible = U
    RefHolds other_ref visible = U

    pub ExprHolds : Expr → List Text → Type 0
    ExprHolds null_expr visible = Unit
    ExprHolds (column_ref names) visible = X (column_ref names)
    ExprHolds (star excluded renamed children) visible =
        X (star excluded renamed children) × ExprsHold children visible
    ExprHolds (subquery node children) visible = NodeHolds node visible × ExprsHold children visible
    ExprHolds (operation children) visible = ExprsHold children visible

    pub ExprsHold : Exprs → List Text → Type 0
    ExprsHold no_exprs visible = Unit
    ExprsHold (expr e rest) visible = ExprHolds e visible × ExprsHold rest visible

-- `P` holds of the value, where there is one.
pub data IfOk {ℓ κ} {A : Type ℓ} (P : A → Type κ) : Outcome A → Type (ℓ ⊔ κ) where
  returns : {a : A} → P a → IfOk P (ok a)
  throws : (thrown : _) → IfOk P (err thrown)
