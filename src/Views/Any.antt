-- ===== src/Views/Any.antt =====
-- What holds of every view body (src/catalog/glue_view_names.cpp).
use duckdb_aws_glue.Base.{List, [], ◌∷◌, Text}
use duckdb_aws_glue.Views.Body.{
  QualifiedName, Query, select_node, set_operation_node, recursive_cte_node, other_node, Queries,
  no_queries, query, Ctes, no_ctes, cte, Ref, no_ref, base_table, join, subquery_ref, pivot,
  expression_list, empty_from, table_function, other_ref, Expr, null_expr, column_ref, star,
  subquery, operation, Exprs, no_exprs, expr,
}
use duckdb_aws_glue.Views.Holds.{
  scope, NodeHolds, NodesHold, CtesHold, RefHolds, ExprHolds, ExprsHold,
}

abbrev pub AnyName : List Text → QualifiedName → Type 0
AnyName v n = Unit

abbrev pub AnyExpr : Expr → Type 0
AnyExpr e = Unit

mutual
  unfolding NodeHolds NodesHold CtesHold RefHolds ExprHolds ExprsHold

  pub NodeHolds-any : (q : Query) (v : List Text) → NodeHolds Unit AnyName AnyExpr q v
  NodeHolds-any (select_node ctes from list groups condition having qualify mods) v = (
    CtesHold-any ctes v,
    RefHolds-any from (scope ctes v),
    ExprsHold-any list (scope ctes v),
    ExprsHold-any groups (scope ctes v),
    ExprHolds-any condition (scope ctes v),
    ExprHolds-any having (scope ctes v),
    ExprHolds-any qualify (scope ctes v),
    ExprsHold-any mods (scope ctes v),
  )
  NodeHolds-any (set_operation_node ctes children mods) v = (
    CtesHold-any ctes v,
    NodesHold-any children (scope ctes v),
    ExprsHold-any mods (scope ctes v),
  )
  NodeHolds-any (recursive_cte_node ctes name left right key_targets mods) v = (
    CtesHold-any ctes v,
    NodeHolds-any left (scope ctes v),
    NodeHolds-any right (name ∷ scope ctes v),
    ExprsHold-any key_targets [],
    ExprsHold-any mods (scope ctes v),
  )
  NodeHolds-any (other_node ctes) v = (CtesHold-any ctes v, tt)

  NodesHold-any : (q : Queries) (v : List Text) → NodesHold Unit AnyName AnyExpr q v
  NodesHold-any no_queries v = tt
  NodesHold-any (query node rest) v = (NodeHolds-any node v, NodesHold-any rest v)

  CtesHold-any : (q : Ctes) (v : List Text) → CtesHold Unit AnyName AnyExpr q v
  CtesHold-any no_ctes v = tt
  CtesHold-any (cte name node key_targets rest) v =
      (NodeHolds-any node v, ExprsHold-any key_targets [], CtesHold-any rest (name ∷ v))

  RefHolds-any : (q : Ref) (v : List Text) → RefHolds Unit AnyName AnyExpr q v
  RefHolds-any no_ref v = tt
  RefHolds-any (base_table name) v = tt
  RefHolds-any (join left right condition ranking) v = (
    RefHolds-any left v,
    RefHolds-any right v,
    ExprHolds-any condition v,
    ExprHolds-any ranking v,
  )
  RefHolds-any (subquery_ref node) v = NodeHolds-any node v
  RefHolds-any (pivot source aggregates columns) v =
      (RefHolds-any source v, ExprsHold-any aggregates v, ExprsHold-any columns v)
  RefHolds-any (expression_list values) v = ExprsHold-any values v
  RefHolds-any empty_from v = tt
  RefHolds-any table_function v = tt
  RefHolds-any other_ref v = tt

  ExprHolds-any : (q : Expr) (v : List Text) → ExprHolds Unit AnyName AnyExpr q v
  ExprHolds-any null_expr v = tt
  ExprHolds-any (column_ref names) v = tt
  ExprHolds-any (star excluded renamed children) v = (tt, ExprsHold-any children v)
  ExprHolds-any (subquery node children) v = (NodeHolds-any node v, ExprsHold-any children v)
  ExprHolds-any (operation children) v = ExprsHold-any children v

  ExprsHold-any : (q : Exprs) (v : List Text) → ExprsHold Unit AnyName AnyExpr q v
  ExprsHold-any no_exprs v = tt
  ExprsHold-any (expr e rest) v = (ExprHolds-any e v, ExprsHold-any rest v)
