-- ===== src/Views/Body.antt =====
-- A query as DuckDB parses it, as far as ViewBodyWalker of src/catalog/glue_view_names.cpp tells its
-- parts apart. Identifiers are texts; an empty one is a part that is not given.
use duckdb_aws_glue.Base.{List, Text}

pub record QualifiedName : Type 0 where
  pub catalog : Text
  pub schema : Text
  pub name : Text

-- `no_ref` and `null_expr` are null pointers. A select node has its FROM clause, select list, GROUP BY
-- expressions, WHERE, HAVING and QUALIFY; the last list of a node is its modifiers' expressions. A CTE
-- has its name, its query and its USING KEY targets. A join has its condition and ranking expression; a
-- PIVOT its aggregates, and for each column its expressions and those of its entries, in this
-- order. A star has the catalogs of its EXCLUDE and RENAME names, a column reference its names. Of
-- other expressions there are the children; a subquery that is null is one of these.
mutual
  pub data Query : Type 0 where
    select_node : Ctes → Ref → Exprs → Exprs → Expr → Expr → Expr → Exprs → Query
    set_operation_node : Ctes → Queries → Exprs → Query
    recursive_cte_node : Ctes → Text → Query → Query → Exprs → Exprs → Query
    other_node : Ctes → Query

  pub data Queries : Type 0 where
    no_queries : Queries
    query : Query → Queries → Queries

  pub data Ctes : Type 0 where
    no_ctes : Ctes
    cte : Text → Query → Exprs → Ctes → Ctes

  pub data Ref : Type 0 where
    no_ref : Ref
    base_table : QualifiedName → Ref
    join : Ref → Ref → Expr → Expr → Ref
    subquery_ref : Query → Ref
    pivot : Ref → Exprs → Exprs → Ref
    expression_list : Exprs → Ref
    empty_from : Ref
    table_function : Ref
    other_ref : Ref

  pub data Expr : Type 0 where
    null_expr : Expr
    column_ref : List Text → Expr
    star : List Text → List Text → Exprs → Expr
    subquery : Query → Exprs → Expr
    operation : Exprs → Expr

  pub data Exprs : Type 0 where
    no_exprs : Exprs
    expr : Expr → Exprs → Exprs
