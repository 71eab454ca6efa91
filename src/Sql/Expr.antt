-- ===== src/Sql/Expr.antt =====
-- src/sql/types.rs: the expression tree and the query tree.
-- A type that holds a list or an option of the tree has its own list and option in the block.
use rusty_db.Prelude.{ℕ, Bool, Option, List}
use rusty_db.Sql.Types.{Text, Value, ComparisonOp}

pub data BinaryOp : Type 0 where
  add subtract multiply divide : BinaryOp
  compare : ComparisonOp → BinaryOp
  and or : BinaryOp

pub data UnaryOp : Type 0 where
  not negate plus : UnaryOp

pub data AggregateFunction : Type 0 where
  count sum avg max min : AggregateFunction

pub data JoinType : Type 0 where
  inner left right cross : JoinType

mutual
  pub data Expr : Type 0 where
    column : Option Text → Text → Expr
    literal : Value → Expr
    parameter : ℕ → Expr
    incoming : Text → Expr
    binary : Expr → BinaryOp → Expr → Expr
    unary : UnaryOp → Expr → Expr
    is_null : Expr → Bool → Expr
    like : Expr → Expr → Bool → Expr
    in_list : Expr → Exprs → Bool → Expr
    in_subquery : Expr → Query → Bool → Expr
    exists : Query → Bool → Expr
    scalar_subquery : Query → Expr
    aggregate : AggregateFunction → OptExpr → Bool → Expr

  pub data Exprs : Type 0 where
    no_exprs : Exprs
    cons_expr : Expr → Exprs → Exprs

  pub data OptExpr : Type 0 where
    no_expr : OptExpr
    some_expr : Expr → OptExpr

  -- ctes, distinct, projection, from, joins, selection, group_by, having, order_by, limit
  pub data Query : Type 0 where
    query :
        Ctes
        → Bool
        → SelectItems
        → OptSource
        → Joins
        → OptExpr
        → Exprs
        → OptExpr
        → OrderBys
        → Option ℕ
        → Query

  -- name, columns, query
  pub data Ctes : Type 0 where
    no_ctes : Ctes
    cons_cte : Text → List Text → Query → Ctes → Ctes

  pub data SelectItems : Type 0 where
    no_items : SelectItems
    cons_wildcard : Option Text → SelectItems → SelectItems
    cons_item : Expr → Option Text → SelectItems → SelectItems

  pub data TableSource : Type 0 where
    table : Text → Option Text → TableSource
    derived : Query → Text → TableSource

  pub data OptSource : Type 0 where
    no_source : OptSource
    some_source : TableSource → OptSource

  -- join_type, source, on
  pub data Joins : Type 0 where
    no_joins : Joins
    cons_join : JoinType → TableSource → OptExpr → Joins → Joins

  -- expr, descending
  pub data OrderBys : Type 0 where
    no_order : OrderBys
    cons_order : Expr → Bool → OrderBys → OrderBys
