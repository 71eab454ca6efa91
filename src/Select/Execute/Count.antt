-- ===== src/Select/Execute/Count.antt =====
-- src/sql/types.rs: the number of queries in a query, itself included, and in its parts.
use rusty_db.Prelude.{ℕ, suc, ◌+◌}
use rusty_db.Sql.Expr.{
  Expr, Exprs, OptExpr, Query, query, Ctes, no_ctes, cons_cte, SelectItems, no_items, cons_wildcard,
  cons_item, OptSource, no_source, some_source, TableSource, table, derived, Joins, no_joins,
  cons_join, OrderBys, no_order, cons_order, column, literal, parameter, incoming, binary, unary,
  is_null, like, in_list, in_subquery, exists, scalar_subquery, aggregate, no_exprs, cons_expr,
  no_expr, some_expr,
}

unfoldable mutual
  pub in_expr : Expr → ℕ
  in_expr (column _ _) = 0
  in_expr (literal _) = 0
  in_expr (parameter _) = 0
  in_expr (incoming _) = 0
  in_expr (binary l _ r) = in_expr l + in_expr r
  in_expr (unary _ e) = in_expr e
  in_expr (is_null e _) = in_expr e
  in_expr (like e p _) = in_expr e + in_expr p
  in_expr (in_list e es _) = in_expr e + in_exprs es
  in_expr (in_subquery e q _) = in_expr e + in_query q
  in_expr (exists q _) = in_query q
  in_expr (scalar_subquery q) = in_query q
  in_expr (aggregate _ e _) = in_option e

  pub in_exprs : Exprs → ℕ
  in_exprs no_exprs = 0
  in_exprs (cons_expr e es) = in_expr e + in_exprs es

  pub in_option : OptExpr → ℕ
  in_option no_expr = 0
  in_option (some_expr e) = in_expr e

  pub in_query : Query → ℕ
  in_query (query ctes _ items source joins selection group_by having order_by _) = suc (
      in_ctes ctes
      + in_items items
      + in_source source
      + in_joins joins
      + in_option selection
      + in_exprs group_by
      + in_option having
      + in_orders order_by)

  pub in_ctes : Ctes → ℕ
  in_ctes no_ctes = 0
  in_ctes (cons_cte _ _ q rest) = in_query q + in_ctes rest

  pub in_items : SelectItems → ℕ
  in_items no_items = 0
  in_items (cons_wildcard _ items) = in_items items
  in_items (cons_item e _ items) = in_expr e + in_items items

  pub in_table : TableSource → ℕ
  in_table (table _ _) = 0
  in_table (derived q _) = in_query q

  pub in_source : OptSource → ℕ
  in_source no_source = 0
  in_source (some_source s) = in_table s

  pub in_joins : Joins → ℕ
  in_joins no_joins = 0
  in_joins (cons_join _ s condition rest) = in_table s + in_option condition + in_joins rest

  pub in_orders : OrderBys → ℕ
  in_orders no_order = 0
  in_orders (cons_order e _ orders) = in_expr e + in_orders orders
