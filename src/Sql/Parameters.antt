-- ===== src/Sql/Parameters.antt =====
-- src/sql/parser.rs: the parameters of a prepared statement, and what binding puts in their places.
use rusty_db.Prelude.{ℕ, suc, max, Option, none, some, List, get_elem?}
use rusty_db.Sql.Types.{Value}
use rusty_db.Sql.Expr.{
  Expr, Exprs, OptExpr, Query, Ctes, SelectItems, TableSource, OptSource, Joins, OrderBys, column,
  literal, parameter, incoming, binary, unary, is_null, like, in_list, in_subquery, exists,
  scalar_subquery, aggregate, no_exprs, cons_expr, no_expr, some_expr, query, no_ctes, cons_cte,
  no_items, cons_wildcard, cons_item, table, derived, no_source, some_source, no_joins, cons_join,
  no_order, cons_order,
}

-- `values[index]`; an index out of range is left, where the code panics.
abbrev pub bound_value : Option Value → ℕ → Expr
bound_value (some v) i = literal v
bound_value none i = parameter i

-- One more than the largest index of a parameter, 0 without one.
unfoldable mutual
  pub count_expr : Expr → ℕ
  count_expr (parameter i) = suc i
  count_expr (column t n) = 0
  count_expr (literal v) = 0
  count_expr (incoming n) = 0
  count_expr (binary l op r) = max (count_expr l) (count_expr r)
  count_expr (unary op a) = count_expr a
  count_expr (is_null a negated) = count_expr a
  count_expr (like a p negated) = max (count_expr a) (count_expr p)
  count_expr (in_list a es negated) = max (count_expr a) (count_exprs es)
  count_expr (in_subquery a q negated) = max (count_expr a) (count_query q)
  count_expr (exists q negated) = count_query q
  count_expr (scalar_subquery q) = count_query q
  count_expr (aggregate f o distinct) = count_opt o

  pub count_exprs : Exprs → ℕ
  count_exprs no_exprs = 0
  count_exprs (cons_expr a es) = max (count_expr a) (count_exprs es)

  pub count_opt : OptExpr → ℕ
  count_opt no_expr = 0
  count_opt (some_expr a) = count_expr a

  pub count_query : Query → ℕ
  count_query (query ws distinct items s js sel groups having os limit) = max (count_ctes ws) (
      max (count_items items) (
        max (count_from s) (
          max (count_joins js) (
            max (count_opt sel)
              (max (count_exprs groups) (max (count_opt having) (count_order os)))))))

  pub count_ctes : Ctes → ℕ
  count_ctes no_ctes = 0
  count_ctes (cons_cte name columns q ws) = max (count_query q) (count_ctes ws)

  pub count_items : SelectItems → ℕ
  count_items no_items = 0
  count_items (cons_wildcard t rest) = count_items rest
  count_items (cons_item a alias rest) = max (count_expr a) (count_items rest)

  pub count_source : TableSource → ℕ
  count_source (table name alias) = 0
  count_source (derived q alias) = count_query q

  pub count_from : OptSource → ℕ
  count_from no_source = 0
  count_from (some_source s) = count_source s

  pub count_joins : Joins → ℕ
  count_joins no_joins = 0
  count_joins (cons_join kind s on rest) =
      max (count_source s) (max (count_opt on) (count_joins rest))

  pub count_order : OrderBys → ℕ
  count_order no_order = 0
  count_order (cons_order a descending rest) = max (count_expr a) (count_order rest)

unfoldable mutual
  pub bind_expr : List Value → Expr → Expr
  bind_expr vs (parameter i) = bound_value (get_elem? vs i) i
  bind_expr vs (column t n) = column t n
  bind_expr vs (literal v) = literal v
  bind_expr vs (incoming n) = incoming n
  bind_expr vs (binary l op r) = binary (bind_expr vs l) op (bind_expr vs r)
  bind_expr vs (unary op a) = unary op (bind_expr vs a)
  bind_expr vs (is_null a negated) = is_null (bind_expr vs a) negated
  bind_expr vs (like a p negated) = like (bind_expr vs a) (bind_expr vs p) negated
  bind_expr vs (in_list a es negated) = in_list (bind_expr vs a) (bind_exprs vs es) negated
  bind_expr vs (in_subquery a q negated) = in_subquery (bind_expr vs a) (bind_query vs q) negated
  bind_expr vs (exists q negated) = exists (bind_query vs q) negated
  bind_expr vs (scalar_subquery q) = scalar_subquery (bind_query vs q)
  bind_expr vs (aggregate f o distinct) = aggregate f (bind_opt vs o) distinct

  pub bind_exprs : List Value → Exprs → Exprs
  bind_exprs vs no_exprs = no_exprs
  bind_exprs vs (cons_expr a es) = cons_expr (bind_expr vs a) (bind_exprs vs es)

  pub bind_opt : List Value → OptExpr → OptExpr
  bind_opt vs no_expr = no_expr
  bind_opt vs (some_expr a) = some_expr (bind_expr vs a)

  pub bind_query : List Value → Query → Query
  bind_query vs (query ws distinct items s js sel groups having os limit) =
      query (bind_ctes vs ws) distinct (bind_items vs items) (bind_from vs s) (bind_joins vs js)
        (bind_opt vs sel) (bind_exprs vs groups) (bind_opt vs having) (bind_order vs os) limit

  pub bind_ctes : List Value → Ctes → Ctes
  bind_ctes vs no_ctes = no_ctes
  bind_ctes vs (cons_cte name columns q ws) =
      cons_cte name columns (bind_query vs q) (bind_ctes vs ws)

  pub bind_items : List Value → SelectItems → SelectItems
  bind_items vs no_items = no_items
  bind_items vs (cons_wildcard t rest) = cons_wildcard t (bind_items vs rest)
  bind_items vs (cons_item a alias rest) = cons_item (bind_expr vs a) alias (bind_items vs rest)

  pub bind_source : List Value → TableSource → TableSource
  bind_source vs (table name alias) = table name alias
  bind_source vs (derived q alias) = derived (bind_query vs q) alias

  pub bind_from : List Value → OptSource → OptSource
  bind_from vs no_source = no_source
  bind_from vs (some_source s) = some_source (bind_source vs s)

  pub bind_joins : List Value → Joins → Joins
  bind_joins vs no_joins = no_joins
  bind_joins vs (cons_join kind s on rest) =
      cons_join kind (bind_source vs s) (bind_opt vs on) (bind_joins vs rest)

  pub bind_order : List Value → OrderBys → OrderBys
  bind_order vs no_order = no_order
  bind_order vs (cons_order a descending rest) =
      cons_order (bind_expr vs a) descending (bind_order vs rest)
