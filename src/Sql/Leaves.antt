-- ===== src/Sql/Leaves.antt =====
-- The leaves of a statement, written down without a look at how src/sql/parser.rs visits them: each
-- column, literal, parameter and incoming value, from left to right, in front of the leaves `rest`.
use rusty_db.Prelude.{ℕ, suc, max, List, [], ◌∷◌, get_elem?}
use rusty_db.Sql.Types.{Text, Value}
use rusty_db.Sql.Expr.{
  Expr, Exprs, OptExpr, Query, Ctes, SelectItems, TableSource, OptSource, Joins, OrderBys, column,
  literal, parameter, incoming, binary, unary, is_null, like, in_list, in_subquery, exists,
  scalar_subquery, aggregate, no_exprs, cons_expr, no_expr, some_expr, query, no_ctes, cons_cte,
  no_items, cons_wildcard, cons_item, table, derived, no_source, some_source, no_joins, cons_join,
  no_order, cons_order,
}
use rusty_db.Sql.Statement.{
  Statement, ColumnDef, TableConstraint, check, AlterOperation, add_column, modify_column,
  add_constraint, InsertSource, values, from_query, create_table, alter_table, insert, update,
  delete, explain,
}
use rusty_db.Sql.Parameters.{bound_value}

unfoldable mutual
  pub expr_leaves : Expr → List Expr → List Expr
  expr_leaves (column t n) rest = column t n ∷ rest
  expr_leaves (literal v) rest = literal v ∷ rest
  expr_leaves (parameter i) rest = parameter i ∷ rest
  expr_leaves (incoming n) rest = incoming n ∷ rest
  expr_leaves (binary l op r) rest = expr_leaves l (expr_leaves r rest)
  expr_leaves (unary op a) rest = expr_leaves a rest
  expr_leaves (is_null a negated) rest = expr_leaves a rest
  expr_leaves (like a p negated) rest = expr_leaves a (expr_leaves p rest)
  expr_leaves (in_list a es negated) rest = expr_leaves a (exprs_leaves es rest)
  expr_leaves (in_subquery a q negated) rest = expr_leaves a (query_leaves q rest)
  expr_leaves (exists q negated) rest = query_leaves q rest
  expr_leaves (scalar_subquery q) rest = query_leaves q rest
  expr_leaves (aggregate f o distinct) rest = opt_leaves o rest

  pub exprs_leaves : Exprs → List Expr → List Expr
  exprs_leaves no_exprs rest = rest
  exprs_leaves (cons_expr a es) rest = expr_leaves a (exprs_leaves es rest)

  pub opt_leaves : OptExpr → List Expr → List Expr
  opt_leaves no_expr rest = rest
  opt_leaves (some_expr a) rest = expr_leaves a rest

  pub query_leaves : Query → List Expr → List Expr
  query_leaves (query ws distinct items s js sel groups having os limit) rest = ctes_leaves ws (
      items_leaves items (
        from_leaves s (
          joins_leaves js
            (opt_leaves sel (exprs_leaves groups (opt_leaves having (order_leaves os rest)))))))

  pub ctes_leaves : Ctes → List Expr → List Expr
  ctes_leaves no_ctes rest = rest
  ctes_leaves (cons_cte name columns q ws) rest = query_leaves q (ctes_leaves ws rest)

  pub items_leaves : SelectItems → List Expr → List Expr
  items_leaves no_items rest = rest
  items_leaves (cons_wildcard t more) rest = items_leaves more rest
  items_leaves (cons_item a alias more) rest = expr_leaves a (items_leaves more rest)

  pub source_leaves : TableSource → List Expr → List Expr
  source_leaves (table name alias) rest = rest
  source_leaves (derived q alias) rest = query_leaves q rest

  pub from_leaves : OptSource → List Expr → List Expr
  from_leaves no_source rest = rest
  from_leaves (some_source s) rest = source_leaves s rest

  pub joins_leaves : Joins → List Expr → List Expr
  joins_leaves no_joins rest = rest
  joins_leaves (cons_join kind s on more) rest =
      source_leaves s (opt_leaves on (joins_leaves more rest))

  pub order_leaves : OrderBys → List Expr → List Expr
  order_leaves no_order rest = rest
  order_leaves (cons_order a descending more) rest = expr_leaves a (order_leaves more rest)

unfoldable pub checks_leaves : List Expr → List Expr → List Expr
unfolding expr_leaves
checks_leaves [] rest = rest
checks_leaves (e ∷ es) rest = expr_leaves e (checks_leaves es rest)

unfoldable pub columns_leaves : List ColumnDef → List Expr → List Expr
unfolding checks_leaves
columns_leaves [] rest = rest
columns_leaves (c ∷ cs) rest = checks_leaves c.checks (columns_leaves cs rest)

unfoldable pub constraints_leaves : List TableConstraint → List Expr → List Expr
unfolding expr_leaves
constraints_leaves [] rest = rest
constraints_leaves (check n e ∷ ks) rest = expr_leaves e (constraints_leaves ks rest)
constraints_leaves (_ ∷ ks) rest = constraints_leaves ks rest

unfoldable pub operations_leaves : List AlterOperation → List Expr → List Expr
unfolding checks_leaves constraints_leaves
operations_leaves [] rest = rest
operations_leaves (add_column c ks b ∷ ops) rest =
    checks_leaves c.checks (constraints_leaves ks (operations_leaves ops rest))
operations_leaves (modify_column n c ks ∷ ops) rest =
    checks_leaves c.checks (constraints_leaves ks (operations_leaves ops rest))
operations_leaves (add_constraint k ∷ ops) rest =
    constraints_leaves (k ∷ []) (operations_leaves ops rest)
operations_leaves (_ ∷ ops) rest = operations_leaves ops rest

unfoldable pub rows_leaves : List Exprs → List Expr → List Expr
unfolding exprs_leaves
rows_leaves [] rest = rest
rows_leaves (row ∷ rows) rest = exprs_leaves row (rows_leaves rows rest)

unfoldable pub values_leaves : InsertSource → List Expr → List Expr
unfolding rows_leaves query_leaves
values_leaves (values rows) rest = rows_leaves rows rest
values_leaves (from_query q) rest = query_leaves q rest

unfoldable pub assignments_leaves : List (Text × Expr) → List Expr → List Expr
unfolding expr_leaves
assignments_leaves [] rest = rest
assignments_leaves ((name, e) ∷ more) rest = expr_leaves e (assignments_leaves more rest)

unfoldable pub leaves : Statement → List Expr
unfolding columns_leaves constraints_leaves operations_leaves values_leaves assignments_leaves
    query_leaves opt_leaves
leaves (create_table n cs ks b) = columns_leaves cs (constraints_leaves ks [])
leaves (alter_table n ops) = operations_leaves ops []
leaves (insert n cs s on_duplicate) = values_leaves s (assignments_leaves on_duplicate [])
leaves (Statement.query q) = query_leaves q []
leaves (update n assignments sel) = assignments_leaves assignments (opt_leaves sel [])
leaves (delete n sel) = opt_leaves sel []
leaves (explain s) = leaves s
leaves _ = []

-- What is to stand in the place of a leaf.
unfoldable pub place : List Value → Expr → Expr
place vs (parameter i) = bound_value (get_elem? vs i) i
place vs e = e

-- One more than the largest number of a parameter among the leaves.
unfoldable pub parameters_below : List Expr → ℕ
parameters_below [] = 0
parameters_below (parameter i ∷ es) = max (suc i) (parameters_below es)
parameters_below (_ ∷ es) = parameters_below es
