-- ===== src/Select/Execute/Sorting.antt =====
-- src/sql/executor.rs: an order asks for the queries in its terms only.
use rusty_db.Prelude.{ℕ, ◌≤◌, none, List, [], ◌∷◌, ◌≡◌, refl, ap, ◌∙◌, arith, bind-agree}
use rusty_db.Sql.Number.{Runtime}
use rusty_db.Sql.Expr.{
  Expr, Query, column, literal, parameter, incoming, binary, unary, is_null, like, in_list,
  in_subquery, exists, scalar_subquery, aggregate, OrderBys, no_order, cons_order,
}
use rusty_db.Sql.Operators.{BoundColumn, Relation, Evaluated}
use rusty_db.Table.Store.{Row}
use rusty_db.Select.Order.{
  eval_order_value, compare_values, reverse_if, compare_order_rows, then_by, insert_sorted,
  sort_rows,
}
use rusty_db.Select.Execute.Count.{in_expr, in_query, in_orders}
use rusty_db.Select.Execute.Expressions.{eval_expr-agree}

module _ (rt : Runtime) (f g : Query → Evaluated Relation) (n : ℕ)
    (agree : (q : Query) → in_query q ≤ n → f q ≡ g q) (columns : List BoundColumn) where
  eval_order_value-agree :
      (e : Expr) (row : Row)
      → in_expr e ≤ n
      → eval_order_value rt f columns e row ≡ eval_order_value rt g columns e row
  unfolding eval_order_value
  eval_order_value-agree (aggregate fn e distinct) row h = refl
  eval_order_value-agree (column q m) row h = eval_expr-agree rt f g n agree columns row none _ h
  eval_order_value-agree (literal v) row h = eval_expr-agree rt f g n agree columns row none _ h
  eval_order_value-agree (parameter i) row h = eval_expr-agree rt f g n agree columns row none _ h
  eval_order_value-agree (incoming c) row h = eval_expr-agree rt f g n agree columns row none _ h
  eval_order_value-agree (unary op e) row h = eval_expr-agree rt f g n agree columns row none _ h
  eval_order_value-agree (binary l op r) row h = eval_expr-agree rt f g n agree columns row none _ h
  eval_order_value-agree (is_null e b) row h = eval_expr-agree rt f g n agree columns row none _ h
  eval_order_value-agree (like e p b) row h = eval_expr-agree rt f g n agree columns row none _ h
  eval_order_value-agree (in_list e es b) row h =
      eval_expr-agree rt f g n agree columns row none _ h
  eval_order_value-agree (in_subquery e q b) row h =
      eval_expr-agree rt f g n agree columns row none _ h
  eval_order_value-agree (exists q b) row h = eval_expr-agree rt f g n agree columns row none _ h
  eval_order_value-agree (scalar_subquery q) row h =
      eval_expr-agree rt f g n agree columns row none _ h

  compare_order_rows-agree :
      (orders : OrderBys) (left right : Row)
      → in_orders orders ≤ n
      → compare_order_rows rt f columns orders left right
        ≡ compare_order_rows rt g columns orders left right
  unfolding compare_order_rows in_orders
  compare_order_rows-agree no_order left right h = refl
  compare_order_rows-agree (cons_order e descending orders) left right h =
      bind-agree (eval_order_value-agree e left (omega arith)) (λ v.
        bind-agree (eval_order_value-agree e right (omega arith)) (λ w.
          ap (then_by (reverse_if descending (compare_values rt v w)))
            (compare_order_rows-agree orders left right (omega arith))))

  insert_sorted-agree :
      (orders : OrderBys) (row : Row) (rows : List Row)
      → in_orders orders ≤ n
      → insert_sorted rt f columns orders row rows ≡ insert_sorted rt g columns orders row rows
  unfolding insert_sorted
  insert_sorted-agree orders row [] h = refl
  insert_sorted-agree orders row (other ∷ rows) h =
      rw (compare_order_rows-agree orders row other h, insert_sorted-agree orders row rows h)

  pub sort_rows-agree :
      (orders : OrderBys) (rows : List Row)
      → in_orders orders ≤ n
      → sort_rows rt f columns orders rows ≡ sort_rows rt g columns orders rows
  unfolding sort_rows
  sort_rows-agree orders [] h = refl
  sort_rows-agree orders (row ∷ rows) h =
      ap (insert_sorted rt f columns orders row) (sort_rows-agree orders rows h)
      ∙ insert_sorted-agree orders row (sort_rows rt g columns orders rows) h
