-- ===== src/Select/Execute/Expressions.antt =====
-- src/sql/executor.rs: an expression asks for the queries in it only.
use mathlib.Core.Path.{fun_ext}
use rusty_db.Prelude.{ℕ, ◌≤◌, Option, none, some, List, ◌≡◌, refl, ap, arith}
use rusty_db.Sql.Number.{Runtime}
use rusty_db.Sql.Expr.{
  Expr, Exprs, OptExpr, Query, column, literal, parameter, incoming, binary, unary, is_null, like,
  in_list, in_subquery, exists, scalar_subquery, aggregate, no_exprs, cons_expr, no_expr, some_expr,
}
use rusty_db.Sql.Operators.{BoundColumn, Relation, Evaluated}
use rusty_db.Sql.Aggregate.{collect}
use rusty_db.Sql.Eval.{eval_expr, eval_exprs, eval_rows}
use rusty_db.Table.Store.{Row}
use rusty_db.Select.Execute.Count.{in_expr, in_exprs, in_option, in_query}

module _ (rt : Runtime) (f g : Query → Evaluated Relation) (n : ℕ)
    (agree : (q : Query) → in_query q ≤ n → f q ≡ g q) where
  mutual
    unfolding in_expr eval_expr

    pub eval_expr-agree :
        (columns : List BoundColumn) (row : Row) (group : Option (List Row)) (e : Expr)
        → in_expr e ≤ n
        → eval_expr rt f columns row group e ≡ eval_expr rt g columns row group e
    eval_expr-agree columns row group (column q m) h = refl
    eval_expr-agree columns row group (literal v) h = refl
    eval_expr-agree columns row group (parameter i) h = refl
    eval_expr-agree columns row group (incoming c) h = refl
    eval_expr-agree columns row group (unary op e) h = rw (eval_expr-agree columns row group e h)
    eval_expr-agree columns row group (binary l op r) h = rw (
      eval_expr-agree columns row group l (omega arith),
      eval_expr-agree columns row group r (omega arith),
    )
    eval_expr-agree columns row group (is_null e negated) h =
        rw (eval_expr-agree columns row group e h)
    eval_expr-agree columns row group (like e p negated) h = rw (
      eval_expr-agree columns row group e (omega arith),
      eval_expr-agree columns row group p (omega arith),
    )
    eval_expr-agree columns row group (in_list e es negated) h = rw (
      eval_expr-agree columns row group e (omega arith),
      eval_exprs-agree columns row group es (omega arith),
    )
    eval_expr-agree columns row group (in_subquery e q negated) h =
        rw (eval_expr-agree columns row group e (omega arith), agree q (omega arith))
    eval_expr-agree columns row group (exists q negated) h = rw (agree q h)
    eval_expr-agree columns row group (scalar_subquery q) h = rw (agree q h)
    eval_expr-agree columns row none (aggregate fn e distinct) h = refl
    eval_expr-agree columns row (some rows) (aggregate fn e distinct) h =
        rw (eval_rows-agree columns rows e h)

    eval_rows-agree :
        (columns : List BoundColumn) (rows : List Row) (e : OptExpr)
        → in_option e ≤ n
        → eval_rows rt f columns rows e ≡ eval_rows rt g columns rows e
    eval_rows-agree columns rows no_expr h = refl
    eval_rows-agree columns rows (some_expr e) h =
        ap (λ k. collect k rows) (fun_ext (λ row. eval_expr-agree columns row none e h))

    pub eval_exprs-agree :
        (columns : List BoundColumn) (row : Row) (group : Option (List Row)) (es : Exprs)
        → in_exprs es ≤ n
        → eval_exprs rt f columns row group es ≡ eval_exprs rt g columns row group es
    eval_exprs-agree columns row group no_exprs h = refl
    eval_exprs-agree columns row group (cons_expr e es) h = rw (
      eval_expr-agree columns row group e (omega arith),
      eval_exprs-agree columns row group es (omega arith),
    )
