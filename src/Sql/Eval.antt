-- ===== src/Sql/Eval.antt =====
-- src/sql/executor.rs: the evaluation of an expression on a row, or on a group of rows.
-- A subquery is run by the function `run`, which stands for `execute_query`; its cache answers as
-- a second run does, as the catalog does not change within a statement.

use rusty_db.Prelude.{
  not, Option, none, some, List, [], ◌∷◌, map, ok, err, ◌>>=◌, if◌then◌else◌, get_elem?,
}
use rusty_db.Prelude.Int.{pos}
use rusty_db.Sql.Number.{Runtime}
use rusty_db.Sql.Types
use rusty_db.Sql.Types.{
  Text, Value, SqlTruth, ComparisonOp, compare_sql, partial_cmp, truth, truth_value,
}
use rusty_db.Sql.Expr.{
  Expr, Exprs, OptExpr, Query, column, literal, parameter, incoming, binary, unary, is_null, like,
  in_list, in_subquery, exists, scalar_subquery, aggregate, no_exprs, cons_expr, no_expr, some_expr,
}
use rusty_db.Sql.Fold.{negate_if}
use rusty_db.Sql.Operators.{
  BoundColumn, Relation, unbound_parameter, incoming_outside, in_columns, scalar_columns,
  outside_grouping, Evaluated, resolve_column, or_unavailable, in_values, eval_unary, eval_binary,
  one_column, in_rows, scalar_of, is_empty_rows,
}
use rusty_db.Sql.Aggregate.{eval_aggregate, collect}

unfoldable mutual
  unfolding eval_unary eval_binary in_values one_column in_rows scalar_of is_empty_rows
      resolve_column eval_aggregate collect

  pub eval_expr :
      Runtime
      → (Query → Evaluated Relation)
      → List BoundColumn
      → List Value
      → Option (List (List Value))
      → Expr
      → Evaluated Value
  eval_expr rt run columns row group (literal v) = ok v
  eval_expr rt run columns row group (parameter i) = err (unbound_parameter i)
  eval_expr rt run columns row group (incoming c) = err (incoming_outside c)
  eval_expr rt run columns row group (column q n) = do
    i ← resolve_column columns q n
    or_unavailable n (get_elem? row i)
  eval_expr rt run columns row group (unary op e) = do
    v ← eval_expr rt run columns row group e
    eval_unary op v
  eval_expr rt run columns row group (binary l op r) =
      eval_binary rt (eval_expr rt run columns row group l) op
        (eval_expr rt run columns row group r)
  eval_expr rt run columns row group (is_null e negated) = do
    v ← eval_expr rt run columns row group e
    ok (Value.boolean (if negated then not (Types.is_null v) else Types.is_null v))
  eval_expr rt run columns row group (like e p negated) = do
    v ← eval_expr rt run columns row group e
    pattern_value ← eval_expr rt run columns row group p
    ok (truth_value (negate_if negated (compare_sql rt v pattern_value ComparisonOp.like)))
  eval_expr rt run columns row group (in_list e es negated) = do
    v ← eval_expr rt run columns row group e
    vs ← eval_exprs rt run columns row group es
    ok (truth_value (in_values rt v vs negated))
  eval_expr rt run columns row group (in_subquery e q negated) = do
    v ← eval_expr rt run columns row group e
    relation ← run q
    rows ← one_column in_columns relation
    ok (truth_value (negate_if negated (in_rows rt v rows)))
  eval_expr rt run columns row group (exists q negated) = do
    relation ← run q
    ok (
        Value.boolean
          (if negated then is_empty_rows relation.rows else not (is_empty_rows relation.rows)))
  eval_expr rt run columns row group (scalar_subquery q) = do
    relation ← run q
    rows ← one_column scalar_columns relation
    scalar_of rows
  eval_expr rt run columns row none (aggregate f e distinct) = err outside_grouping
  eval_expr rt run columns row (some rows) (aggregate f e distinct) =
      eval_aggregate rt f distinct (eval_rows rt run columns rows e)

  -- The values that an aggregate ranges over; without an expression, a 1 for each row.
  pub eval_rows :
      Runtime
      → (Query → Evaluated Relation)
      → List BoundColumn
      → List (List Value)
      → OptExpr
      → Evaluated (List Value)
  eval_rows rt run columns rows no_expr = ok (map (λ _. Value.integer (pos 1)) rows)
  eval_rows rt run columns rows (some_expr e) =
      collect (λ row. eval_expr rt run columns row none e) rows

  pub eval_exprs :
      Runtime
      → (Query → Evaluated Relation)
      → List BoundColumn
      → List Value
      → Option (List (List Value))
      → Exprs
      → Evaluated (List Value)
  eval_exprs rt run columns row group no_exprs = ok []
  eval_exprs rt run columns row group (cons_expr e es) = do
    v ← eval_expr rt run columns row group e
    vs ← eval_exprs rt run columns row group es
    ok (v ∷ vs)
