-- ===== src/Select/Order.antt =====
-- src/sql/executor.rs: ORDER BY, and the choice between ordering before and after the projection.
-- `sort_by` is stable: an insertion sort. With a limit the code selects the first rows before it
-- sorts them; which of the rows that compare as equal it takes is not fixed, and here it is the first.
use Prim.Native.Nat.{Ordering}
use rusty_db.Prelude.{
  Bool, true, false, ◌&&◌, Option, none, some, List, [], ◌∷◌, get_elem?, ok, err, ◌>>=◌,
}
use rusty_db.Sql.Number.{Runtime}
use rusty_db.Sql.Types.{Text, Value, partial_cmp}
use rusty_db.Sql.Expr.{
  Expr, Exprs, Query, OrderBys, column, literal, parameter, incoming, binary, unary, is_null, like,
  in_list, aggregate, no_exprs, cons_expr, no_order, cons_order,
}
use rusty_db.Sql.Operators.{BoundColumn, Relation, Evaluated, order_unavailable, resolve_column}
use rusty_db.Sql.Eval.{eval_expr}
use rusty_db.Table.Store.{Row}
use rusty_db.Select.Project.{expression_name}

abbrev pub is_ok : {A : Type 0} → Evaluated A → Bool
is_ok (ok _) = true
is_ok (err _) = false

unfoldable mutual
  unfolding resolve_column

  pub expression_resolves : List BoundColumn → Expr → Bool
  expression_resolves columns (column q n) = is_ok (resolve_column columns q n)
  expression_resolves columns (literal _) = true
  expression_resolves columns (parameter _) = true
  expression_resolves columns (incoming _) = true
  expression_resolves columns (binary l _ r) =
      expression_resolves columns l && expression_resolves columns r
  expression_resolves columns (unary _ e) = expression_resolves columns e
  expression_resolves columns (is_null e _) = expression_resolves columns e
  expression_resolves columns (like e _ _) = expression_resolves columns e
  expression_resolves columns (in_list e es _) =
      expression_resolves columns e && all_resolve columns es
  expression_resolves columns _ = false

  pub all_resolve : List BoundColumn → Exprs → Bool
  all_resolve columns no_exprs = true
  all_resolve columns (cons_expr e es) = expression_resolves columns e && all_resolve columns es

unfoldable pub order_resolves : List BoundColumn → OrderBys → Bool
unfolding expression_resolves
order_resolves columns no_order = true
order_resolves columns (cons_order e _ orders) =
    expression_resolves columns e && order_resolves columns orders

abbrev pub or_equal : Option Ordering → Ordering
or_equal none = Ordering.eq
or_equal (some o) = o

-- NULL comes first.
abbrev pub compare_values : Runtime → Value → Value → Ordering
compare_values rt Value.null Value.null = Ordering.eq
compare_values rt Value.null w = Ordering.lt
compare_values rt v Value.null = Ordering.gt
compare_values rt v w = or_equal (partial_cmp rt v w)

abbrev pub reverse_if : Bool → Ordering → Ordering
reverse_if true Ordering.lt = Ordering.gt
reverse_if true Ordering.gt = Ordering.lt
reverse_if _ o = o

abbrev pub or_unavailable : Text → Option Value → Evaluated Value
or_unavailable name none = err (order_unavailable name)
or_unavailable name (some v) = ok v

-- The next term of ORDER BY decides between equal values.
unfoldable pub then_by : Ordering → Evaluated Ordering → Evaluated Ordering
then_by Ordering.eq next = next
then_by Ordering.lt next = ok Ordering.lt
then_by Ordering.gt next = ok Ordering.gt

-- A row before another that it is not after.
unfoldable pub place : Ordering → Row → List Row → List Row → List Row
place Ordering.gt row [] later = later
place Ordering.gt row (other ∷ rows) later = other ∷ later
place Ordering.lt row rows later = row ∷ rows
place Ordering.eq row rows later = row ∷ rows

module _ (rt : Runtime) (run : Query → Evaluated Relation) (columns : List BoundColumn) where
  -- An aggregate function is looked up by its name in the columns.
  unfoldable pub eval_order_value : Expr → Row → Evaluated Value
  unfolding expression_name resolve_column eval_expr
  eval_order_value (aggregate f e distinct) row = do
    let name = expression_name (aggregate f e distinct)
    i ← resolve_column columns none name
    or_unavailable name (get_elem? row i)
  eval_order_value e row = eval_expr rt run columns row none e

  unfoldable pub compare_order_rows : OrderBys → Row → Row → Evaluated Ordering
  unfolding eval_order_value partial_cmp then_by
  compare_order_rows no_order left right = ok Ordering.eq
  compare_order_rows (cons_order e descending orders) left right = do
    v ← eval_order_value e left
    w ← eval_order_value e right
    then_by (reverse_if descending (compare_values rt v w)) (compare_order_rows orders left right)

  -- `unwrap_or(Ordering::Equal)`
  abbrev pub order_or_equal : Evaluated Ordering → Ordering
  order_or_equal (ok o) = o
  order_or_equal (err _) = Ordering.eq

  unfoldable pub insert_sorted : OrderBys → Row → List Row → List Row
  unfolding compare_order_rows place
  insert_sorted orders row [] = row ∷ []
  insert_sorted orders row (other ∷ rows) =
      place (order_or_equal (compare_order_rows orders row other)) row (other ∷ rows)
        (insert_sorted orders row rows)

  unfoldable pub sort_rows : OrderBys → List Row → List Row
  unfolding insert_sorted
  sort_rows orders [] = []
  sort_rows orders (row ∷ rows) = insert_sorted orders row (sort_rows orders rows)
