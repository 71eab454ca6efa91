-- ===== src/Sql/Fold.antt =====
-- src/sql/planner.rs: the optimizer, which folds constant expressions. A fold can panic.

pub mod Operators
pub mod Known
pub mod Foldable
pub mod Sound
pub mod Faults
use rusty_db.Prelude.{
  ℕ, Bool, true, false, ◌||◌, not, Option, none, some, List, Result, ok, err, ◌>>=◌, if◌then◌else◌,
}
use rusty_db.Prelude.Int.{ℤ}
use rusty_db.Sql.Number.{
  Runtime, Panic, i64_add, i64_sub, i64_mul, i64_neg, i64_div, is_zero, float_is_zero, float_neg,
}
use rusty_db.Sql.Types
use rusty_db.Sql.Types.{Value, SqlTruth, ComparisonOp, compare_sql, truth, truth_value}
use rusty_db.Sql.Expr.{
  Expr, Exprs, OptExpr, Query, Ctes, SelectItems, TableSource, OptSource, Joins, OrderBys, BinaryOp,
  UnaryOp, column, literal, parameter, incoming, binary, unary, is_null, like, in_list, in_subquery,
  exists, scalar_subquery, aggregate, no_exprs, cons_expr, no_expr, some_expr, query, no_ctes,
  cons_cte, no_items, cons_wildcard, cons_item, table, derived, no_source, some_source, no_joins,
  cons_join, no_order, cons_order,
}

abbrev pub Fallible : Type 0 → Type 0
Fallible A = Result Panic A

-- `matches!(right, Value::Integer(0) | Value::Float(0.0))`
abbrev pub is_zero_value : Value → Bool
is_zero_value (Value.integer n) = is_zero n
is_zero_value (Value.float x) = float_is_zero x
is_zero_value _ = false

abbrev pub some_integer : Fallible ℤ → Fallible (Option Value)
some_integer (ok n) = ok (some (Value.integer n))
some_integer (err e) = err e

unfoldable pub fold_numeric :
    Runtime → (ℤ → ℤ → Fallible ℤ) → (ℕ → ℕ → ℕ) → Value → Value → Fallible (Option Value)
fold_numeric rt int flt (Value.integer a) (Value.integer b) = some_integer (int a b)
fold_numeric rt int flt (Value.integer a) (Value.float b) =
    ok (some (Value.float (flt (rt.float_of_int a) b)))
fold_numeric rt int flt (Value.float a) (Value.integer b) =
    ok (some (Value.float (flt a (rt.float_of_int b))))
fold_numeric rt int flt (Value.float a) (Value.float b) = ok (some (Value.float (flt a b)))
fold_numeric rt int flt _ _ = ok none

unfoldable pub fold_operator : Runtime → Value → BinaryOp → Value → Fallible (Option Value)
unfolding fold_numeric
fold_operator rt a (BinaryOp.compare op) b = ok (some (truth_value (compare_sql rt a b op)))
fold_operator rt a BinaryOp.and b = ok (some (truth_value (Types.and (truth a) (truth b))))
fold_operator rt a BinaryOp.or b = ok (some (truth_value (Types.or (truth a) (truth b))))
fold_operator rt a BinaryOp.add b = fold_numeric rt (λ x y. ok (i64_add x y)) rt.float_add a b
fold_operator rt a BinaryOp.subtract b = fold_numeric rt (λ x y. ok (i64_sub x y)) rt.float_sub a b
fold_operator rt a BinaryOp.multiply b = fold_numeric rt (λ x y. ok (i64_mul x y)) rt.float_mul a b
fold_operator rt a BinaryOp.divide b =
    if is_zero_value b then ok none else fold_numeric rt i64_div rt.float_div a b

unfoldable pub fold_binary : Runtime → Value → BinaryOp → Value → Fallible (Option Value)
unfolding fold_operator
fold_binary rt a op b =
    if Types.is_null a || Types.is_null b then ok (some Value.null) else fold_operator rt a op b

unfoldable pub fold_unary : UnaryOp → Value → Option Value
fold_unary UnaryOp.not v = some (truth_value (Types.negate (truth v)))
fold_unary UnaryOp.negate (Value.integer n) = some (Value.integer (i64_neg n))
fold_unary UnaryOp.negate (Value.float x) = some (Value.float (float_neg x))
fold_unary UnaryOp.plus (Value.integer n) = some (Value.integer n)
fold_unary UnaryOp.plus (Value.float x) = some (Value.float x)
fold_unary _ _ = none

abbrev pub literal_or : Option Value → Expr → Expr
literal_or (some v) e = literal v
literal_or none e = e

abbrev pub negate_if : Bool → SqlTruth → SqlTruth
negate_if true t = Types.negate t
negate_if false t = t

-- `if let Expr::Literal(value) = &expr`
unfoldable pub as_literal : Expr → Option Value
as_literal (literal v) = some v
as_literal _ = none

unfoldable pub binary_folded :
    Runtime → Expr → BinaryOp → Expr → Option Value → Option Value → Fallible Expr
unfolding fold_binary
binary_folded rt l op r (some a) (some b) = do
  folded ← fold_binary rt a op b
  ok (literal_or folded (binary l op r))
binary_folded rt l op r _ _ = ok (binary l op r)

-- What is made of a node whose children are folded.
unfoldable pub binary_node : Runtime → Expr → BinaryOp → Expr → Fallible Expr
unfolding binary_folded as_literal
binary_node rt l op r = binary_folded rt l op r (as_literal l) (as_literal r)

unfoldable pub unary_folded : UnaryOp → Expr → Option Value → Expr
unfolding fold_unary
unary_folded op e (some v) = literal_or (fold_unary op v) (unary op e)
unary_folded op e none = unary op e

unfoldable pub unary_node : UnaryOp → Expr → Expr
unfolding unary_folded as_literal
unary_node op e = unary_folded op e (as_literal e)

unfoldable pub is_null_folded : Expr → Bool → Option Value → Expr
is_null_folded e negated (some v) =
    literal (Value.boolean (if negated then not (Types.is_null v) else Types.is_null v))
is_null_folded e negated none = is_null e negated

unfoldable pub is_null_node : Expr → Bool → Expr
unfolding is_null_folded as_literal
is_null_node e negated = is_null_folded e negated (as_literal e)

unfoldable pub like_folded : Runtime → Expr → Expr → Bool → Option Value → Option Value → Expr
like_folded rt e p negated (some v) (some w) =
    literal (truth_value (negate_if negated (compare_sql rt v w ComparisonOp.like)))
like_folded rt e p negated _ _ = like e p negated

unfoldable pub like_node : Runtime → Expr → Expr → Bool → Expr
unfolding like_folded as_literal
like_node rt e p negated = like_folded rt e p negated (as_literal e) (as_literal p)

unfoldable mutual
  unfolding binary_node unary_node is_null_node like_node

  pub fold_expr : Runtime → Expr → Fallible Expr
  fold_expr rt (binary l op r) = do
    l' ← fold_expr rt l
    r' ← fold_expr rt r
    binary_node rt l' op r'
  fold_expr rt (unary op e) = do e' ← fold_expr rt e; ok (unary_node op e')
  fold_expr rt (is_null e negated) = do e' ← fold_expr rt e; ok (is_null_node e' negated)
  fold_expr rt (like e p negated) = do
    e' ← fold_expr rt e
    p' ← fold_expr rt p
    ok (like_node rt e' p' negated)
  fold_expr rt (in_list e es negated) = do
    e' ← fold_expr rt e
    es' ← fold_exprs rt es
    ok (in_list e' es' negated)
  fold_expr rt (in_subquery e q negated) = do
    e' ← fold_expr rt e
    q' ← optimize_query rt q
    ok (in_subquery e' q' negated)
  fold_expr rt (exists q negated) = do q' ← optimize_query rt q; ok (exists q' negated)
  fold_expr rt (scalar_subquery q) = do q' ← optimize_query rt q; ok (scalar_subquery q')
  fold_expr rt (aggregate f o distinct) = do o' ← fold_option rt o; ok (aggregate f o' distinct)
  fold_expr rt (column t n) = ok (column t n)
  fold_expr rt (literal v) = ok (literal v)
  fold_expr rt (parameter i) = ok (parameter i)
  fold_expr rt (incoming n) = ok (incoming n)

  pub fold_exprs : Runtime → Exprs → Fallible Exprs
  fold_exprs rt no_exprs = ok no_exprs
  fold_exprs rt (cons_expr e es) = do
    e' ← fold_expr rt e
    es' ← fold_exprs rt es
    ok (cons_expr e' es')

  pub fold_option : Runtime → OptExpr → Fallible OptExpr
  fold_option rt no_expr = ok no_expr
  fold_option rt (some_expr e) = do e' ← fold_expr rt e; ok (some_expr e')

  pub optimize_query : Runtime → Query → Fallible Query
  optimize_query rt (query ctes distinct items from joins sel groups having order limit) = do
    ctes' ← optimize_ctes rt ctes
    items' ← optimize_items rt items
    from' ← optimize_from rt from
    joins' ← optimize_joins rt joins
    sel' ← fold_option rt sel
    groups' ← fold_exprs rt groups
    having' ← fold_option rt having
    order' ← optimize_order rt order
    ok (query ctes' distinct items' from' joins' sel' groups' having' order' limit)

  pub optimize_ctes : Runtime → Ctes → Fallible Ctes
  optimize_ctes rt no_ctes = ok no_ctes
  optimize_ctes rt (cons_cte name columns q rest) = do
    q' ← optimize_query rt q
    rest' ← optimize_ctes rt rest
    ok (cons_cte name columns q' rest')

  pub optimize_items : Runtime → SelectItems → Fallible SelectItems
  optimize_items rt no_items = ok no_items
  optimize_items rt (cons_wildcard t rest) = do
    rest' ← optimize_items rt rest
    ok (cons_wildcard t rest')
  optimize_items rt (cons_item e alias rest) = do
    e' ← fold_expr rt e
    rest' ← optimize_items rt rest
    ok (cons_item e' alias rest')

  pub optimize_source : Runtime → TableSource → Fallible TableSource
  optimize_source rt (table name alias) = ok (table name alias)
  optimize_source rt (derived q alias) = do q' ← optimize_query rt q; ok (derived q' alias)

  pub optimize_from : Runtime → OptSource → Fallible OptSource
  optimize_from rt no_source = ok no_source
  optimize_from rt (some_source s) = do s' ← optimize_source rt s; ok (some_source s')

  pub optimize_joins : Runtime → Joins → Fallible Joins
  optimize_joins rt no_joins = ok no_joins
  optimize_joins rt (cons_join kind s on rest) = do
    s' ← optimize_source rt s
    on' ← fold_option rt on
    rest' ← optimize_joins rt rest
    ok (cons_join kind s' on' rest')

  pub optimize_order : Runtime → OrderBys → Fallible OrderBys
  optimize_order rt no_order = ok no_order
  optimize_order rt (cons_order e descending rest) = do
    e' ← fold_expr rt e
    rest' ← optimize_order rt rest
    ok (cons_order e' descending rest')
