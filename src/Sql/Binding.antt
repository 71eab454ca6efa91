-- ===== src/Sql/Binding.antt =====
-- src/sql/parser.rs: the leaves of a bound expression or query, and of one that is not.
use rusty_db.Prelude.{
  ℕ, zero, suc, max, Option, none, some, List, [], ◌∷◌, ◌≤◌, map, length, get_elem?, ◌≡◌, refl,
  arith,
}
use rusty_db.Sql.Types.{Value}
use rusty_db.Sql.Expr.{
  Expr, Exprs, OptExpr, Query, Ctes, SelectItems, TableSource, OptSource, Joins, OrderBys, column,
  literal, parameter, incoming, binary, unary, is_null, like, in_list, in_subquery, exists,
  scalar_subquery, aggregate, no_exprs, cons_expr, no_expr, some_expr, query, no_ctes, cons_cte,
  no_items, cons_wildcard, cons_item, table, derived, no_source, some_source, no_joins, cons_join,
  no_order, cons_order,
}
use rusty_db.Sql.Parameters.{
  bound_value, count_expr, count_exprs, count_opt, count_query, count_ctes, count_items,
  count_source, count_from, count_joins, count_order, bind_expr, bind_exprs, bind_opt, bind_query,
  bind_ctes, bind_items, bind_source, bind_from, bind_joins, bind_order,
}
use rusty_db.Sql.Leaves.{
  expr_leaves, exprs_leaves, opt_leaves, query_leaves, ctes_leaves, items_leaves, source_leaves,
  from_leaves, joins_leaves, order_leaves, place, parameters_below,
}

get_elem?-some :
    (vs : List Value) (i : ℕ) → suc i ≤ length vs → (v : Value) × (get_elem? vs i ≡ some v)
get_elem?-some [] i h = ground arith
get_elem?-some (v ∷ vs) zero h = (v, refl)
get_elem?-some (v ∷ vs) (suc i) h = get_elem?-some vs i (omega arith)

bound_leaf :
    (o : Option Value) (i : ℕ) (rest : List Expr)
    → expr_leaves (bound_value o i) rest ≡ bound_value o i ∷ rest
unfolding expr_leaves
bound_leaf none i rest = refl
bound_leaf (some v) i rest = refl

-- With a value for each parameter, no leaf is a parameter afterwards.
pub parameters_below-place :
    (vs : List Value) (es : List Expr)
    → parameters_below es ≤ length vs
    → parameters_below (map (place vs) es) ≡ 0
unfolding parameters_below place
parameters_below-place vs [] h = refl
parameters_below-place vs (parameter i ∷ es) h =
    let (v, e) = get_elem?-some vs i (omega arith) in
    rw e (parameters_below-place vs es (omega arith))
parameters_below-place vs (_ ∷ es) h = parameters_below-place vs es h

module _ (vs : List Value) where
  mutual
    unfolding expr_leaves bind_expr place

    pub expr_leaves-bind :
        (x : Expr) (rest : List Expr)
        → expr_leaves (bind_expr vs x) (map (place vs) rest) ≡ map (place vs) (expr_leaves x rest)
    expr_leaves-bind (column t n) rest = refl
    expr_leaves-bind (literal v) rest = refl
    expr_leaves-bind (parameter i) rest = bound_leaf (get_elem? vs i) i (map (place vs) rest)
    expr_leaves-bind (incoming n) rest = refl
    expr_leaves-bind (binary l op r) rest =
        rw (expr_leaves-bind r rest, expr_leaves-bind l (expr_leaves r rest))
    expr_leaves-bind (unary op a) rest = expr_leaves-bind a rest
    expr_leaves-bind (is_null a negated) rest = expr_leaves-bind a rest
    expr_leaves-bind (like a p negated) rest =
        rw (expr_leaves-bind p rest, expr_leaves-bind a (expr_leaves p rest))
    expr_leaves-bind (in_list a es negated) rest =
        rw (exprs_leaves-bind es rest, expr_leaves-bind a (exprs_leaves es rest))
    expr_leaves-bind (in_subquery a q negated) rest =
        rw (query_leaves-bind q rest, expr_leaves-bind a (query_leaves q rest))
    expr_leaves-bind (exists q negated) rest = query_leaves-bind q rest
    expr_leaves-bind (scalar_subquery q) rest = query_leaves-bind q rest
    expr_leaves-bind (aggregate f o distinct) rest = opt_leaves-bind o rest

    pub exprs_leaves-bind :
        (x : Exprs) (rest : List Expr)
        → exprs_leaves (bind_exprs vs x) (map (place vs) rest)
          ≡ map (place vs) (exprs_leaves x rest)
    exprs_leaves-bind no_exprs rest = refl
    exprs_leaves-bind (cons_expr a es) rest =
        rw (exprs_leaves-bind es rest, expr_leaves-bind a (exprs_leaves es rest))

    pub opt_leaves-bind :
        (x : OptExpr) (rest : List Expr)
        → opt_leaves (bind_opt vs x) (map (place vs) rest) ≡ map (place vs) (opt_leaves x rest)
    opt_leaves-bind no_expr rest = refl
    opt_leaves-bind (some_expr a) rest = expr_leaves-bind a rest

    pub query_leaves-bind :
        (x : Query) (rest : List Expr)
        → query_leaves (bind_query vs x) (map (place vs) rest)
          ≡ map (place vs) (query_leaves x rest)
    query_leaves-bind (query ws distinct items s js sel groups having os limit) rest = rw (
      order_leaves-bind os rest,
      opt_leaves-bind having (order_leaves os rest),
      exprs_leaves-bind groups (opt_leaves having (order_leaves os rest)),
      opt_leaves-bind sel (exprs_leaves groups (opt_leaves having (order_leaves os rest))),
      joins_leaves-bind js
          (opt_leaves sel (exprs_leaves groups (opt_leaves having (order_leaves os rest)))),
      from_leaves-bind s (
          joins_leaves js
            (opt_leaves sel (exprs_leaves groups (opt_leaves having (order_leaves os rest))))),
      items_leaves-bind items (
          from_leaves s (
            joins_leaves js
              (opt_leaves sel (exprs_leaves groups (opt_leaves having (order_leaves os rest)))))),
      ctes_leaves-bind ws (
          items_leaves items (
            from_leaves s (
              joins_leaves js (
                opt_leaves sel (exprs_leaves groups (opt_leaves having (order_leaves os rest))))))),
    )

    pub ctes_leaves-bind :
        (x : Ctes) (rest : List Expr)
        → ctes_leaves (bind_ctes vs x) (map (place vs) rest) ≡ map (place vs) (ctes_leaves x rest)
    ctes_leaves-bind no_ctes rest = refl
    ctes_leaves-bind (cons_cte name columns q ws) rest =
        rw (ctes_leaves-bind ws rest, query_leaves-bind q (ctes_leaves ws rest))

    pub items_leaves-bind :
        (x : SelectItems) (rest : List Expr)
        → items_leaves (bind_items vs x) (map (place vs) rest)
          ≡ map (place vs) (items_leaves x rest)
    items_leaves-bind no_items rest = refl
    items_leaves-bind (cons_wildcard t more) rest = items_leaves-bind more rest
    items_leaves-bind (cons_item a alias more) rest =
        rw (items_leaves-bind more rest, expr_leaves-bind a (items_leaves more rest))

    pub source_leaves-bind :
        (x : TableSource) (rest : List Expr)
        → source_leaves (bind_source vs x) (map (place vs) rest)
          ≡ map (place vs) (source_leaves x rest)
    source_leaves-bind (table name alias) rest = refl
    source_leaves-bind (derived q alias) rest = query_leaves-bind q rest

    pub from_leaves-bind :
        (x : OptSource) (rest : List Expr)
        → from_leaves (bind_from vs x) (map (place vs) rest) ≡ map (place vs) (from_leaves x rest)
    from_leaves-bind no_source rest = refl
    from_leaves-bind (some_source s) rest = source_leaves-bind s rest

    pub joins_leaves-bind :
        (x : Joins) (rest : List Expr)
        → joins_leaves (bind_joins vs x) (map (place vs) rest)
          ≡ map (place vs) (joins_leaves x rest)
    joins_leaves-bind no_joins rest = refl
    joins_leaves-bind (cons_join kind s on more) rest = rw (
      joins_leaves-bind more rest,
      opt_leaves-bind on (joins_leaves more rest),
      source_leaves-bind s (opt_leaves on (joins_leaves more rest)),
    )

    pub order_leaves-bind :
        (x : OrderBys) (rest : List Expr)
        → order_leaves (bind_order vs x) (map (place vs) rest)
          ≡ map (place vs) (order_leaves x rest)
    order_leaves-bind no_order rest = refl
    order_leaves-bind (cons_order a descending more) rest =
        rw (order_leaves-bind more rest, expr_leaves-bind a (order_leaves more rest))

max_step : {p q : ℕ} (a b r : ℕ) → p ≡ max a q → q ≡ max b r → p ≡ max (max a b) r
max_step a b r h k = omega arith

mutual
  unfolding expr_leaves count_expr parameters_below

  pub expr_leaves_below :
      (x : Expr) (rest : List Expr)
      → parameters_below (expr_leaves x rest) ≡ max (count_expr x) (parameters_below rest)
  expr_leaves_below (column t n) rest = omega arith
  expr_leaves_below (literal v) rest = omega arith
  expr_leaves_below (parameter i) rest = omega arith
  expr_leaves_below (incoming n) rest = omega arith
  expr_leaves_below (binary l op r) rest =
      omega (arith, expr_leaves_below l (expr_leaves r rest), expr_leaves_below r rest)
  expr_leaves_below (unary op a) rest = omega (arith, expr_leaves_below a rest)
  expr_leaves_below (is_null a negated) rest = omega (arith, expr_leaves_below a rest)
  expr_leaves_below (like a p negated) rest =
      omega (arith, expr_leaves_below a (expr_leaves p rest), expr_leaves_below p rest)
  expr_leaves_below (in_list a es negated) rest =
      omega (arith, expr_leaves_below a (exprs_leaves es rest), exprs_leaves_below es rest)
  expr_leaves_below (in_subquery a q negated) rest =
      omega (arith, expr_leaves_below a (query_leaves q rest), query_leaves_below q rest)
  expr_leaves_below (exists q negated) rest = omega (arith, query_leaves_below q rest)
  expr_leaves_below (scalar_subquery q) rest = omega (arith, query_leaves_below q rest)
  expr_leaves_below (aggregate f o distinct) rest = omega (arith, opt_leaves_below o rest)

  pub exprs_leaves_below :
      (x : Exprs) (rest : List Expr)
      → parameters_below (exprs_leaves x rest) ≡ max (count_exprs x) (parameters_below rest)
  exprs_leaves_below no_exprs rest = omega arith
  exprs_leaves_below (cons_expr a es) rest =
      omega (arith, expr_leaves_below a (exprs_leaves es rest), exprs_leaves_below es rest)

  pub opt_leaves_below :
      (x : OptExpr) (rest : List Expr)
      → parameters_below (opt_leaves x rest) ≡ max (count_opt x) (parameters_below rest)
  opt_leaves_below no_expr rest = omega arith
  opt_leaves_below (some_expr a) rest = omega (arith, expr_leaves_below a rest)

  pub query_leaves_below :
      (x : Query) (rest : List Expr)
      → parameters_below (query_leaves x rest) ≡ max (count_query x) (parameters_below rest)
  query_leaves_below (query ws distinct items s js sel groups having os limit) rest =
      max_step _ _ _
        (ctes_leaves_below ws (
          items_leaves items (
            from_leaves s (
              joins_leaves js (
                opt_leaves sel (exprs_leaves groups (opt_leaves having (order_leaves os rest))))))))
        (max_step _ _ _
          (items_leaves_below items (
            from_leaves s (
              joins_leaves js
                (opt_leaves sel (exprs_leaves groups (opt_leaves having (order_leaves os rest)))))))
          (max_step _ _ _
            (from_leaves_below s (
              joins_leaves js
                (opt_leaves sel (exprs_leaves groups (opt_leaves having (order_leaves os rest))))))
            (max_step _ _ _
              (joins_leaves_below js
                (opt_leaves sel (exprs_leaves groups (opt_leaves having (order_leaves os rest)))))
              (max_step _ _ _
                (opt_leaves_below sel
                  (exprs_leaves groups (opt_leaves having (order_leaves os rest))))
                (max_step _ _ _
                  (exprs_leaves_below groups (opt_leaves having (order_leaves os rest)))
                  (max_step _ _ _ (opt_leaves_below having (order_leaves os rest))
                    (order_leaves_below os rest)))))))

  pub ctes_leaves_below :
      (x : Ctes) (rest : List Expr)
      → parameters_below (ctes_leaves x rest) ≡ max (count_ctes x) (parameters_below rest)
  ctes_leaves_below no_ctes rest = omega arith
  ctes_leaves_below (cons_cte name columns q ws) rest =
      omega (arith, query_leaves_below q (ctes_leaves ws rest), ctes_leaves_below ws rest)

  pub items_leaves_below :
      (x : SelectItems) (rest : List Expr)
      → parameters_below (items_leaves x rest) ≡ max (count_items x) (parameters_below rest)
  items_leaves_below no_items rest = omega arith
  items_leaves_below (cons_wildcard t more) rest = omega (arith, items_leaves_below more rest)
  items_leaves_below (cons_item a alias more) rest =
      omega (arith, expr_leaves_below a (items_leaves more rest), items_leaves_below more rest)

  pub source_leaves_below :
      (x : TableSource) (rest : List Expr)
      → parameters_below (source_leaves x rest) ≡ max (count_source x) (parameters_below rest)
  source_leaves_below (table name alias) rest = omega arith
  source_leaves_below (derived q alias) rest = omega (arith, query_leaves_below q rest)

  pub from_leaves_below :
      (x : OptSource) (rest : List Expr)
      → parameters_below (from_leaves x rest) ≡ max (count_from x) (parameters_below rest)
  from_leaves_below no_source rest = omega arith
  from_leaves_below (some_source s) rest = omega (arith, source_leaves_below s rest)

  pub joins_leaves_below :
      (x : Joins) (rest : List Expr)
      → parameters_below (joins_leaves x rest) ≡ max (count_joins x) (parameters_below rest)
  joins_leaves_below no_joins rest = omega arith
  joins_leaves_below (cons_join kind s on more) rest = omega (
    arith,
    source_leaves_below s (opt_leaves on (joins_leaves more rest)),
    opt_leaves_below on (joins_leaves more rest),
    joins_leaves_below more rest,
  )

  pub order_leaves_below :
      (x : OrderBys) (rest : List Expr)
      → parameters_below (order_leaves x rest) ≡ max (count_order x) (parameters_below rest)
  order_leaves_below no_order rest = omega arith
  order_leaves_below (cons_order a descending more) rest =
      omega (arith, expr_leaves_below a (order_leaves more rest), order_leaves_below more rest)
