-- ===== src/Select/Execute/Fuel.antt =====
-- src/sql/executor.rs: `execute_query` comes to an end.
use mathlib.Core.Path.{fun_ext}
use rusty_db.Prelude.{
  ℕ, zero, suc, ◌+◌, ◌≤◌, Bool, true, false, ◌&&◌, ◌||◌, not, Option, none, ok, ◌≡◌, refl, ap, ◌∙◌,
  arith, bind-agree,
}
use rusty_db.Prelude.Keyed.{put}
use rusty_db.Sql.Number.{Runtime}
use rusty_db.Sql.Expr.{
  Expr, Exprs, OptExpr, Query, query, Ctes, no_ctes, cons_cte, no_expr, some_expr, SelectItems,
  OptSource, no_source, some_source, TableSource, table, derived, Joins, no_joins, cons_join,
  OrderBys,
}
use rusty_db.Sql.Operators.{Relation, Evaluated}
use rusty_db.Table.Keys.{keyed_by_text}
use rusty_db.Table.Bloom.{IndexRuntime}
use rusty_db.Table.Scan.{select_rows}
use rusty_db.Table.Validate.{Tables}
use rusty_db.Table.Change.{selection_of}
use rusty_db.Select.Project.{Printing, item_has_aggregate, is_no_exprs}
use rusty_db.Select.Execute.{
  CteMap, having_aggregate, is_no_order, limit_rows, extend_ctes, source_relation, from_source,
  join_all, filter_rows, ordered_before, order_if, project_by, distinct_if, run_query,
  execute_query,
}
use rusty_db.Select.Execute.Count.{
  in_exprs, in_option, in_query, in_ctes, in_items, in_table, in_source, in_joins, in_orders,
}
use rusty_db.Select.Execute.Expressions.{eval_expr-agree}
use rusty_db.Select.Execute.Rows.{join_relations-agree, project_query-agree, aggregate_query-agree}
use rusty_db.Select.Execute.Sorting.{sort_rows-agree}

module _ (ir : IndexRuntime) (rt : Runtime) (pr : Printing) (tables : Tables) where
  module _ (f g : CteMap → Query → Evaluated Relation) (n : ℕ)
      (agree : (ctes : CteMap) (q : Query) → in_query q ≤ n → f ctes q ≡ g ctes q) where
    extend_ctes-agree :
        (new : Ctes) (ctes : CteMap)
        → in_ctes new ≤ n
        → extend_ctes ir rt pr tables f new ctes ≡ extend_ctes ir rt pr tables g new ctes
    unfolding extend_ctes in_query
    extend_ctes-agree no_ctes ctes h = refl
    extend_ctes-agree (cons_cte name names q rest) ctes h =
        bind-agree (agree ctes q (omega arith)) (λ r.
          bind-agree refl (λ named. extend_ctes-agree rest (put name named ctes) (omega arith)))

    source_relation-agree :
        (ctes : CteMap) (s : TableSource) (selection : Option Expr)
        → in_table s ≤ n
        → source_relation ir rt pr tables f ctes s selection
          ≡ source_relation ir rt pr tables g ctes s selection
    unfolding source_relation in_table
    source_relation-agree ctes (table name alias) selection h = refl
    source_relation-agree ctes (derived q alias) selection h =
        bind-agree (agree ctes q h) (λ r. refl)

    from_source-agree :
        (ctes : CteMap) (s : OptSource) (selection : Option Expr)
        → in_source s ≤ n
        → from_source ir rt pr tables f ctes s selection
          ≡ from_source ir rt pr tables g ctes s selection
    unfolding in_source
    from_source-agree ctes no_source selection h = refl
    from_source-agree ctes (some_source s) selection h = source_relation-agree ctes s selection h

    join_all-agree :
        (ctes : CteMap) (joins : Joins) (left : Relation)
        → in_joins joins ≤ n
        → join_all ir rt pr tables f ctes joins left ≡ join_all ir rt pr tables g ctes joins left
    unfolding join_all in_joins
    join_all-agree ctes no_joins left h = refl
    join_all-agree ctes (cons_join kind s condition rest) left h =
        bind-agree (source_relation-agree ctes s none (omega arith)) (λ right.
          bind-agree
            (join_relations-agree rt pr (f ctes) (g ctes) n (agree ctes) kind condition left right
              (omega arith))
            (λ joined. join_all-agree ctes rest joined (omega arith)))

    filter_rows-agree :
        (ctes : CteMap) (selection : OptExpr) (r : Relation)
        → in_option selection ≤ n
        → filter_rows ir rt pr tables f ctes selection r
          ≡ filter_rows ir rt pr tables g ctes selection r
    unfolding filter_rows in_option
    filter_rows-agree ctes no_expr r h = refl
    filter_rows-agree ctes (some_expr e) r h =
        bind-agree
          (ap (λ k. select_rows k r.rows)
            (fun_ext
              (λ row. eval_expr-agree rt (f ctes) (g ctes) n (agree ctes) r.columns row none e h)))
          (λ rows. refl)

    order_if-agree :
        (b : Bool) (ctes : CteMap) (orders : OrderBys) (r : Relation)
        → in_orders orders ≤ n
        → order_if ir rt pr tables f b ctes orders r ≡ order_if ir rt pr tables g b ctes orders r
    order_if-agree false ctes orders r h = refl
    order_if-agree true ctes orders r h =
        ap (λ rows. record r { rows = rows })
          (sort_rows-agree rt (f ctes) (g ctes) n (agree ctes) r.columns orders r.rows h)

    project_by-agree :
        (b : Bool) (ctes : CteMap) (items : SelectItems) (keys : Exprs) (having : OptExpr)
        (r : Relation)
        → in_items items + in_exprs keys + in_option having ≤ n
        → project_by ir rt pr tables f b ctes items keys having r
          ≡ project_by ir rt pr tables g b ctes items keys having r
    project_by-agree true ctes items keys having r h =
        aggregate_query-agree rt pr (f ctes) (g ctes) n (agree ctes) r.columns items keys having
          r.rows h
    project_by-agree false ctes items keys having r h =
        project_query-agree rt pr (f ctes) (g ctes) n (agree ctes) r.columns items r.rows
          (omega arith)

    pub run_query-agree :
        (ctes : CteMap) (q : Query)
        → in_query q ≤ suc n
        → run_query ir rt pr tables f ctes q ≡ run_query ir rt pr tables g ctes q
    unfolding run_query in_query
    run_query-agree inherited
          (query ctes distinct items from joins selection group_by having order_by limit) h =
        bind-agree (extend_ctes-agree ctes inherited (omega arith)) (λ known.
          bind-agree (from_source-agree known from (selection_of selection) (omega arith)) (λ first.
            bind-agree (join_all-agree known joins first (omega arith)) (λ joined.
              bind-agree (filter_rows-agree known selection joined (omega arith)) (λ filtered.
                let orders_fit : in_orders order_by ≤ n = omega arith in
                let aggregates : Bool =
                  not (is_no_exprs group_by)
                  || item_has_aggregate items
                  || having_aggregate having in
                let early : Bool = ordered_before aggregates order_by filtered in
                let sorted : Relation = order_if ir rt pr tables f early known order_by filtered in
                bind-agree
                  (project_by-agree aggregates known items group_by having sorted (omega arith)
                    ∙ ap (project_by ir rt pr tables g aggregates known items group_by having)
                        (order_if-agree early known order_by filtered orders_fit))
                  (λ projected.
                    ap {A = Relation} (λ r. ok (record r { rows = limit_rows limit r.rows }))
                      (order_if-agree (not (is_no_order order_by) && not early) known order_by
                        (distinct_if pr distinct projected) orders_fit))))))

  no_zero : (q : Query) → ¬ (in_query q ≤ 0)
  unfolding in_query
  no_zero (query ctes distinct items from joins selection keys having orders limit) h = omega arith

  execute_query-agree :
      (bound n m : ℕ) (stop other : Evaluated Relation) (ctes : CteMap) (q : Query)
      → bound ≤ n
      → bound ≤ m
      → in_query q ≤ bound
      → execute_query ir rt pr tables stop n ctes q ≡ execute_query ir rt pr tables other m ctes q
  unfolding execute_query
  execute_query-agree zero n m stop other ctes q h k l = absurd (no_zero q l)
  execute_query-agree (suc bound) zero m stop other ctes q h k l = absurd (omega arith)
  execute_query-agree (suc bound) (suc n) zero stop other ctes q h k l = absurd (omega arith)
  execute_query-agree (suc bound) (suc n) (suc m) stop other ctes q h k l =
      run_query-agree (execute_query ir rt pr tables stop n) (execute_query ir rt pr tables other m)
        bound
        (λ inner p fits.
          execute_query-agree bound n m stop other inner p (omega arith) (omega arith) fits)
        ctes q l

  -- The execution of a query with fuel for at least the number of queries in it has the same
  -- result whatever the fuel and whatever is returned at fuel zero: it never runs out of fuel,
  -- so the recursion of the code through CTEs, derived tables and subqueries ends.
  pub execute_query_terminates :
      (n m : ℕ) (stop other : Evaluated Relation) (ctes : CteMap) (q : Query)
      → in_query q ≤ n
      → in_query q ≤ m
      → execute_query ir rt pr tables stop n ctes q ≡ execute_query ir rt pr tables other m ctes q
  execute_query_terminates n m stop other ctes q h k =
      execute_query-agree (in_query q) n m stop other ctes q h k (omega arith)
