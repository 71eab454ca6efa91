-- ===== src/Select/Execute/Rows.antt =====
-- src/sql/executor.rs: joins, projections, groups and orders ask for the queries in them only.
use mathlib.Core.Path.{fun_ext}
use rusty_db.Prelude.{
  ℕ, ◌+◌, ◌≤◌, Bool, true, false, Option, none, some, List, [], ◌∷◌, ◌++◌, ◌≡◌, refl, ap, arith,
  bind-agree,
}
use rusty_db.Sql.Number.{Runtime}
use rusty_db.Sql.Types.{Text}
use rusty_db.Sql.Expr.{
  Exprs, OptExpr, Query, no_expr, some_expr, SelectItems, no_items, cons_wildcard, cons_item,
  JoinType,
}
use rusty_db.Sql.Operators.{BoundColumn, Relation, Evaluated}
use rusty_db.Table.Store.{Row}
use rusty_db.Select.Join.{
  join_with, pair_matches, meets_by_condition, nested_join, join_by, join_indices, join_relations,
}
use rusty_db.Select.Project.{
  Printing, project_row, project_rows, project_query, group_rows, having_holds, project_if,
  project_groups, aggregate_query, add_to_group, row_key, at_least_one, is_no_exprs,
}
use rusty_db.Select.Execute.Count.{in_expr, in_exprs, in_option, in_query, in_items}
use rusty_db.Select.Execute.Expressions.{eval_expr-agree, eval_exprs-agree}

module _ (rt : Runtime) (pr : Printing) (f g : Query → Evaluated Relation) (n : ℕ)
    (agree : (q : Query) → in_query q ≤ n → f q ≡ g q) where
  pair_matches-agree :
      (columns : List BoundColumn) (condition : OptExpr) (row : Row)
      → in_option condition ≤ n
      → pair_matches rt f columns condition row ≡ pair_matches rt g columns condition row
  unfolding pair_matches in_expr
  pair_matches-agree columns no_expr row h = refl
  pair_matches-agree columns (some_expr e) row h =
      rw (eval_expr-agree rt f g n agree columns row none e h)

  meets_by_condition-agree :
      (columns : List BoundColumn) (condition : OptExpr) (rows : List Row) (row : Row)
      → in_option condition ≤ n
      → meets_by_condition rt f columns condition rows row
        ≡ meets_by_condition rt g columns condition rows row
  unfolding meets_by_condition
  meets_by_condition-agree columns condition [] row h = refl
  meets_by_condition-agree columns condition (other ∷ rows) row h = rw (
    pair_matches-agree columns condition (row ++ other) h,
    meets_by_condition-agree columns condition rows row h,
  )

  join_by-agree :
      (kind : JoinType) (condition : OptExpr) (left right : Relation) (chosen : Option (ℕ × ℕ))
      → in_option condition ≤ n
      → join_by rt f kind condition left right chosen
        ≡ join_by rt g kind condition left right chosen
  unfolding join_by nested_join
  join_by-agree kind condition left right (some (i, j)) h = refl
  join_by-agree kind condition left right none h = ap (join_with kind left right) (
      fun_ext (λ row.
        meets_by_condition-agree (left.columns ++ right.columns) condition right.rows row h))

  pub join_relations-agree :
      (kind : JoinType) (condition : OptExpr) (left right : Relation)
      → in_option condition ≤ n
      → join_relations rt f kind condition left right
        ≡ join_relations rt g kind condition left right
  unfolding join_relations
  join_relations-agree kind condition left right h =
      join_by-agree kind condition left right (join_indices condition left right) h

  module _ (source : List BoundColumn) where
    project_row-agree :
        (items : SelectItems) (row : Row) (group : Option (List Row))
        → in_items items ≤ n
        → project_row rt pr f source items row group ≡ project_row rt pr g source items row group
    unfolding project_row in_items
    project_row-agree no_items row group h = refl
    project_row-agree (cons_wildcard q items) row group h = rw (project_row-agree items row group h)
    project_row-agree (cons_item e alias items) row group h = rw (
      eval_expr-agree rt f g n agree source row group e (omega arith),
      project_row-agree items row group (omega arith),
    )

    project_rows-agree :
        (items : SelectItems) (rows : List Row)
        → in_items items ≤ n
        → project_rows rt pr f source items rows ≡ project_rows rt pr g source items rows
    unfolding project_rows
    project_rows-agree items [] h = refl
    project_rows-agree items (row ∷ rows) h =
        rw (project_row-agree items row none h, project_rows-agree items rows h)

    pub project_query-agree :
        (items : SelectItems) (rows : List Row)
        → in_items items ≤ n
        → project_query rt pr f source items rows ≡ project_query rt pr g source items rows
    unfolding project_query
    project_query-agree items rows h = rw (project_rows-agree items rows h)

    group_rows-agree :
        (keys : Exprs) (rows : List Row) (groups : List (Text × List Row))
        → in_exprs keys ≤ n
        → group_rows rt pr f source keys rows groups ≡ group_rows rt pr g source keys rows groups
    unfolding group_rows
    group_rows-agree keys [] groups h = refl
    group_rows-agree keys (row ∷ rows) groups h =
        bind-agree (eval_exprs-agree rt f g n agree source row none keys h)
          (λ vs. group_rows-agree keys rows (add_to_group (row_key pr vs) row groups) h)

    having_holds-agree :
        (having : OptExpr) (row : Row) (group : List Row)
        → in_option having ≤ n
        → having_holds rt pr f source having row group
          ≡ having_holds rt pr g source having row group
    unfolding having_holds in_option
    having_holds-agree no_expr row group h = refl
    having_holds-agree (some_expr e) row group h =
        rw (eval_expr-agree rt f g n agree source row (some group) e h)

    project_if-agree :
        (kept : Bool) (items : SelectItems) (row : Row) (group : List Row)
        → in_items items ≤ n
        → project_if rt pr f source kept items row group
          ≡ project_if rt pr g source kept items row group
    project_if-agree false items row group h = refl
    project_if-agree true items row group h = rw (project_row-agree items row (some group) h)

    project_groups-agree :
        (items : SelectItems) (having : OptExpr) (groups : List (Text × List Row))
        → in_items items + in_option having ≤ n
        → project_groups rt pr f source items having groups
          ≡ project_groups rt pr g source items having groups
    unfolding project_groups
    project_groups-agree items having [] h = refl
    project_groups-agree items having ((key, group) ∷ groups) h =
        bind-agree (having_holds-agree having _ group (omega arith)) (λ kept.
          bind-agree (project_if-agree kept items _ group (omega arith))
            (λ out. bind-agree (project_groups-agree items having groups h) (λ rest. refl)))

    pub aggregate_query-agree :
        (items : SelectItems) (keys : Exprs) (having : OptExpr) (rows : List Row)
        → in_items items + in_exprs keys + in_option having ≤ n
        → aggregate_query rt pr f source items keys having rows
          ≡ aggregate_query rt pr g source items keys having rows
    unfolding aggregate_query
    aggregate_query-agree items keys having rows h =
        bind-agree (group_rows-agree keys rows [] (omega arith)) (λ groups.
          bind-agree refl (λ columns.
            bind-agree
              (project_groups-agree items having (at_least_one (is_no_exprs keys) groups)
                (omega arith))
              (λ out. refl)))
