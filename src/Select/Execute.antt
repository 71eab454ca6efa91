-- ===== src/Select/Execute.antt =====
-- src/sql/executor.rs: `execute_query`.
-- A query runs those within it with one unit of fuel less; `stop` is what no fuel gives. The depth of
-- a query is fuel enough.
pub mod Count
pub mod Expressions
pub mod Rows
pub mod Sorting
pub mod Fuel
use rusty_db.Prelude.{
  ℕ, zero, suc, Bool, true, false, ◌||◌, ◌&&◌, not, Option, none, some, List, [], ◌∷◌, ◌++◌, map,
  take, ◌==◌, length, if◌then◌else◌, ok, err, ◌>>=◌,
}
use rusty_db.Prelude.Keyed.{find, put}
use rusty_db.Sql.Number.{Runtime}
use rusty_db.Sql.Types.{Text}
use rusty_db.Sql.Expr.{
  Expr, Exprs, OptExpr, Query, query, Ctes, no_ctes, cons_cte, SelectItems, OptSource, no_source,
  some_source, TableSource, table, derived, Joins, no_joins, cons_join, OrderBys, no_order,
  cons_order, no_expr, some_expr,
}
use rusty_db.Sql.Operators.{BoundColumn, Relation, Evaluated, cte_columns, missing_source}
use rusty_db.Sql.Eval.{eval_expr}
use rusty_db.Table.Keys.{keyed_by_text}
use rusty_db.Table.Bloom.{IndexRuntime}
use rusty_db.Table.Store.{Row}
use rusty_db.Table.Scan.{relation_from_table, select_rows}
use rusty_db.Table.Validate.{Tables}
use rusty_db.Table.Change.{selection_of}
use rusty_db.Select.Join.{join_relations}
use rusty_db.Select.Project.{
  Printing, distinct_rows, expr_has_aggregate, item_has_aggregate, is_no_exprs, project_query,
  aggregate_query,
}
use rusty_db.Select.Order.{order_resolves, sort_rows}

abbrev pub CteMap : Type 0
CteMap = List (Text × Relation)

abbrev pub rename_table : Text → Relation → Relation
rename_table name r = record r {
  columns = map (λ (c : BoundColumn). record c { table = name }) r.columns;
}

-- `zip`: columns without a new name keep theirs.
unfoldable pub rename_columns : List Text → List BoundColumn → List BoundColumn
rename_columns [] columns = columns
rename_columns (_ ∷ _) [] = []
rename_columns (name ∷ names) (c ∷ columns) =
    record c { name = name } ∷ rename_columns names columns

abbrev pub name_cte : Text → List Text → Relation → Evaluated Relation
name_cte name [] r = ok (rename_table name r)
name_cte name (n ∷ names) r =
    if length (n ∷ names) == length r.columns
    then ok (rename_table name (record r { columns = rename_columns (n ∷ names) r.columns }))
    else err (cte_columns name)

abbrev pub or_name : Text → Option Text → Text
or_name name none = name
or_name name (some alias) = alias

abbrev pub having_aggregate : OptExpr → Bool
having_aggregate no_expr = false
having_aggregate (some_expr e) = expr_has_aggregate e

abbrev pub is_no_order : OrderBys → Bool
is_no_order no_order = true
is_no_order (cons_order _ _ _) = false

abbrev pub limit_rows : Option ℕ → List Row → List Row
limit_rows none rows = rows
limit_rows (some n) rows = take n rows

-- The rows are ordered before the projection when all of ORDER BY is about their columns.
abbrev pub ordered_before : Bool → OrderBys → Relation → Bool
ordered_before aggregates orders r =
    not aggregates && not (is_no_order orders) && order_resolves r.columns orders

abbrev pub distinct_if : Printing → Bool → Relation → Relation
distinct_if pr false r = r
distinct_if pr true r = record r { rows = distinct_rows pr [] r.rows }

module _ (ir : IndexRuntime) (rt : Runtime) (pr : Printing) (tables : Tables) where
  -- `visit` runs a query within this one.
  module _ (visit : CteMap → Query → Evaluated Relation) where
    unfoldable pub extend_ctes : Ctes → CteMap → Evaluated CteMap
    unfolding rename_columns put
    extend_ctes no_ctes ctes = ok ctes
    extend_ctes (cons_cte name names q rest) ctes = do
      relation ← visit ctes q
      named ← name_cte name names relation
      extend_ctes rest (put name named ctes)

    abbrev pub from_table : Text → Text → Option Expr → Evaluated Relation
    from_table name visible selection = elim (find name tables) [
      | none ↦ err (missing_source name)
      | some t ↦ ok (relation_from_table ir t visible selection)
    ]

    unfoldable pub source_relation : CteMap → TableSource → Option Expr → Evaluated Relation
    unfolding find relation_from_table
    source_relation ctes (table name alias) selection = elim (find name ctes) [
      | some r ↦ ok (rename_table (or_name name alias) r)
      | none ↦ from_table name (or_name name alias) selection
    ]
    source_relation ctes (derived q alias) selection = do
      relation ← visit ctes q
      ok (rename_table alias relation)

    abbrev pub from_source : CteMap → OptSource → Option Expr → Evaluated Relation
    from_source ctes no_source selection = ok (record { columns = []; rows = [] ∷ [] })
    from_source ctes (some_source s) selection = source_relation ctes s selection

    unfoldable pub join_all : CteMap → Joins → Relation → Evaluated Relation
    unfolding source_relation join_relations
    join_all ctes no_joins left = ok left
    join_all ctes (cons_join kind s condition rest) left = do
      right ← source_relation ctes s none
      joined ← join_relations rt (visit ctes) kind condition left right
      join_all ctes rest joined

    unfoldable pub filter_rows : CteMap → OptExpr → Relation → Evaluated Relation
    unfolding select_rows eval_expr
    filter_rows ctes no_expr r = ok r
    filter_rows ctes (some_expr e) r = do
      rows ← select_rows (λ row. eval_expr rt (visit ctes) r.columns row none e) r.rows
      ok (record r { rows = rows })

    abbrev pub order_if : Bool → CteMap → OrderBys → Relation → Relation
    order_if false ctes orders r = r
    order_if true ctes orders r = record r {
      rows = sort_rows rt (visit ctes) r.columns orders r.rows;
    }

    abbrev pub project_by :
        Bool → CteMap → SelectItems → Exprs → OptExpr → Relation → Evaluated Relation
    project_by true ctes items keys having r =
        aggregate_query rt pr (visit ctes) r.columns items keys having r.rows
    project_by false ctes items keys having r =
        project_query rt pr (visit ctes) r.columns items r.rows

    unfoldable pub run_query : CteMap → Query → Evaluated Relation
    unfolding extend_ctes source_relation join_all filter_rows item_has_aggregate expr_has_aggregate
        aggregate_query project_query order_resolves sort_rows distinct_rows
    run_query inherited
          (query ctes distinct items source joins selection group_by having order_by limit) =
        do
          known ← extend_ctes ctes inherited
          first ← from_source known source (selection_of selection)
          joined ← join_all known joins first
          filtered ← filter_rows known selection joined
          let aggregates =
              not (is_no_exprs group_by) || item_has_aggregate items || having_aggregate having
          let early = ordered_before aggregates order_by filtered
          let sorted = order_if early known order_by filtered
          projected ← project_by aggregates known items group_by having sorted
          let kept = distinct_if pr distinct projected
          let final = order_if (not (is_no_order order_by) && not early) known order_by kept
          ok (record final { rows = limit_rows limit final.rows })

  unfoldable pub execute_query : Evaluated Relation → ℕ → CteMap → Query → Evaluated Relation
  unfolding run_query
  execute_query stop zero ctes q = stop
  execute_query stop (suc fuel) ctes q = run_query (execute_query stop fuel) ctes q
