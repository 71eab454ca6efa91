-- ===== src/Select/Project.antt =====
-- src/sql/executor.rs: projection, grouping and DISTINCT.
-- The formats of numbers are those of the standard library, in `Printing`.
use Prim.Native.Nat.{Ordering}
use rusty_db.Prelude.{
  ℕ, suc, ◌+◌, Bool, true, false, ◌||◌, Option, none, some, List, [], ◌∷◌, ◌++◌, ltb, length,
  if◌then◌else◌, ok, err, ◌>>=◌,
}
use rusty_db.Prelude.Int.{ℤ, pos}
use rusty_db.Prelude.Keyed.{contains}
use rusty_db.Sql.Number.{Runtime}
use rusty_db.Sql.Types.{Text, Value, truth, compare_text}
use rusty_db.Sql.Expr.{
  Expr, Exprs, OptExpr, Query, SelectItems, AggregateFunction, column, aggregate, scalar_subquery,
  binary, unary, is_null, like, in_list, no_exprs, cons_expr, no_expr, some_expr, no_items,
  cons_wildcard, cons_item,
}
use rusty_db.Sql.Operators.{
  BoundColumn, Relation, Evaluated, eq_ignore_ascii_case, unknown_wildcard,
}
use rusty_db.Sql.Eval.{eval_expr, eval_exprs}
use rusty_db.Table.Keys.{keyed_by_text}
use rusty_db.Table.Store.{Row}
use rusty_db.Table.Scan.{is_true}
use rusty_db.Select.Join.{nulls, value_at}

pub record Printing : Type 0 where
  pub decimal : ℤ → Text
  -- 16 digits
  pub hex : ℕ → Text

-- `str::len`: the bytes of UTF-8
unfoldable pub utf8_length : Text → ℕ
utf8_length [] = 0
utf8_length (c ∷ t) =
    (if ltb c 0x80 then 1 else if ltb c 0x800 then 2 else if ltb c 0x10000 then 3 else 4)
    + utf8_length t

module _ (pr : Printing) where
  unfoldable pub value_key : Value → Text
  unfolding utf8_length
  value_key Value.null = b'n' ∷ []
  value_key (Value.boolean true) = b'b' ∷ b':' ∷ b't' ∷ b'r' ∷ b'u' ∷ b'e' ∷ []
  value_key (Value.boolean false) = b'b' ∷ b':' ∷ b'f' ∷ b'a' ∷ b'l' ∷ b's' ∷ b'e' ∷ []
  value_key (Value.integer n) = b'i' ∷ b':' ∷ pr.decimal n
  value_key (Value.float bits) = b'f' ∷ b':' ∷ pr.hex bits
  value_key (Value.text t) = b's' ∷ b':' ∷ (pr.decimal (pos (utf8_length t)) ++ (b':' ∷ t))

  -- The keys of the values, joined by the character 0x1f.
  unfoldable pub row_key : Row → Text
  unfolding value_key
  row_key [] = []
  row_key (v ∷ []) = value_key v
  row_key (v ∷ row) = value_key v ++ (0x1f ∷ row_key row)

  -- `retain(|row| seen.insert(row_key(row)))`
  unfoldable pub distinct_rows : List Text → List Row → List Row
  unfolding row_key
  distinct_rows seen [] = []
  distinct_rows seen (row ∷ rows) =
      let key = row_key row in
      let fresh = distinct_rows (key ∷ seen) rows in
      let rest = distinct_rows seen rows in if contains key seen then rest else row ∷ fresh

abbrev pub in_wildcard : Option Text → BoundColumn → Bool
in_wildcard none c = true
in_wildcard (some name) c = eq_ignore_ascii_case c.table name

unfoldable pub wildcard_columns : Option Text → List BoundColumn → List BoundColumn
unfolding eq_ignore_ascii_case
wildcard_columns q [] = []
wildcard_columns q (c ∷ columns) =
    let rest = wildcard_columns q columns in if in_wildcard q c then c ∷ rest else rest

abbrev pub some_columns : Option Text → List BoundColumn → Evaluated (List BoundColumn)
some_columns q [] = err (unknown_wildcard q)
some_columns q (c ∷ columns) = ok (c ∷ columns)

-- `{function:?}` in lower case
abbrev pub function_name : AggregateFunction → Text
function_name AggregateFunction.count = b'c' ∷ b'o' ∷ b'u' ∷ b'n' ∷ b't' ∷ []
function_name AggregateFunction.sum = b's' ∷ b'u' ∷ b'm' ∷ []
function_name AggregateFunction.avg = b'a' ∷ b'v' ∷ b'g' ∷ []
function_name AggregateFunction.max = b'm' ∷ b'a' ∷ b'x' ∷ []
function_name AggregateFunction.min = b'm' ∷ b'i' ∷ b'n' ∷ []

unfoldable pub expression_name : Expr → Text
expression_name (column _ name) = name
expression_name (aggregate f _ _) = function_name f
expression_name (scalar_subquery _) = b's' ∷ b'u' ∷ b'b' ∷ b'q' ∷ b'u' ∷ b'e' ∷ b'r' ∷ b'y' ∷ []
expression_name _ = b'e' ∷ b'x' ∷ b'p' ∷ b'r' ∷ b'e' ∷ b's' ∷ b's' ∷ b'i' ∷ b'o' ∷ b'n' ∷ []

abbrev pub item_table : Expr → Option Text → Text
item_table (column (some q) _) none = q
item_table _ _ = []

abbrev pub item_name : Expr → Option Text → Text
item_name e none = expression_name e
item_name e (some alias) = alias

unfoldable pub projection_columns : SelectItems → List BoundColumn → Evaluated (List BoundColumn)
unfolding wildcard_columns expression_name
projection_columns no_items source = ok []
projection_columns (cons_wildcard q items) source = do
  columns ← some_columns q (wildcard_columns q source)
  rest ← projection_columns items source
  ok (columns ++ rest)
projection_columns (cons_item e alias items) source = do
  rest ← projection_columns items source
  ok (record { table = item_table e alias; name = item_name e alias } ∷ rest)

-- The values of the row in the columns that match, from the position `i` on.
unfoldable pub wildcard_values : Option Text → ℕ → List BoundColumn → Row → Evaluated (List Value)
unfolding eq_ignore_ascii_case
wildcard_values q i [] row = ok []
wildcard_values q i (c ∷ columns) row =
    let rest = wildcard_values q (suc i) columns row in
    if in_wildcard q c then value_at i row >>= (λ v. rest >>= (λ vs. ok (v ∷ vs))) else rest

-- Whether an expression holds an aggregate function.
unfoldable mutual
  pub expr_has_aggregate : Expr → Bool
  expr_has_aggregate (aggregate _ _ _) = true
  expr_has_aggregate (binary l _ r) = expr_has_aggregate l || expr_has_aggregate r
  expr_has_aggregate (unary _ e) = expr_has_aggregate e
  expr_has_aggregate (is_null e _) = expr_has_aggregate e
  expr_has_aggregate (like e _ _) = expr_has_aggregate e
  expr_has_aggregate (in_list e es _) = expr_has_aggregate e || any_has_aggregate es
  expr_has_aggregate _ = false

  pub any_has_aggregate : Exprs → Bool
  any_has_aggregate no_exprs = false
  any_has_aggregate (cons_expr e es) = expr_has_aggregate e || any_has_aggregate es

unfoldable pub item_has_aggregate : SelectItems → Bool
unfolding expr_has_aggregate
item_has_aggregate no_items = false
item_has_aggregate (cons_wildcard _ items) = item_has_aggregate items
item_has_aggregate (cons_item e _ items) = expr_has_aggregate e || item_has_aggregate items

-- `entry(key).or_default().push(row)` in a map that is sorted by its keys.
unfoldable pub add_to_group : Text → Row → List (Text × List Row) → List (Text × List Row)
unfolding compare_text
add_to_group key row [] = (key, row ∷ []) ∷ []
add_to_group key row ((other, rows) ∷ groups) =
    let later = add_to_group key row groups in
    elim (compare_text key other) [
      | Ordering.lt ↦ (key, row ∷ []) ∷ (other, rows) ∷ groups
      | Ordering.eq ↦ (other, rows ++ row ∷ []) ∷ groups
      | Ordering.gt ↦ (other, rows) ∷ later
    ]

abbrev pub representative : ℕ → List Row → Row
representative width [] = nulls width
representative width (row ∷ _) = row

abbrev pub is_no_exprs : Exprs → Bool
is_no_exprs no_exprs = true
is_no_exprs (cons_expr _ _) = false

-- Without GROUP BY there is a group, also of no rows.
abbrev pub at_least_one : Bool → List (Text × List Row) → List (Text × List Row)
at_least_one true [] = ([], []) ∷ []
at_least_one _ groups = groups

module _ (rt : Runtime) (pr : Printing) (run : Query → Evaluated Relation)
    (source : List BoundColumn) where
  unfoldable pub project_row : SelectItems → Row → Option (List Row) → Evaluated Row
  unfolding wildcard_values eval_expr
  project_row no_items row group = ok []
  project_row (cons_wildcard q items) row group = do
    vs ← wildcard_values q 0 source row
    rest ← project_row items row group
    ok (vs ++ rest)
  project_row (cons_item e _ items) row group = do
    v ← eval_expr rt run source row group e
    rest ← project_row items row group
    ok (v ∷ rest)

  unfoldable pub project_rows : SelectItems → List Row → Evaluated (List Row)
  unfolding project_row
  project_rows items [] = ok []
  project_rows items (row ∷ rows) = do
    out ← project_row items row none
    rest ← project_rows items rows
    ok (out ∷ rest)

  unfoldable pub project_query : SelectItems → List Row → Evaluated Relation
  unfolding projection_columns project_rows
  project_query items rows = do
    columns ← projection_columns items source
    out ← project_rows items rows
    ok (record { columns = columns; rows = out })

  unfoldable pub group_rows :
      Exprs → List Row → List (Text × List Row) → Evaluated (List (Text × List Row))
  unfolding eval_exprs row_key add_to_group
  group_rows keys [] groups = ok groups
  group_rows keys (row ∷ rows) groups = do
    vs ← eval_exprs rt run source row none keys
    group_rows keys rows (add_to_group (row_key pr vs) row groups)

  unfoldable pub having_holds : OptExpr → Row → List Row → Evaluated Bool
  unfolding eval_expr truth
  having_holds no_expr row group = ok true
  having_holds (some_expr e) row group = do
    v ← eval_expr rt run source row (some group) e
    ok (is_true (truth v))

  abbrev pub project_if : Bool → SelectItems → Row → List Row → Evaluated (List Row)
  project_if false items row group = ok []
  project_if true items row group = do out ← project_row items row (some group); ok (out ∷ [])

  unfoldable pub project_groups :
      SelectItems → OptExpr → List (Text × List Row) → Evaluated (List Row)
  unfolding having_holds project_row
  project_groups items having [] = ok []
  project_groups items having ((_, group) ∷ groups) = do
    let row = representative (length source) group
    kept ← having_holds having row group
    out ← project_if kept items row group
    rest ← project_groups items having groups
    ok (out ++ rest)

  unfoldable pub aggregate_query : SelectItems → Exprs → OptExpr → List Row → Evaluated Relation
  unfolding group_rows projection_columns project_groups
  aggregate_query items keys having rows = do
    groups ← group_rows keys rows []
    columns ← projection_columns items source
    out ← project_groups items having (at_least_one (is_no_exprs keys) groups)
    ok (record { columns = columns; rows = out })
