-- ===== src/Table/Insert.antt =====
-- src/sql/executor.rs: INSERT, with ON DUPLICATE KEY UPDATE.
-- A statement changes a copy of its table, which then takes the table's place.
use rusty_db.Prelude.{
  ℕ, ◌+◌, not, Option, none, some, List, [], ◌∷◌, ◌==◌, if◌then◌else◌, length, replicate, get_elem?,
  set, map, ok, err, ◌>>=◌,
}
use rusty_db.Prelude.Keyed.{contains, find, put}
use rusty_db.Sql.Number.{Runtime}
use rusty_db.Sql.Types.{Text, Value, is_null, coerce_to}
use rusty_db.Sql.Expr.{
  Expr, Exprs, Query, literal, incoming, binary, unary, like, in_list, no_exprs, cons_expr,
}
use rusty_db.Sql.Operators.{BoundColumn, Relation, Evaluated, panicked, ascii_lower}
use rusty_db.Sql.Eval.{eval_expr, eval_exprs}
use rusty_db.Sql.Statement.{ColumnDef, InsertSource, values, from_query}
use rusty_db.Table.Schema.{
  Executed, evaluation, missing_table, value_count, column_count, unknown_column, duplicate_column,
  duplicate_entry, multiple_conflicts, some_or, require, TableSchema, column_index,
}
use rusty_db.Table.Keys.{keyed_by_number, keyed_by_text}
use rusty_db.Table.Bloom.{IndexRuntime}
use rusty_db.Table.Store.{
  Row, Table, insert_row_indexed, replace_row_indexed, unique_conflict_positions,
}
use rusty_db.Table.Scan.{bound_columns}
use rusty_db.Table.Validate.{Tables, evaluated, same_values, validate_catalog}

abbrev pub to_ascii_lowercase : Text → Text
to_ascii_lowercase t = map ascii_lower t

incoming_value : TableSchema → Row → Text → Value
unfolding column_index
incoming_value schema row name = elim (column_index schema name) [
  | none ↦ Value.null
  | some i ↦ elim (get_elem? row i) [ none ↦ Value.null | some v ↦ v ]
]

-- VALUES(column) becomes the value of the row that is inserted.
unfoldable mutual
  unfolding incoming_value

  pub bind_incoming : TableSchema → Row → Expr → Expr
  bind_incoming schema row (incoming name) = literal (incoming_value schema row name)
  bind_incoming schema row (binary left op right) =
      binary (bind_incoming schema row left) op (bind_incoming schema row right)
  bind_incoming schema row (unary op e) = unary op (bind_incoming schema row e)
  bind_incoming schema row (Expr.is_null e negated) =
      Expr.is_null (bind_incoming schema row e) negated
  bind_incoming schema row (like e p negated) =
      like (bind_incoming schema row e) (bind_incoming schema row p) negated
  bind_incoming schema row (in_list e es negated) =
      in_list (bind_incoming schema row e) (bind_incoming_all schema row es) negated
  bind_incoming schema row e = e

  pub bind_incoming_all : TableSchema → Row → Exprs → Exprs
  bind_incoming_all schema row no_exprs = no_exprs
  bind_incoming_all schema row (cons_expr e es) =
      cons_expr (bind_incoming schema row e) (bind_incoming_all schema row es)

-- The values go to the columns that are named; `used` are the columns that have one.
unfoldable pub place : TableSchema → List ℕ → List Text → Row → Row → Executed Row
unfolding column_index
place schema used [] raw ordered = ok ordered
place schema used (name ∷ names) [] ordered = ok ordered
place schema used (name ∷ names) (v ∷ raw) ordered = do
  i ← some_or (unknown_column name) (column_index schema name)
  _ ← require (not (contains i used)) (duplicate_column name)
  place schema (i ∷ used) names raw (set ordered i v)

unfoldable pub order_values : TableSchema → Option (List Text) → Row → Executed Row
unfolding place
order_values schema none raw = do
  _ ←
      require (length raw == length schema.columns)
        (value_count (length schema.columns) (length raw))
  ok raw
order_values schema (some names) raw = do
  _ ← require (length names == length raw) (column_count (length names) (length raw))
  place schema [] names raw (replicate (length schema.columns) Value.null)

abbrev pub or_default : Value → Option Value → Value
or_default v none = v
or_default v (some d) = if is_null v then d else v

abbrev pub or_value : Value → Option Value → Value
or_value v none = v
or_value v (some w) = w

-- A NULL takes the default of its column, and a value the type of its column where it can.
unfoldable pub complete_row : Runtime → List ColumnDef → Row → Row
unfolding coerce_to
complete_row rt [] row = row
complete_row rt (_ ∷ _) [] = []
complete_row rt (column ∷ columns) (v ∷ row) =
    let w = or_default v column.default in
    or_value w (coerce_to rt w column.data_type) ∷ complete_row rt columns row

module _ (rt : Runtime) (run : Tables → Query → Evaluated Relation) where
  -- `eval_constant`: without columns, and on an empty catalog.
  abbrev pub eval_constants : Exprs → Executed Row
  unfolding evaluated eval_exprs
  eval_constants es = evaluated (eval_exprs rt (run []) [] [] none es)

  unfoldable pub build_rows : TableSchema → Option (List Text) → List Exprs → Executed (List Row)
  unfolding order_values complete_row
  build_rows schema names [] = ok []
  build_rows schema names (es ∷ rest) = do
    raw ← eval_constants es
    ordered ← order_values schema names raw
    rows ← build_rows schema names rest
    ok (complete_row rt schema.columns ordered ∷ rows)

  -- The assignments, each on the row as those before it left it.
  unfoldable pub assign_duplicate :
      Tables → List BoundColumn → TableSchema → Row → List (Text × Expr) → Row → Executed Row
  unfolding column_index bind_incoming evaluated eval_expr coerce_to
  assign_duplicate tables columns schema row [] updated = ok updated
  assign_duplicate tables columns schema row ((name, e) ∷ assignments) updated = do
    i ← some_or (unknown_column name) (column_index schema name)
    v ← evaluated (eval_expr rt (run tables) columns updated none (bind_incoming schema row e))
    column ← some_or (evaluation panicked) (get_elem? schema.columns i)
    assign_duplicate tables columns schema row assignments
        (set updated i (or_value v (coerce_to rt v column.data_type)))

  -- The row in conflict is changed, which counts as two rows, unless it stays as it is.
  unfoldable pub update_duplicate :
      IndexRuntime → Tables → Text → List (Text × Expr) → Row → ℕ → Table × ℕ → Executed (Table × ℕ)
  unfolding assign_duplicate same_values replace_row_indexed
  update_duplicate ir tables name on_duplicate row at (t, count) = do
    current ← some_or (evaluation panicked) (get_elem? t.rows at)
    updated ←
        assign_duplicate tables (bound_columns name t.schema) t.schema row on_duplicate current
    if same_values updated current
        then ok (t, count)
        else replace_row_indexed ir at updated t >>= (λ u. ok (u, count + 2))

  unfoldable pub resolve_conflict :
      IndexRuntime
      → Tables
      → Text
      → List (Text × Expr)
      → Row
      → List ℕ
      → Table × ℕ
      → Executed (Table × ℕ)
  unfolding insert_row_indexed update_duplicate
  resolve_conflict ir tables name on_duplicate row [] (t, count) =
      insert_row_indexed ir row t >>= (λ u. ok (u, count + 1))
  resolve_conflict ir tables name [] row (at ∷ more) state = err duplicate_entry
  resolve_conflict ir tables name (a ∷ others) row (at ∷ []) state =
      update_duplicate ir tables name (a ∷ others) row at state
  resolve_conflict ir tables name (a ∷ others) row (at ∷ b ∷ more) state = err multiple_conflicts

  unfoldable pub insert_rows :
      IndexRuntime
      → Tables
      → Text
      → List (Text × Expr)
      → List Row
      → Table × ℕ
      → Executed (Table × ℕ)
  unfolding unique_conflict_positions resolve_conflict
  insert_rows ir tables name on_duplicate [] state = ok state
  insert_rows ir tables name on_duplicate (row ∷ rows) state = do
    next ←
        resolve_conflict ir tables name on_duplicate row (unique_conflict_positions ir row state.0)
          state
    insert_rows ir tables name on_duplicate rows next

  abbrev pub literals : Row → Exprs
  literals [] = no_exprs
  literals (v ∷ row) = cons_expr (literal v) (literals row)

  unfoldable pub source_values : Tables → InsertSource → Executed (List Exprs)
  unfolding evaluated
  source_values tables (values rows) = ok rows
  source_values tables (from_query q) = do
    relation ← evaluated (run tables q)
    ok (map literals relation.rows)

  -- The table is replaced before the catalog is checked; on an error the caller drops the copy.
  unfoldable pub install : Text → Table × ℕ → Tables → Executed ℕ × Tables
  unfolding put validate_catalog
  install name (t, count) tables =
      let changed = put name t tables in
      (validate_catalog rt (run changed) changed >>= (λ _. ok count), changed)

  unfoldable pub finish : Text → Executed (Table × ℕ) → Tables → Executed ℕ × Tables
  unfolding install
  finish name (err e) tables = (err e, tables)
  finish name (ok state) tables = install name state tables

  unfoldable pub execute_insert :
      IndexRuntime
      → Text
      → Option (List Text)
      → InsertSource
      → List (Text × Expr)
      → Tables
      → Executed ℕ × Tables
  unfolding source_values find build_rows insert_rows finish
  execute_insert ir table_name names source on_duplicate tables =
      let name = to_ascii_lowercase table_name in
      finish name
        (do
          rows_of_values ← source_values tables source
          t ← some_or (missing_table name) (find name tables)
          rows ← build_rows t.schema names rows_of_values
          insert_rows ir tables name on_duplicate rows (t, 0))
        tables
