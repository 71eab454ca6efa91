-- ===== src/Table/Change.antt =====
-- src/sql/executor.rs: UPDATE and DELETE, on the rows that an index leaves.
use rusty_db.Prelude.{
  ℕ, ◌+◌, Bool, true, false, Option, none, some, List, [], ◌∷◌, if◌then◌else◌, get_elem?, set, drop,
  ok, err, ◌>>=◌,
}
use rusty_db.Prelude.Keyed.{find}
use rusty_db.Sql.Number.{Runtime}
use rusty_db.Sql.Types.{Text, truth, coerce_to}
use rusty_db.Sql.Expr.{Expr, OptExpr, no_expr, some_expr, Query}
use rusty_db.Sql.Operators.{BoundColumn, Relation, Evaluated, panicked}
use rusty_db.Sql.Eval.{eval_expr}
use rusty_db.Table.Schema.{
  Executed, evaluation, missing_table, unknown_column, type_mismatch, some_or, TableSchema,
  column_index,
}
use rusty_db.Table.Keys.{keyed_by_text}
use rusty_db.Table.Bloom.{IndexRuntime}
use rusty_db.Table.Store.{Row, Table, rebuild_index}
use rusty_db.Table.Scan.{bound_columns, candidate_row_ids, is_candidate, is_true}
use rusty_db.Table.Validate.{Tables, evaluated}
use rusty_db.Table.Insert.{to_ascii_lowercase, finish}

abbrev pub selection_of : OptExpr → Option Expr
selection_of no_expr = none
selection_of (some_expr e) = some e

abbrev pub first_id : List ℕ → Option ℕ
first_id [] = none
first_id (id ∷ _) = some id

-- The ID of a row that is kept is read at its position, out of range with a panic.
abbrev pub keep_if :
    Bool → Row → Option ℕ → List Row × List ℕ × ℕ → Executed (List Row × List ℕ × ℕ)
keep_if true row id (rows, ids, count) = ok (rows, ids, count + 1)
keep_if false row none rest = err (evaluation panicked)
keep_if false row (some id) (rows, ids, count) = ok (row ∷ rows, id ∷ ids, count)

module _ (rt : Runtime) (run : Query → Evaluated Relation) (columns : List BoundColumn) where
  unfoldable pub row_matches : OptExpr → Row → Executed Bool
  unfolding evaluated eval_expr truth
  row_matches no_expr row = ok true
  row_matches (some_expr e) row = do
    v ← evaluated (eval_expr rt run columns row none e)
    ok (is_true (truth v))

  -- Whether the row is a candidate on which the selection is true.
  unfoldable pub is_selected : Option (List ℕ) → OptExpr → Row → Option ℕ → Executed Bool
  unfolding row_matches
  is_selected candidates selection row id =
      if is_candidate candidates id then row_matches selection row else ok false

  -- The assignments are evaluated on the row as it was.
  unfoldable pub assign : TableSchema → Row → List (Text × Expr) → Row → Executed Row
  unfolding column_index evaluated eval_expr coerce_to
  assign schema original [] row = ok row
  assign schema original ((name, e) ∷ assignments) row = do
    i ← some_or (unknown_column name) (column_index schema name)
    v ← evaluated (eval_expr rt run columns original none e)
    column ← some_or (evaluation panicked) (get_elem? schema.columns i)
    coerced ← some_or (type_mismatch name) (coerce_to rt v column.data_type)
    assign schema original assignments (set row i coerced)

  unfoldable pub assign_if : Bool → TableSchema → Row → List (Text × Expr) → Executed (Row × ℕ)
  unfolding assign
  assign_if false schema row assignments = ok (row, 0)
  assign_if true schema row assignments = do
    changed ← assign schema row assignments row
    ok (changed, 1)

  unfoldable pub update_rows :
      Option (List ℕ)
      → OptExpr
      → TableSchema
      → List (Text × Expr)
      → List Row
      → List ℕ
      → Executed (List Row × ℕ)
  unfolding is_selected assign_if
  update_rows candidates selection schema assignments [] ids = ok ([], 0)
  update_rows candidates selection schema assignments (row ∷ rows) ids = do
    selected ← is_selected candidates selection row (first_id ids)
    (changed, n) ← assign_if selected schema row assignments
    (rest, count) ← update_rows candidates selection schema assignments rows (drop 1 ids)
    ok (changed ∷ rest, n + count)

  unfoldable pub delete_rows :
      Option (List ℕ) → OptExpr → List Row → List ℕ → Executed (List Row × List ℕ × ℕ)
  unfolding is_selected
  delete_rows candidates selection [] ids = ok ([], [], 0)
  delete_rows candidates selection (row ∷ rows) ids = do
    selected ← is_selected candidates selection row (first_id ids)
    rest ← delete_rows candidates selection rows (drop 1 ids)
    keep_if selected row (first_id ids) rest

module _ (rt : Runtime) (run : Tables → Query → Evaluated Relation) (ir : IndexRuntime) where
  unfoldable pub update_table :
      Tables → Text → List (Text × Expr) → OptExpr → Table → Executed (Table × ℕ)
  unfolding candidate_row_ids update_rows rebuild_index
  update_table tables name assignments selection t = do
    (rows, count) ←
        update_rows rt (run tables) (bound_columns name t.schema)
          (candidate_row_ids ir (selection_of selection) t).0 selection t.schema assignments t.rows
          t.row_ids
    ok (rebuild_index ir (record t { rows = rows }), count)

  unfoldable pub delete_from : Tables → Text → OptExpr → Table → Executed (Table × ℕ)
  unfolding candidate_row_ids delete_rows rebuild_index
  delete_from tables name selection t = do
    (rows, ids, count) ←
        delete_rows rt (run tables) (bound_columns name t.schema)
          (candidate_row_ids ir (selection_of selection) t).0 selection t.rows t.row_ids
    ok (rebuild_index ir (record t { rows = rows; row_ids = ids }), count)

  unfoldable pub execute_update : Text → List (Text × Expr) → OptExpr → Tables → Executed ℕ × Tables
  unfolding find update_table finish
  execute_update table_name assignments selection tables =
      let name = to_ascii_lowercase table_name in
      finish rt run name
        (do
          t ← some_or (missing_table name) (find name tables)
          update_table tables name assignments selection t)
        tables

  unfoldable pub execute_delete : Text → OptExpr → Tables → Executed ℕ × Tables
  unfolding find delete_from finish
  execute_delete table_name selection tables =
      let name = to_ascii_lowercase table_name in
      finish rt run name
        (do
          t ← some_or (missing_table name) (find name tables)
          delete_from tables name selection t)
        tables
