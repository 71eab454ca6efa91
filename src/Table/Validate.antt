-- ===== src/Table/Validate.antt =====
-- src/sql/executor.rs: the checks on the whole catalog that end every change of rows.
-- `run` stands for `execute_query` on the tables. The tables are visited in the order of the list.
use Prim.Native.Nat.{Ordering}
use rusty_db.Prelude.{
  ℕ, Bool, true, false, ◌&&◌, not, Option, none, some, List, [], ◌∷◌, map, any, if◌then◌else◌, ltb,
  length, drop, get_elem?, ok, err, ◌>>=◌,
}
use rusty_db.Prelude.Keyed.{find}
use rusty_db.Sql.Number.{Runtime, float_partial_cmp}
use rusty_db.Sql.Types.{Text, Value, SqlTruth, truth, is_null}
use rusty_db.Sql.Expr.{Query}
use rusty_db.Sql.Operators.{BoundColumn, Relation, Evaluated, panicked, text_eq, ascii_lower}
use rusty_db.Sql.Eval.{eval_expr}
use rusty_db.Sql.Statement.{TableConstraint, ForeignKeyConstraint, check, foreign_key}
use rusty_db.Table.Schema.{
  require, some_or, ExecError, evaluation, check_failed, unique_failed, foreign_table_missing,
  foreign_target, foreign_unknown_column, referred_unknown_column, foreign_key_failed, Executed,
  IndexDef, TableSchema, column_index, validate_row,
}
use rusty_db.Table.Keys.{same_bool, same_ℤ, has_null_part, keyed_by_text}
use rusty_db.Table.Index.{BtreeIndex, Entries}
use rusty_db.Table.Store.{Row, Table}
use rusty_db.Table.Scan.{bound_columns}

abbrev pub Tables : Type 0
Tables = List (Text × Table)

-- The derived equality of values; floats are compared as numbers.
unfoldable pub same_value : Value → Value → Bool
unfolding same_bool same_ℤ text_eq
same_value Value.null Value.null = true
same_value (Value.boolean a) (Value.boolean b) = same_bool a b
same_value (Value.integer a) (Value.integer b) = same_ℤ a b
same_value (Value.float a) (Value.float b) = elim (float_partial_cmp a b) [
  | some Ordering.eq ↦ true
  | _ ↦ false
]
same_value (Value.text a) (Value.text b) = text_eq a b
same_value _ _ = false

unfoldable pub evaluated : {A : Type 0} → Evaluated A → Executed A
evaluated (ok a) = ok a
evaluated (err e) = err (evaluation e)

module _ (rt : Runtime) (run : Query → Evaluated Relation) where
  -- CHECK accepts true and unknown.
  abbrev pub check_result : Option Text → Value → Executed (Unit {0})
  check_result name v = elim (truth v) [ SqlTruth.false ↦ err (check_failed name) | _ ↦ ok tt ]

  unfoldable pub check_constraints :
      List BoundColumn → Row → List TableConstraint → Executed (Unit {0})
  unfolding evaluated truth eval_expr
  check_constraints columns row [] = ok tt
  check_constraints columns row (check name e ∷ constraints) = do
    v ← evaluated (eval_expr rt run columns row none e)
    _ ← check_result name v
    check_constraints columns row constraints
  check_constraints columns row (_ ∷ constraints) = check_constraints columns row constraints

  unfoldable pub validate_checks : Table → Row → Executed (Unit {0})
  unfolding check_constraints
  validate_checks t row =
      check_constraints (bound_columns t.schema.name t.schema) row t.schema.constraints

  unfoldable pub validate_rows : Table → List Row → Executed (Unit {0})
  unfolding validate_row validate_checks
  validate_rows t [] = ok tt
  validate_rows t (row ∷ rows) = do
    _ ← validate_row t.schema row
    _ ← validate_checks t row
    validate_rows t rows

unfoldable pub validate_entries : Text → Entries → Executed (Unit {0})
unfolding has_null_part
validate_entries name [] = ok tt
validate_entries name ((key, row_ids) ∷ entries) =
    let rest = validate_entries name entries in
    if not (has_null_part key) && ltb 1 (length row_ids) then err (unique_failed name) else rest

unfoldable pub validate_index : BtreeIndex → Executed (Unit {0})
unfolding validate_entries
validate_index index =
    if index.definition.unique then validate_entries index.definition.name index.entries else ok tt

unfoldable pub validate_indexes : List (Text × BtreeIndex) → Executed (Unit {0})
unfolding validate_index
validate_indexes [] = ok tt
validate_indexes ((name, index) ∷ indexes) = do _ ← validate_index index; validate_indexes indexes

unfoldable pub validate_unique_indexes : Table → Executed (Unit {0})
unfolding validate_indexes
validate_unique_indexes t = validate_indexes t.indexes

-- The two lists of names, in lower case, are the same.
unfoldable pub same_names : List Text → List Text → Bool
unfolding text_eq
same_names [] [] = true
same_names (a ∷ names) (b ∷ others) =
    text_eq (map ascii_lower a) (map ascii_lower b) && same_names names others
same_names _ _ = false

unfoldable pub column_indexes : (Text → ExecError) → TableSchema → List Text → Executed (List ℕ)
unfolding column_index
column_indexes missing schema [] = ok []
column_indexes missing schema (name ∷ names) = do
  i ← some_or (missing name) (column_index schema name)
  rest ← column_indexes missing schema names
  ok (i ∷ rest)

-- `row.values[index]` for each index; out of range it panics.
unfoldable pub values_at : Row → List ℕ → Executed (List Value)
values_at row [] = ok []
values_at row (i ∷ is) = do
  v ← some_or (evaluation panicked) (get_elem? row i)
  vs ← values_at row is
  ok (v ∷ vs)

unfoldable pub same_values : List Value → List Value → Bool
unfolding same_value
same_values [] [] = true
same_values (a ∷ values) (b ∷ others) = same_value a b && same_values values others
same_values _ _ = false

-- The columns of a parent against the values of the key, in order: what is behind a difference is
-- not looked at, and a key that is too short panics.
unfoldable pub agrees_with : Row → List ℕ → List Value → Executed Bool
unfolding same_value
agrees_with row [] key = ok true
agrees_with row (i ∷ is) key = do
  v ← some_or (evaluation panicked) (get_elem? row i)
  k ← some_or (evaluation panicked) (get_elem? key 0)
  let rest = agrees_with row is (drop 1 key)
  if same_value v k then rest else ok false

-- `any`: the rows behind a parent are not looked at.
unfoldable pub has_parent : List ℕ → List Value → List Row → Executed Bool
unfolding agrees_with
has_parent indexes key [] = ok false
has_parent indexes key (row ∷ rows) = do
  found ← agrees_with row indexes key
  let rest = has_parent indexes key rows
  if found then ok true else rest

-- A row with a NULL in the key needs no parent.
unfoldable pub parent_found : List ℕ → List Value → List Row → Executed Bool
unfolding has_parent
parent_found indexes key parents =
    if any is_null key then ok true else has_parent indexes key parents

unfoldable pub validate_children :
    Option Text → List ℕ → List ℕ → List Row → List Row → Executed (Unit {0})
unfolding values_at parent_found
validate_children name child_indexes parent_indexes parents [] = ok tt
validate_children name child_indexes parent_indexes parents (row ∷ rows) = do
  key ← values_at row child_indexes
  found ← parent_found parent_indexes key parents
  _ ← require found (foreign_key_failed name)
  validate_children name child_indexes parent_indexes parents rows

abbrev pub is_target : List Text → IndexDef → Bool
is_target referred index = index.unique && same_names index.columns referred

unfoldable pub validate_foreign_key : Tables → Table → ForeignKeyConstraint → Executed (Unit {0})
unfolding find same_names column_indexes validate_children
validate_foreign_key tables t fk = do
  parent ← some_or (foreign_table_missing fk.foreign_table) (find fk.foreign_table tables)
  _ ←
      require (any (is_target fk.referred_columns) parent.schema.indexes)
        (foreign_target fk.foreign_table fk.referred_columns)
  child_indexes ← column_indexes foreign_unknown_column t.schema fk.columns
  parent_indexes ← column_indexes referred_unknown_column parent.schema fk.referred_columns
  validate_children fk.name child_indexes parent_indexes parent.rows t.rows

unfoldable pub validate_constraints : Tables → Table → List TableConstraint → Executed (Unit {0})
unfolding validate_foreign_key
validate_constraints tables t [] = ok tt
validate_constraints tables t (foreign_key fk ∷ constraints) = do
  _ ← validate_foreign_key tables t fk
  validate_constraints tables t constraints
validate_constraints tables t (_ ∷ constraints) = validate_constraints tables t constraints

unfoldable pub validate_foreign_keys : Tables → Tables → Executed (Unit {0})
unfolding validate_constraints
validate_foreign_keys tables [] = ok tt
validate_foreign_keys tables ((name, t) ∷ rest) = do
  _ ← validate_constraints tables t t.schema.constraints
  validate_foreign_keys tables rest

module _ (rt : Runtime) (run : Query → Evaluated Relation) where
  unfoldable pub validate_tables : Tables → Executed (Unit {0})
  unfolding validate_rows validate_unique_indexes
  validate_tables [] = ok tt
  validate_tables ((name, t) ∷ rest) = do
    _ ← validate_rows rt run t t.rows
    _ ← validate_unique_indexes t
    validate_tables rest

  unfoldable pub validate_catalog : Tables → Executed (Unit {0})
  unfolding validate_tables validate_foreign_keys
  validate_catalog tables = do _ ← validate_tables tables; validate_foreign_keys tables tables
