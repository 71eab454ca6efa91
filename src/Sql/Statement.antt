-- ===== src/Sql/Statement.antt =====
-- src/sql/parser.rs and src/sql/types.rs: the statements, their kinds, and their optimization.
use rusty_db.Prelude.{Bool, true, false, Option, List, [], ◌∷◌, ok, ◌>>=◌}
use rusty_db.Sql.Number.{Runtime}
use rusty_db.Sql.Types.{Text, DataType, Value}
use rusty_db.Sql.Expr.{Expr, Exprs, OptExpr, Query}
use rusty_db.Sql.Fold.{Fallible, fold_expr, fold_exprs, fold_option, optimize_query}

pub record ColumnDef : Type 0 where
  pub name : Text
  pub data_type : DataType
  pub nullable : Bool
  pub primary_key : Bool
  pub unique : Bool
  pub default : Option Value
  pub checks : List Expr

pub record ForeignKeyConstraint : Type 0 where
  pub name : Option Text
  pub columns : List Text
  pub foreign_table : Text
  pub referred_columns : List Text

pub data TableConstraint : Type 0 where
  primary_key : Option Text → List Text → TableConstraint
  unique : Option Text → List Text → TableConstraint
  check : Option Text → Expr → TableConstraint
  foreign_key : ForeignKeyConstraint → TableConstraint

pub data PrepareSource : Type 0 where
  sql : Text → PrepareSource
  variable : Text → PrepareSource

pub data InsertSource : Type 0 where
  values : List Exprs → InsertSource
  from_query : Query → InsertSource

pub data AlterOperation : Type 0 where
  add_column : ColumnDef → List TableConstraint → Bool → AlterOperation
  drop_column : Text → Bool → AlterOperation
  rename_column : Text → Text → AlterOperation
  modify_column : Text → ColumnDef → List TableConstraint → AlterOperation
  set_default : Text → Option Value → AlterOperation
  set_nullable : Text → Bool → AlterOperation
  set_data_type : Text → DataType → AlterOperation
  add_constraint : TableConstraint → AlterOperation
  drop_constraint : Text → Bool → AlterOperation
  drop_primary_key : AlterOperation

pub data Statement : Type 0 where
  -- table_name, columns, constraints, if_not_exists
  create_table : Text → List ColumnDef → List TableConstraint → Bool → Statement
  -- table_name, if_exists
  drop_table : Text → Bool → Statement
  -- name, table_name, columns, unique, if_not_exists
  create_index : Text → Text → List Text → Bool → Bool → Statement
  -- name, table_name, if_exists
  drop_index : Text → Text → Bool → Statement
  alter_table : Text → List AlterOperation → Statement
  -- table_name, columns, source, on_duplicate
  insert : Text → Option (List Text) → InsertSource → List (Text × Expr) → Statement
  query : Query → Statement
  -- table_name, assignments, selection
  update : Text → List (Text × Expr) → OptExpr → Statement
  delete : Text → OptExpr → Statement
  show_tables : Statement
  show_indexes : Text → Statement
  describe_table : Text → Statement
  explain : Statement → Statement
  set_variable : Text → Value → Statement
  prepare : Text → PrepareSource → Statement
  execute_prepared : Text → List Text → Statement
  deallocate_prepared : Text → Statement
  begin : Statement
  commit : Statement
  rollback : Statement

-- executor.rs
unfoldable pub is_write_statement : Statement → Bool
is_write_statement (create_table _ _ _ _) = true
is_write_statement (drop_table _ _) = true
is_write_statement (create_index _ _ _ _ _) = true
is_write_statement (drop_index _ _ _) = true
is_write_statement (alter_table _ _) = true
is_write_statement (insert _ _ _ _) = true
is_write_statement (update _ _ _) = true
is_write_statement (delete _ _) = true
is_write_statement _ = false

unfoldable pub is_transaction_control : Statement → Bool
is_transaction_control begin = true
is_transaction_control commit = true
is_transaction_control rollback = true
is_transaction_control _ = false

-- database.rs
unfoldable pub is_schema_statement : Statement → Bool
is_schema_statement (create_table _ _ _ _) = true
is_schema_statement (drop_table _ _) = true
is_schema_statement (create_index _ _ _ _ _) = true
is_schema_statement (drop_index _ _ _) = true
is_schema_statement (alter_table _ _) = true
is_schema_statement _ = false

unfoldable pub is_session_statement : Statement → Bool
is_session_statement (set_variable _ _) = true
is_session_statement (prepare _ _) = true
is_session_statement (execute_prepared _ _) = true
is_session_statement (deallocate_prepared _) = true
is_session_statement _ = false

-- planner.rs
fold_rows : Runtime → List Exprs → Fallible (List Exprs)
fold_rows rt [] = ok []
fold_rows rt (row ∷ rows) = do
  row' ← fold_exprs rt row
  rows' ← fold_rows rt rows
  ok (row' ∷ rows')

fold_source : Runtime → InsertSource → Fallible InsertSource
unfolding fold_rows
fold_source rt (values rows) = do rows' ← fold_rows rt rows; ok (values rows')
fold_source rt (from_query q) = do q' ← optimize_query rt q; ok (from_query q')

fold_assignments : Runtime → List (Text × Expr) → Fallible (List (Text × Expr))
fold_assignments rt [] = ok []
fold_assignments rt ((column, e) ∷ rest) = do
  e' ← fold_expr rt e
  rest' ← fold_assignments rt rest
  ok ((column, e') ∷ rest')

unfoldable pub optimize_statement : Runtime → Statement → Fallible Statement
unfolding fold_source fold_assignments
optimize_statement rt (query q) = do q' ← optimize_query rt q; ok (query q')
optimize_statement rt (insert table columns source on_duplicate) = do
  source' ← fold_source rt source
  on_duplicate' ← fold_assignments rt on_duplicate
  ok (insert table columns source' on_duplicate')
optimize_statement rt (update table assignments selection) = do
  assignments' ← fold_assignments rt assignments
  selection' ← fold_option rt selection
  ok (update table assignments' selection')
optimize_statement rt (delete table selection) = do
  selection' ← fold_option rt selection
  ok (delete table selection')
optimize_statement rt (explain s) = do s' ← optimize_statement rt s; ok (explain s')
optimize_statement rt s = ok s
