-- ===== src/Sql/Prepared.antt =====
-- src/sql/parser.rs: `parameter_count` and `bind_parameters` of a statement.
pub mod Placed
use rusty_db.Prelude.{
  ℕ, suc, max, ◌≤◌, Option, List, [], ◌∷◌, Result, ok, err, ◌==◌, if◌then◌else◌, length, ◌≡◌, refl,
  arith, ==→eq, Bool-cases, inl, inr, ◌⊎◌, ◌≢◌,
}
use rusty_db.Sql.Types.{Text, Value}
use rusty_db.Sql.Expr.{Expr, Exprs}
use rusty_db.Sql.Statement.{
  Statement, ColumnDef, TableConstraint, check, AlterOperation, add_column, modify_column,
  add_constraint, InsertSource, values, from_query, create_table, alter_table, insert, query,
  update, delete, explain,
}
use rusty_db.Sql.Parameters.{
  count_expr, count_exprs, count_opt, count_query, bind_expr, bind_exprs, bind_opt, bind_query,
}

count_checks : List Expr → ℕ
unfolding count_expr
count_checks [] = 0
count_checks (e ∷ es) = max (count_expr e) (count_checks es)

bind_checks : List Value → List Expr → List Expr
unfolding bind_expr
bind_checks vs [] = []
bind_checks vs (e ∷ es) = bind_expr vs e ∷ bind_checks vs es

count_columns : List ColumnDef → ℕ
unfolding count_checks
count_columns [] = 0
count_columns (c ∷ cs) = max (count_checks c.checks) (count_columns cs)

bind_column : List Value → ColumnDef → ColumnDef
unfolding bind_checks
bind_column vs c = record c { checks = bind_checks vs c.checks }

bind_columns : List Value → List ColumnDef → List ColumnDef
unfolding bind_column
bind_columns vs [] = []
bind_columns vs (c ∷ cs) = bind_column vs c ∷ bind_columns vs cs

-- `visit_constraint_exprs`
count_constraints : List TableConstraint → ℕ
unfolding count_expr
count_constraints [] = 0
count_constraints (check n e ∷ cs) = max (count_expr e) (count_constraints cs)
count_constraints (_ ∷ cs) = count_constraints cs

bind_constraint : List Value → TableConstraint → TableConstraint
unfolding bind_expr
bind_constraint vs (check n e) = check n (bind_expr vs e)
bind_constraint vs k = k

bind_constraints : List Value → List TableConstraint → List TableConstraint
unfolding bind_constraint
bind_constraints vs [] = []
bind_constraints vs (k ∷ ks) = bind_constraint vs k ∷ bind_constraints vs ks

count_operations : List AlterOperation → ℕ
unfolding count_checks count_constraints
count_operations [] = 0
count_operations (add_column c ks _ ∷ ops) =
    max (max (count_checks c.checks) (count_constraints ks)) (count_operations ops)
count_operations (modify_column _ c ks ∷ ops) =
    max (max (count_checks c.checks) (count_constraints ks)) (count_operations ops)
count_operations (add_constraint k ∷ ops) = max (count_constraints (k ∷ [])) (count_operations ops)
count_operations (_ ∷ ops) = count_operations ops

bind_operation : List Value → AlterOperation → AlterOperation
unfolding bind_column bind_constraint bind_constraints
bind_operation vs (add_column c ks b) = add_column (bind_column vs c) (bind_constraints vs ks) b
bind_operation vs (modify_column n c ks) =
    modify_column n (bind_column vs c) (bind_constraints vs ks)
bind_operation vs (add_constraint k) = add_constraint (bind_constraint vs k)
bind_operation vs op = op

bind_operations : List Value → List AlterOperation → List AlterOperation
unfolding bind_operation
bind_operations vs [] = []
bind_operations vs (op ∷ ops) = bind_operation vs op ∷ bind_operations vs ops

count_rows : List Exprs → ℕ
unfolding count_exprs
count_rows [] = 0
count_rows (row ∷ rows) = max (count_exprs row) (count_rows rows)

bind_rows : List Value → List Exprs → List Exprs
unfolding bind_exprs
bind_rows vs [] = []
bind_rows vs (row ∷ rows) = bind_exprs vs row ∷ bind_rows vs rows

count_source : InsertSource → ℕ
unfolding count_rows count_query
count_source (values rows) = count_rows rows
count_source (from_query q) = count_query q

bind_source : List Value → InsertSource → InsertSource
unfolding bind_rows bind_query
bind_source vs (values rows) = values (bind_rows vs rows)
bind_source vs (from_query q) = from_query (bind_query vs q)

count_assignments : List (Text × Expr) → ℕ
unfolding count_expr
count_assignments [] = 0
count_assignments ((column, e) ∷ rest) = max (count_expr e) (count_assignments rest)

bind_assignments : List Value → List (Text × Expr) → List (Text × Expr)
unfolding bind_expr
bind_assignments vs [] = []
bind_assignments vs ((column, e) ∷ rest) = (column, bind_expr vs e) ∷ bind_assignments vs rest

unfoldable pub parameter_count : Statement → ℕ
unfolding count_columns count_constraints count_operations count_source count_assignments
    count_query count_opt
parameter_count (create_table n cs ks b) = max (count_columns cs) (count_constraints ks)
parameter_count (alter_table n ops) = count_operations ops
parameter_count (insert n cs s on_duplicate) = max (count_source s) (count_assignments on_duplicate)
parameter_count (query q) = count_query q
parameter_count (update n assignments sel) = max (count_assignments assignments) (count_opt sel)
parameter_count (delete n sel) = count_opt sel
parameter_count (explain s) = parameter_count s
parameter_count _ = 0

unfoldable pub bind_statement : List Value → Statement → Statement
unfolding bind_columns bind_constraints bind_operations bind_source bind_assignments bind_query
    bind_opt
bind_statement vs (create_table n cs ks b) =
    create_table n (bind_columns vs cs) (bind_constraints vs ks) b
bind_statement vs (alter_table n ops) = alter_table n (bind_operations vs ops)
bind_statement vs (insert n cs s on_duplicate) =
    insert n cs (bind_source vs s) (bind_assignments vs on_duplicate)
bind_statement vs (query q) = query (bind_query vs q)
bind_statement vs (update n assignments sel) =
    update n (bind_assignments vs assignments) (bind_opt vs sel)
bind_statement vs (delete n sel) = delete n (bind_opt vs sel)
bind_statement vs (explain s) = explain (bind_statement vs s)
bind_statement vs s = s

pub data BindError : Type 0 where
  -- the number expected and the number given
  wrong_number : ℕ → ℕ → BindError

unfoldable pub bind_parameters : Statement → List Value → Result BindError Statement
unfolding parameter_count bind_statement
bind_parameters s vs =
    if length vs == parameter_count s
    then ok (bind_statement vs s)
    else err (wrong_number (parameter_count s) (length vs))
