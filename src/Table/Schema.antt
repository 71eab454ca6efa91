-- ===== src/Table/Schema.antt =====
-- src/sql/types.rs: the schema of a table and the check of a row; the errors of executor.rs.
use rusty_db.Prelude.{
  ℕ, suc, Bool, true, false, Option, none, some, List, [], ◌∷◌, ◌==◌, if◌then◌else◌, length, Result,
  ok, err, ◌>>=◌,
}
use rusty_db.Sql.Types.{Text, Value, DataType, is_null, is_compatible_with, data_type}
use rusty_db.Sql.Operators.{EvalError, eq_ignore_ascii_case}
use rusty_db.Sql.Statement.{ColumnDef, TableConstraint}

pub record IndexDef : Type 0 where
  pub name : Text
  pub columns : List Text
  pub unique : Bool
  pub automatic : Bool

pub record TableSchema : Type 0 where
  pub name : Text
  pub columns : List ColumnDef
  pub constraints : List TableConstraint
  pub indexes : List IndexDef

-- What the messages of the executor tell apart.
pub data ExecError : Type 0 where
  -- expected, got
  column_count : ℕ → ℕ → ExecError
  null_column : Text → ExecError
  column_type : Text → DataType → DataType → ExecError
  row_position row_id_unavailable : ExecError
  missing_table : Text → ExecError
  value_count : ℕ → ℕ → ExecError
  unknown_column duplicate_column type_mismatch : Text → ExecError
  duplicate_entry multiple_conflicts not_constant : ExecError
  evaluation : EvalError → ExecError
  check_failed : Option Text → ExecError
  unique_failed : Text → ExecError
  foreign_table_missing foreign_unknown_column referred_unknown_column : Text → ExecError
  foreign_target : Text → List Text → ExecError
  foreign_key_failed : Option Text → ExecError
  table_exists index_exists missing_index index_required : Text → ExecError
  constrained_column : Text → ExecError
  second_primary_key no_index_columns : ExecError
  -- the table, and one that refers to it
  referenced_by : Text → Text → ExecError

abbrev pub Executed : Type 0 → Type 0
Executed A = Result ExecError A

abbrev pub require : Bool → ExecError → Executed (Unit {0})
require true e = ok tt
require false e = err e

-- `ok_or_else`
abbrev pub some_or : {A : Type 0} → ExecError → Option A → Executed A
some_or e none = err e
some_or e (some a) = ok a

abbrev pub new_schema : Text → List ColumnDef → TableSchema
new_schema name columns = record { name = name; columns = columns; constraints = []; indexes = [] }

-- `Iterator::position`
unfoldable pub position {ℓ} : {A : Type ℓ} → (A → Bool) → List A → Option ℕ
position p [] = none
position p (x ∷ xs) =
    let later = position p xs in
    if p x then some 0 else elim later [ none ↦ none | some i ↦ some (suc i) ]

unfoldable pub column_index : TableSchema → Text → Option ℕ
unfolding position
column_index schema name =
    position (λ (column : ColumnDef). eq_ignore_ascii_case column.name name) schema.columns

unfoldable pub primary_key_index : TableSchema → Option ℕ
unfolding position
primary_key_index schema = position (λ (column : ColumnDef). column.primary_key) schema.columns

-- One value against its column.
unfoldable pub validate_value : Value → ColumnDef → Executed (Unit {0})
validate_value value column =
    if is_null value
    then (if column.nullable then ok tt else err (null_column column.name))
    else if is_compatible_with value column.data_type
    then ok tt
    else err (column_type column.name column.data_type (data_type value))

unfoldable pub validate_values : List Value → List ColumnDef → Executed (Unit {0})
unfolding validate_value
validate_values [] _ = ok tt
validate_values (_ ∷ _) [] = ok tt
validate_values (value ∷ values) (column ∷ columns) = do
  _ ← validate_value value column
  validate_values values columns

unfoldable pub validate_row : TableSchema → List Value → Executed (Unit {0})
unfolding validate_values
validate_row schema row =
    if length row == length schema.columns
    then validate_values row schema.columns
    else err (column_count (length schema.columns) (length row))
