-- ===== src/Db/Executor.antt =====
-- src/sql/executor.rs: `execute_statement` on the tables, which is the `Engine` of the database.
-- ALTER TABLE, EXPLAIN, the wording of errors, the parser and the optimizer are parameters.
use Prim.Native.Nat.{Ordering}
use rusty_db.Prelude.{
  map, ℕ, false, Option, none, some, List, [], ◌∷◌, Result, ok, err, ◌≡◌, refl, arith,
}
use rusty_db.Prelude.Keyed.{find}
use rusty_db.Sql.Number.{Runtime}
use rusty_db.Sql.Types.{Text, Value, compare_text}
use rusty_db.Sql.Expr.{Query}
use rusty_db.Sql.Operators.{BoundColumn, Relation, Evaluated}
use rusty_db.Sql.Statement.{Statement, ColumnDef, AlterOperation, is_write_statement}
use rusty_db.Table.Schema.{ExecError, evaluation, missing_table, IndexDef, Executed}
use rusty_db.Table.Keys.{keyed_by_text}
use rusty_db.Table.Bloom.{IndexRuntime}
use rusty_db.Table.Store.{Table}
use rusty_db.Table.Automatic.{from_tables}
use rusty_db.Table.Validate.{Tables, validate_catalog}
use rusty_db.Table.Insert.{to_ascii_lowercase, execute_insert}
use rusty_db.Table.Change.{execute_update, execute_delete}
use rusty_db.Table.Ddl.{
  Changed, execute_create_table, execute_drop_table, execute_create_index, execute_drop_index,
}
use rusty_db.Db.Catalog.{
  DbError, statement_error, requires_session, ExecutionResult, answer, rows_affected, error, Engine,
  EngineLaws,
}

-- What a statement answers, the number of rows, transactions and errors apart.
pub data Answer : Type 0 where
  -- columns, rows
  select : List Text → List (List Value) → Answer
  table_created table_dropped index_created index_dropped : Text → Answer
  table_names : List Text → Answer
  indexes : List IndexDef → Answer
  table_description : Text → List ColumnDef → Answer
  explained : List Text → Answer

abbrev pub Outcome : Type 0
Outcome = ExecutionResult Answer × Tables

pub record Parameters : Type 0 where
  pub execute_alter_table : Text → List AlterOperation → Tables → Outcome
  pub explain_statement : Tables → Statement → List Text
  pub message : ExecError → Text
  pub parse_sql : Text → Result DbError Statement
  pub optimize : Statement → Statement
  pub trim : Text → Text
  pub normalize : Text → Text

-- `tables.sort()`
unfoldable insert_name : Text → List Text → List Text
unfolding compare_text
insert_name name [] = name ∷ []
insert_name name (other ∷ names) =
    let rest = insert_name name names in
    elim (compare_text name other) [ Ordering.gt ↦ other ∷ rest | _ ↦ name ∷ other ∷ names ]

unfoldable sort_names : List Text → List Text
unfolding insert_name
sort_names [] = []
sort_names (name ∷ names) = insert_name name (sort_names names)

module _ (m : Parameters) where
  unfoldable failed : ExecError → ExecutionResult Answer
  failed e = error (statement_error (m.message e))

  unfoldable counted : Executed ℕ × Tables → Outcome
  unfolding failed
  counted (ok n, tables) = (rows_affected n, tables)
  counted (err e, tables) = (failed e, tables)

  unfoldable replaced : Answer → Tables → Changed → Outcome
  unfolding failed
  replaced a tables (ok changed) = (answer a, changed)
  replaced a tables (err e) = (failed e, tables)

  unfoldable relation_to_result : Evaluated Relation → ExecutionResult Answer
  unfolding failed
  relation_to_result (ok relation) =
      answer (select (map (λ (c : BoundColumn). c.name) relation.columns) relation.rows)
  relation_to_result (err e) = failed (evaluation e)

  unfoldable described : Text → Option Table → (Table → Answer) → ExecutionResult Answer
  unfolding failed
  described name none show = failed (missing_table name)
  described name (some t) show = answer (show t)

  module _ (rt : Runtime) (ir : IndexRuntime) (run : Tables → Query → Evaluated Relation) where
    unfoldable pub execute_statement : Statement → Tables → Outcome
    unfolding counted replaced relation_to_result described failed sort_names execute_insert
        execute_update execute_delete execute_create_table execute_drop_table execute_create_index
        execute_drop_index find
    execute_statement (Statement.create_table name columns constraints if_not_exists) tables =
        replaced (table_created (to_ascii_lowercase name)) tables
          (execute_create_table ir name columns constraints if_not_exists tables)
    execute_statement (Statement.drop_table name if_exists) tables =
        replaced (table_dropped (to_ascii_lowercase name)) tables
          (execute_drop_table ir name if_exists tables)
    execute_statement (Statement.create_index name table columns unique if_not_exists) tables =
        replaced (index_created name) tables
          (execute_create_index ir name table columns unique if_not_exists tables)
    execute_statement (Statement.drop_index name table if_exists) tables =
        replaced (index_dropped name) tables (execute_drop_index ir name table if_exists tables)
    execute_statement (Statement.alter_table name operations) tables =
        m.execute_alter_table name operations tables
    execute_statement (Statement.insert name columns source on_duplicate) tables =
        counted (execute_insert rt run ir name columns source on_duplicate tables)
    execute_statement (Statement.query q) tables = (relation_to_result (run tables q), tables)
    execute_statement (Statement.update name assignments selection) tables =
        counted (execute_update rt run ir name assignments selection tables)
    execute_statement (Statement.delete name selection) tables =
        counted (execute_delete rt run ir name selection tables)
    execute_statement Statement.show_tables tables =
        (answer (table_names (sort_names (map (λ p. p.0) tables))), tables)
    execute_statement (Statement.show_indexes name) tables = (
      described name (find (to_ascii_lowercase name) tables) (λ t. indexes t.schema.indexes),
      tables,
    )
    execute_statement (Statement.describe_table name) tables = (
      described name (find (to_ascii_lowercase name) tables)
          (λ t. table_description t.schema.name t.schema.columns),
      tables,
    )
    execute_statement (Statement.explain s) tables =
        (answer (explained (m.explain_statement tables s)), tables)
    execute_statement _ tables = (error requires_session, tables)

    unfoldable validated_catalog : Tables → Option DbError
    unfolding validate_catalog
    validated_catalog tables = elim (validate_catalog rt (run tables) tables) [
      | ok _ ↦ none
      | err e ↦ some (statement_error (m.message e))
    ]

    unfoldable pub executor : Engine Tables Answer
    unfolding execute_statement validated_catalog from_tables
    executor = record {
      execute_statement = execute_statement;
      validate_catalog = validated_catalog;
      from_tables = from_tables ir;
      parse_sql = m.parse_sql;
      optimize = m.optimize;
      trim = m.trim;
      normalize = m.normalize;
    }

    read_keeps :
        (s : Statement) (tables : Tables)
        → is_write_statement s ≡ false
        → (execute_statement s tables).1 ≡ tables
    unfolding execute_statement is_write_statement
    read_keeps (Statement.create_table _ _ _ _) tables h = ground arith
    read_keeps (Statement.drop_table _ _) tables h = ground arith
    read_keeps (Statement.create_index _ _ _ _ _) tables h = ground arith
    read_keeps (Statement.drop_index _ _ _) tables h = ground arith
    read_keeps (Statement.alter_table _ _) tables h = ground arith
    read_keeps (Statement.insert _ _ _ _) tables h = ground arith
    read_keeps (Statement.update _ _ _) tables h = ground arith
    read_keeps (Statement.delete _ _) tables h = ground arith
    read_keeps s tables h = refl

    -- The statements on the tables keep the laws, where the parser strips its text.
    pub executor-EngineLaws :
        ((sql : Text) → m.parse_sql (m.trim sql) ≡ m.parse_sql (m.normalize sql))
        → EngineLaws executor
    unfolding executor
    executor-EngineLaws strips = record { read_keeps = read_keeps; parse_trim = strips }
