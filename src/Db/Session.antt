-- ===== src/Db/Session.antt =====
-- src/sql/database.rs: a session, its transaction, its user variables and its prepared statements.
pub mod Execute
use rusty_db.Prelude.{
  ℕ, Bool, true, false, ◌&&◌, ◌||◌, not, Option, none, some, List, [], ◌∷◌, ◌++◌, Result, ok, err,
  ◌>>=◌, if◌then◌else◌, saturating_add, ◌==◌,
}
use rusty_db.Sql.Types.{Text, Value}
use rusty_db.Sql.Statement.{
  Statement, PrepareSource, is_write_statement, is_schema_statement, is_transaction_control,
  is_session_statement,
}
use rusty_db.Sql.Prepared.{parameter_count, bind_parameters, BindError}
use rusty_db.Db.Catalog.{
  Catalog, DbError, unset_variable, variable_type, unknown_prepared, not_preparable,
  parameter_number, already_active, serialization_conflict, Engine, ExecutionResult, is_error,
  execute_catalog,
}
use rusty_db.Db.Log.{Codec, DurableStatement, sql, bound}
use rusty_db.Db.PlanCache
use rusty_db.Db.TextMap.{TextMap, find, remove, put}
use rusty_db.Db.Database.{
  Database, Io, Outcome, log_transaction, parse_cached, execute_autocommit_durable, next_catalog,
}

pub record TransactionState (Tables : Type 0) : Type 0 where
  pub base_version : ℕ
  pub catalog : Catalog Tables
  pub statements : List DurableStatement
  pub schema_changed : Bool

pub record PreparedStatement : Type 0 where
  pub sql : Text
  pub statement : Statement
  pub parameter_count : ℕ
  pub schema_version : ℕ

pub record Session (Tables : Type 0) : Type 0 where
  pub transaction : Option (TransactionState Tables)
  pub variables : TextMap Value
  pub prepared : TextMap PreparedStatement

module _ {Line Tables Answer : Type 0} (e : Engine Tables Answer) (c : Codec Line Tables) where
  -- What a call returns, with the database and the session that it leaves.
  abbrev pub Reply : Type 0
  Reply = ExecutionResult Answer × Database Line Tables × Session Tables

  abbrev pub State : Type 0
  State = Database Line Tables × Session Tables

  unfoldable pub begin : State → Reply
  begin (db, session) = elim session.transaction [
    | some _ ↦ (ExecutionResult.error already_active, db, session)
    | none ↦ (
      ExecutionResult.transaction_started,
      db,
      record session {
        transaction = some (record {
          base_version = db.catalog.version;
          catalog = db.catalog;
          statements = [];
          schema_changed = false;
        });
      },
    )
  ]

  unfoldable pub rollback : State → Reply
  rollback (db, session) =
      (ExecutionResult.transaction_rolled_back, db, record session { transaction = none })

  unfoldable pub clear_if : Bool → Database Line Tables → Database Line Tables
  unfolding PlanCache.clear
  clear_if true db = record db { plan_cache = PlanCache.clear db.plan_cache }
  clear_if false db = db

  -- From the log on. After a failed write the transaction is there for another COMMIT.
  unfoldable pub committed : TransactionState Tables → Session Tables → Outcome Line Tables → Reply
  unfolding clear_if
  committed state session (ok _, db) = (
    ExecutionResult.transaction_committed,
    clear_if state.schema_changed (record db { catalog = state.catalog }),
    record session { transaction = none },
  )
  committed state session (err x, db) =
      (ExecutionResult.error x, db, record session { transaction = some state })

  unfoldable pub is_empty : List DurableStatement → Bool
  is_empty [] = true
  is_empty (_ ∷ _) = false

  unfoldable pub commit_state : Io Line → TransactionState Tables → State → Reply
  unfolding committed is_empty next_catalog log_transaction
  commit_state io state (db, session) =
      let next = next_catalog e c state.schema_changed state.catalog.tables db.catalog in
      if not (db.catalog.version == state.base_version)
      then (ExecutionResult.error serialization_conflict, db, record session { transaction = none })
      else if is_empty state.statements
      then (ExecutionResult.transaction_committed, db, record session { transaction = none })
      else committed (record state { catalog = next }) session
          (log_transaction e c io state.base_version next.version state.statements db)

  unfoldable pub commit : Io Line → State → Reply
  unfolding commit_state
  commit io (db, session) = elim session.transaction [
    | none ↦ (ExecutionResult.transaction_committed, db, session)
    | some state ↦ commit_state io state (db, session)
  ]

  -- A statement inside a transaction works on the copy of the catalog, and is noted when it wrote.
  unfoldable pub noted :
      DurableStatement
      → Statement
      → TransactionState Tables
      → ExecutionResult Answer × Tables
      → TransactionState Tables
  noted durable s state (r, t) =
      if not (is_error r) && is_write_statement s
      then record state {
        catalog = record state.catalog { tables = t };
        statements = state.statements ++ durable ∷ [];
        schema_changed = state.schema_changed || is_schema_statement s;
      }
      else record state { catalog = record state.catalog { tables = t } }

  unfoldable pub execute_in :
      DurableStatement → Statement → TransactionState Tables → TransactionState Tables
  unfolding noted
  execute_in durable s state = noted durable s state (execute_catalog e s state.catalog.tables)

  abbrev pub with_session : Session Tables → ExecutionResult Answer × Database Line Tables → Reply
  with_session session (r, db) = (r, db, session)

  -- A statement in the session's transaction, or in autocommit mode without one.
  unfoldable pub run_durable : Io Line → DurableStatement → Statement → State → Reply
  unfolding execute_in execute_autocommit_durable
  run_durable io durable s (db, session) = elim session.transaction [
    | some state ↦ (
      (execute_catalog e s state.catalog.tables).0,
      db,
      record session { transaction = some (execute_in durable s state) },
    )
    | none ↦ with_session session (execute_autocommit_durable e c io durable s db)
  ]
