-- ===== src/Db/Session/Execute.antt =====
-- src/sql/database.rs: `SQLSession::execute`, user variables and prepared statements.
use rusty_db.Prelude.{◌||◌, none, some, List, [], ◌∷◌, Result, ok, err, if◌then◌else◌, ◌==◌}
use rusty_db.Sql.Types.{Text, Value}
use rusty_db.Sql.Statement.{Statement, PrepareSource, is_transaction_control, is_session_statement}
use rusty_db.Sql.Prepared.{parameter_count, bind_parameters, BindError}
use rusty_db.Db.Catalog.{
  DbError, unset_variable, variable_type, unknown_prepared, not_preparable, parameter_number,
  Engine, ExecutionResult,
}
use rusty_db.Db.Log.{Codec, DurableStatement}
use rusty_db.Db.TextMap.{TextMap, find, remove, put}
use rusty_db.Db.Database.{Database, Io, parse_cached}
use rusty_db.Db.Session.{
  PreparedStatement, Session, Reply, State, begin, commit, rollback, run_durable,
}

module _ {Line Tables Answer : Type 0} (e : Engine Tables Answer) (c : Codec Line Tables) where
  prepare_parsed :
      Text
      → Result DbError Statement × Database Line Tables
      → Result DbError PreparedStatement × Database Line Tables
  prepare_parsed text (err x, db) = (err x, db)
  prepare_parsed text (ok s, db) =
      if is_transaction_control s || is_session_statement s then (err not_preparable, db) else (
        ok (record {
          sql = e.trim text;
          statement = s;
          parameter_count = parameter_count s;
          schema_version = db.catalog.schema_version;
        }),
        db,
      )

  unfoldable pub prepare :
      Text → Database Line Tables → Result DbError PreparedStatement × Database Line Tables
  unfolding prepare_parsed
  prepare text db = prepare_parsed text (parse_cached e c text db)

  bound_run : Io Line → Result BindError Statement → State e c → Reply e c
  bound_run io (err _) (db, session) = (ExecutionResult.error parameter_number, db, session)
  bound_run io (ok s) state =
      run_durable e c io (DurableStatement.bound (e.optimize s)) (e.optimize s) state

  bind_run :
      Io Line
      → List Value
      → Session Tables
      → Result DbError Statement × Database Line Tables
      → Reply e c
  unfolding bound_run
  bind_run io values session (err x, db) = (ExecutionResult.error x, db, session)
  bind_run io values session (ok s, db) = bound_run io (bind_parameters s values) (db, session)

  -- A statement prepared under another schema version is parsed again.
  unfoldable pub execute_prepared : Io Line → PreparedStatement → List Value → State e c → Reply e c
  unfolding bind_run
  execute_prepared io p values (db, session) = bind_run io values session (
      if db.catalog.schema_version == p.schema_version
      then (ok p.statement, db)
      else parse_cached e c p.sql db)

  abbrev zero_rows : ExecutionResult Answer
  zero_rows = ExecutionResult.rows_affected 0

  source_text : TextMap Value → PrepareSource → Result DbError Text
  unfolding find
  source_text variables (PrepareSource.sql text) = ok text
  source_text variables (PrepareSource.variable name) = elim (find name variables) [
    | none ↦ err unset_variable
    | some (Value.text text) ↦ ok text
    | some _ ↦ err variable_type
  ]

  keep_prepared :
      Text → Session Tables → Result DbError PreparedStatement × Database Line Tables → Reply e c
  unfolding put
  keep_prepared name session (err x, db) = (ExecutionResult.error x, db, session)
  keep_prepared name session (ok p, db) =
      (zero_rows, db, record session { prepared = put name p session.prepared })

  prepare_from : Text → Result DbError Text → State e c → Reply e c
  unfolding keep_prepared prepare
  prepare_from name (err x) (db, session) = (ExecutionResult.error x, db, session)
  prepare_from name (ok text) (db, session) = keep_prepared name session (prepare text db)

  values_of : TextMap Value → List Text → Result DbError (List Value)
  unfolding find
  values_of variables [] = ok []
  values_of variables (name ∷ names) =
      let rest = values_of variables names in
      elim (find name variables) [
        | none ↦ err unset_variable
        | some v ↦ elim rest [ ok vs ↦ ok (v ∷ vs) | err x ↦ err x ]
      ]

  execute_values : Io Line → PreparedStatement → Result DbError (List Value) → State e c → Reply e c
  unfolding execute_prepared
  execute_values io p (err x) (db, session) = (ExecutionResult.error x, db, session)
  execute_values io p (ok values) state = execute_prepared io p values state

  -- The statements that a session carries out itself; the others run in the database.
  unfoldable pub execute_parsed : Io Line → Text → Statement → State e c → Reply e c
  unfolding begin commit rollback prepare_from source_text find remove put execute_values values_of
  execute_parsed io text Statement.begin state = begin e c state
  execute_parsed io text Statement.commit state = commit e c io state
  execute_parsed io text Statement.rollback state = rollback e c state
  execute_parsed io text (Statement.set_variable name v) (db, session) =
      (zero_rows, db, record session { variables = put name v session.variables })
  execute_parsed io text (Statement.prepare name source) (db, session) =
      prepare_from name (source_text session.variables source) (db, session)
  execute_parsed io text (Statement.execute_prepared name using) (db, session) =
      elim (find name session.prepared) [
        | none ↦ (ExecutionResult.error unknown_prepared, db, session)
        | some p ↦ execute_values io p (values_of session.variables using) (db, session)
      ]
  execute_parsed io text (Statement.deallocate_prepared name) (db, session) =
      elim (find name session.prepared) [
        | none ↦ (ExecutionResult.error unknown_prepared, db, session)
        | some _ ↦ (zero_rows, db, record session { prepared = remove name session.prepared })
      ]
  execute_parsed io text s state = run_durable e c io (DurableStatement.sql (e.trim text)) s state

  parsed_execute :
      Io Line → Text → Session Tables → Result DbError Statement × Database Line Tables → Reply e c
  unfolding execute_parsed
  parsed_execute io text session (err x, db) = (ExecutionResult.error x, db, session)
  parsed_execute io text session (ok s, db) = execute_parsed io text s (db, session)

  unfoldable pub execute : Io Line → Text → State e c → Reply e c
  unfolding parsed_execute
  execute io text (db, session) = parsed_execute io text session (parse_cached e c text db)
