-- ===== src/Db/Calls.antt =====
-- src/sql/database.rs: each call of a session keeps the system sound.
use rusty_db.Prelude.{
  true, ℕ, false, Option, none, some, [], Bool-cases, inl, inr, ◌==◌, ==→eq, ◌≡◌, refl, sym, subst,
  ap, arith,
}
use rusty_db.Sql.Statement.{is_schema_statement, Statement}
use rusty_db.Db.Catalog.{
  Catalog, already_active, serialization_conflict, Engine, EngineLaws, ExecutionResult,
  execute_catalog,
}
use rusty_db.Db.Log.{Codec, DurableStatement}
use rusty_db.Db.Database.{
  Database, Io, save, next_catalog, execute_autocommit_durable, log_transaction,
}
use rusty_db.Db.Session.{
  TransactionState, Session, begin, commit, run_durable, execute_in, commit_state, committed,
  is_empty, clear_if,
}
use rusty_db.Db.Durable.{CodecLaws, RunsTo}
use rusty_db.Db.Runs.{IsFaithful, nil-RunsTo}
use rusty_db.Db.Commit.{IsStable, Keeps, save-Keeps, save-catalog, logged-Keeps, next_version}
use rusty_db.Db.Autocommit.{
  autocommit_record, autocommit-IsAfter, IsAfter, unchanged-IsAfter, not_newer,
}
use rusty_db.Db.System.{
  System, seen, commit_record, statement_record, CanWrite, IsLinked, IsSound, after_call,
}
use rusty_db.Db.Linked.{noted-IsLinked, Grows, call-Grows, clear-IsAfter, is_empty-nil}

module _ {Line Tables Answer : Type 0} (e : Engine Tables Answer) (c : Codec Line Tables) where
  module _ (engine : EngineLaws e) (laws : CodecLaws c) where
    pub statement-Grows :
        (i : ℕ) (io : Io Line) (d : DurableStatement) (s : Statement) (sys : System Line Tables)
        (transaction : Option (TransactionState Tables))
        → (sys.sessions i).transaction ≡ transaction
        → CanWrite e c io sys.database
        → IsFaithful e c d s (seen e c transaction sys.database)
        → (is_schema_statement s ≡ true
            → IsStable e c (execute_catalog e s (seen e c transaction sys.database)).1)
        → IsLinked e c sys.database transaction
        → IsSound e c sys
        → Grows e c
            (statement_record e c transaction d s sys.database)
            sys
            (after_call e c i (run_durable e c io d s (sys.database, sys.sessions i)) sys)
    unfolding run_durable statement_record IsSound IsLinked
    statement-Grows i io d s sys none at (good, opened, below) faithful stable l (keeps, linked) =
        rw at (
          call-Grows e c (autocommit_record e c d s sys.database.catalog.tables) sys i
            (execute_autocommit_durable e c io d s sys.database).0
            (execute_autocommit_durable e c io d s sys.database).1
            (record (sys.sessions i) { transaction = none }) (keeps, linked)
            (autocommit-IsAfter e c laws io d s sys.database good opened below faithful stable
              keeps)
            tt)
    statement-Grows i io d s sys (some state) at can faithful stable l (keeps, linked) = rw at (
        call-Grows e c [] sys i (execute_catalog e s state.catalog.tables).0 sys.database
          (record (sys.sessions i) { transaction = some (execute_in e c d s state) })
          (keeps, linked) (unchanged-IsAfter e c sys.database keeps)
          (noted-IsLinked e c engine sys.database d s state faithful l))

    -- The catalog that a commit installs.
    abbrev next_of : TransactionState Tables → Database Line Tables → Catalog Tables
    next_of state db = next_catalog e c state.schema_changed state.catalog.tables db.catalog

    written-Grows :
        (i : ℕ) (io : Io Line) (sys : System Line Tables) (session : Session Tables)
        (state : TransactionState Tables)
        → CanWrite e c io sys.database
        → state.base_version ≡ sys.database.catalog.version
        → IsLinked e c sys.database (some state)
        → IsSound e c sys
        → Grows e c state.statements sys (
            after_call e c i
              (committed e c
                (record state { catalog = next_of state sys.database })
                session
                (log_transaction e c io state.base_version
                  (next_of state sys.database).version
                  state.statements
                  sys.database))
              sys)
    unfolding committed IsSound IsLinked
    written-Grows i io sys session state (good, opened, below) same (base, ran, at, eq)
          (keeps, linked) =
        let db = sys.database in
        let next = next_of state db in
        let (newer, et) =
          next_version e c laws state.schema_changed state.catalog.tables db.catalog below in
        let runs : RunsTo e c state.statements db.catalog.tables next.tables =
          rw et (subst (λ t. RunsTo e c state.statements t state.catalog.tables) (eq same) ran) in
        let (db₁, logged, kept) =
          logged-Keeps e c laws io db next state.statements good opened keeps newer runs in
        rw (same, logged)
          (call-Grows e c state.statements sys i ExecutionResult.transaction_committed
            (clear_if e c state.schema_changed (record db₁ { catalog = next }))
            (record session { transaction = none }) (keeps, linked)
            (clear-IsAfter e c state.schema_changed state.statements db
              (record db₁ { catalog = next })
              (kept, runs, omega arith, λ now. elim (not_newer _ _ newer now) [ ]))
            tt)

    commit_state-Grows :
        (i : ℕ) (io : Io Line) (sys : System Line Tables) (session : Session Tables)
        (state : TransactionState Tables)
        → CanWrite e c io sys.database
        → IsLinked e c sys.database (some state)
        → IsSound e c sys
        → Grows e c
            (commit_record e c (some state) sys.database)
            sys
            (after_call e c i (commit_state e c io state (sys.database, session)) sys)
    unfolding commit_state commit_record IsSound IsLinked
    commit_state-Grows i io sys session state (good, opened, below) (base, ran, at, eq)
          (keeps, linked) =
        elim (Bool-cases (sys.database.catalog.version == state.base_version)) [
          | inr conflict ↦ rw conflict (
              call-Grows e c [] sys i (ExecutionResult.error serialization_conflict) sys.database
                (record session { transaction = none }) (keeps, linked)
                (unchanged-IsAfter e c sys.database keeps) tt)
          | inl current ↦ elim (Bool-cases (is_empty e c state.statements)) [
            | inl empty ↦
                rw (current, empty, is_empty-nil e c state.statements empty)
                  (call-Grows e c [] sys i ExecutionResult.transaction_committed sys.database
                    (record session { transaction = none }) (keeps, linked)
                    (unchanged-IsAfter e c sys.database keeps) tt)
            | inr some_statements ↦
                rw (current, some_statements)
                  (written-Grows i io sys session state (good, opened, below)
                    (sym (==→eq _ _ current)) (base, ran, at, eq) (keeps, linked))
          ]
        ]

    pub commit-Grows :
        (i : ℕ) (io : Io Line) (sys : System Line Tables)
        (transaction : Option (TransactionState Tables))
        → (sys.sessions i).transaction ≡ transaction
        → CanWrite e c io sys.database
        → IsLinked e c sys.database transaction
        → IsSound e c sys
        → Grows e c
            (commit_record e c transaction sys.database)
            sys
            (after_call e c i (commit e c io (sys.database, sys.sessions i)) sys)
    unfolding commit commit_record IsSound IsLinked
    commit-Grows i io sys none at can l (keeps, linked) = rw at (
        call-Grows e c [] sys i ExecutionResult.transaction_committed sys.database
          (record (sys.sessions i) { transaction = none }) (keeps, linked)
          (unchanged-IsAfter e c sys.database keeps) tt)
    commit-Grows i io sys (some state) at can l sound = rw at (
        commit_state-Grows i io sys (record (sys.sessions i) { transaction = some state }) state can
          l sound)

    pub begin-Grows :
        (i : ℕ) (sys : System Line Tables) (transaction : Option (TransactionState Tables))
        → (sys.sessions i).transaction ≡ transaction
        → IsLinked e c sys.database transaction
        → IsSound e c sys
        → Grows e c [] sys (after_call e c i (begin e c (sys.database, sys.sessions i)) sys)
    unfolding begin IsSound IsLinked
    begin-Grows i sys none at l (keeps, linked) = rw at (
        call-Grows e c [] sys i ExecutionResult.transaction_started sys.database
          (record (sys.sessions i) {
            transaction = some (record {
              base_version = sys.database.catalog.version;
              catalog = sys.database.catalog;
              statements = [];
              schema_changed = false;
            });
          })
          (keeps, linked) (unchanged-IsAfter e c sys.database keeps)
          (
            sys.database.catalog.tables,
            nil-RunsTo e c sys.database.catalog.tables,
            omega arith,
            (λ _. refl),
          ))
    begin-Grows i sys (some state) at l (keeps, linked) = rw at (
        call-Grows e c [] sys i (ExecutionResult.error already_active) sys.database
          (record (sys.sessions i) { transaction = some state }) (keeps, linked)
          (unchanged-IsAfter e c sys.database keeps) l)

    pub checkpoint-IsAfter :
        (io : Io Line) (db : Database Line Tables)
        → IsStable e c db.catalog.tables
        → Keeps e c db
        → IsAfter e c [] db (save e c io db).1
    checkpoint-IsAfter io db stable keeps =
        let same = save-catalog e c laws io db in
        (
          save-Keeps e c laws io db stable keeps,
          rw same (nil-RunsTo e c db.catalog.tables),
          rw same (omega arith),
          λ _. ap (λ k. k.tables) (sym same),
        )
