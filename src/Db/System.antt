-- ===== src/Db/System.antt =====
-- src/sql/database.rs: several sessions on one database, one call after the other, as the locks make
-- them.
use rusty_db.Prelude.{
  ℕ, ◌<◌, ◌≤◌, true, Option, none, some, List, [], ◌∷◌, ◌++◌, if◌then◌else◌, u64_max, ◌==◌, ◌≡◌,
}
use rusty_db.Sql.Statement.{is_schema_statement, Statement}
use rusty_db.Kv.Persistence.{written}
use rusty_db.Db.Catalog.{execute_catalog, Engine}
use rusty_db.Db.Log.{Codec, DurableStatement}
use rusty_db.Db.Database.{Database, Io, save}
use rusty_db.Db.Session.{TransactionState, Session, Reply, begin, commit, rollback, run_durable}
use rusty_db.Db.Durable.{RunsTo}
use rusty_db.Db.Runs.{IsFaithful}
use rusty_db.Db.Commit.{IsStable, Keeps}
use rusty_db.Db.Autocommit.{autocommit_record}

pub record System (Line Tables : Type 0) : Type 0 where
  pub database : Database Line Tables
  pub sessions : ℕ → Session Tables

-- A call in the session of a number, or a checkpoint.
pub data Command (Line : Type 0) : Type 0 where
  begin_in : ℕ → Command Line
  statement_in : ℕ → Io Line → DurableStatement → Statement → Command Line
  commit_in : ℕ → Io Line → Command Line
  rollback_in : ℕ → Command Line
  checkpoint : Io Line → Command Line

module _ {Line Tables Answer : Type 0} (e : Engine Tables Answer) (c : Codec Line Tables) where
  abbrev pub set_session : ℕ → Session Tables → (ℕ → Session Tables) → ℕ → Session Tables
  set_session i session sessions j = if i == j then session else sessions j

  abbrev pub after_call : ℕ → Reply e c → System Line Tables → System Line Tables
  after_call i (r, db, session) sys = record {
    database = db;
    sessions = set_session i session sys.sessions;
  }

  unfoldable pub step : Command Line → System Line Tables → System Line Tables
  unfolding begin commit rollback run_durable save
  step (begin_in i) sys = after_call i (begin e c (sys.database, sys.sessions i)) sys
  step (statement_in i io d s) sys =
      after_call i (run_durable e c io d s (sys.database, sys.sessions i)) sys
  step (commit_in i io) sys = after_call i (commit e c io (sys.database, sys.sessions i)) sys
  step (rollback_in i) sys = after_call i (rollback e c (sys.database, sys.sessions i)) sys
  step (checkpoint io) sys = record sys { database = (save e c io sys.database).1 }

  unfoldable pub run : List (Command Line) → System Line Tables → System Line Tables
  unfolding step
  run [] sys = sys
  run (command ∷ rest) sys = run rest (step command sys)

  -- The tables that a session sees.
  abbrev pub seen : Option (TransactionState Tables) → Database Line Tables → Tables
  seen none db = db.catalog.tables
  seen (some state) db = state.catalog.tables

  unfoldable pub commit_record :
      Option (TransactionState Tables) → Database Line Tables → List DurableStatement
  commit_record none db = []
  commit_record (some state) db =
      if db.catalog.version == state.base_version then state.statements else []

  unfoldable pub statement_record :
      Option (TransactionState Tables)
      → DurableStatement
      → Statement
      → Database Line Tables
      → List DurableStatement
  unfolding autocommit_record
  statement_record none d s db = autocommit_record e c d s db.catalog.tables
  statement_record (some state) d s db = []

  -- The statements that a call commits: those of a transaction whose base version is the current
  -- one, or the statement in autocommit mode.
  unfoldable pub committed_by : Command Line → System Line Tables → List DurableStatement
  unfolding commit_record statement_record
  committed_by (commit_in i io) sys = commit_record (sys.sessions i).transaction sys.database
  committed_by (statement_in i io d s) sys =
      statement_record (sys.sessions i).transaction d s sys.database
  committed_by _ sys = []

  unfoldable pub history : List (Command Line) → System Line Tables → List DurableStatement
  unfolding committed_by step
  history [] sys = []
  history (command ∷ rest) sys = committed_by command sys ++ history rest (step command sys)

  -- The log is open and takes its write, and the version has room. What `IsAllowed` asks beyond that:
  -- a statement is read back from the log as it was executed, and the tables of which a snapshot is
  -- taken are stable.
  abbrev pub CanWrite : Io Line → Database Line Tables → Type 0
  CanWrite io db = (io.append ≡ written) × (db.wal_open ≡ true) × (db.catalog.version < u64_max)

  unfoldable pub IsAllowed : Command Line → System Line Tables → Type 0
  unfolding IsFaithful
  IsAllowed (statement_in i io d s) sys =
      CanWrite io sys.database
      × IsFaithful e c d s (seen (sys.sessions i).transaction sys.database)
      × (is_schema_statement s ≡ true
          → IsStable e c (execute_catalog e s (seen (sys.sessions i).transaction sys.database)).1)
  IsAllowed (checkpoint io) sys = IsStable e c sys.database.catalog.tables
  IsAllowed (commit_in i io) sys = CanWrite io sys.database
  IsAllowed _ sys = Unit {0}

  unfoldable pub AllAllowed : List (Command Line) → System Line Tables → Type 0
  unfolding IsAllowed step
  AllAllowed [] sys = Unit {0}
  AllAllowed (command ∷ rest) sys = IsAllowed command sys × AllAllowed rest (step command sys)

  -- A transaction's statements lead from the tables of its base version to those it sees, and its
  -- base version is the current one only if its base tables are the current ones.
  unfoldable pub IsLinked : Database Line Tables → Option (TransactionState Tables) → Type 0
  unfolding RunsTo
  IsLinked db none = Unit {0}
  IsLinked db (some state) =
      (base : Tables) × RunsTo e c state.statements base state.catalog.tables
      × (state.base_version ≤ db.catalog.version)
      × (state.base_version ≡ db.catalog.version → base ≡ db.catalog.tables)

  unfoldable pub IsSound : System Line Tables → Type 0
  unfolding IsLinked
  IsSound sys =
      Keeps e c sys.database × ((i : ℕ) → IsLinked sys.database (sys.sessions i).transaction)
