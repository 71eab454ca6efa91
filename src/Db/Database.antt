-- ===== src/Db/Database.antt =====
-- src/sql/database.rs: the database, its commits in autocommit mode, and its snapshots.
-- `Io` is what the file system and the clock do during one operation.
use rusty_db.Prelude.{
  ℕ, Bool, true, false, ◌&&◌, ◌||◌, not, Option, none, some, List, [], ◌∷◌, ◌++◌, Result, ok, err,
  if◌then◌else◌, saturating_add,
}
use rusty_db.Sql.Types.{Text}
use rusty_db.Sql.Statement.{
  Statement, is_write_statement, is_schema_statement, is_transaction_control, is_session_statement,
}
use rusty_db.Kv.Persistence.{WriteOutcome, written, write_failed, joined, sync_failed, replace_last}
use rusty_db.Db.Catalog.{
  Catalog, DbError, wal_write, wal_sync, snapshot_failed, requires_session, Engine, ExecutionResult,
  execute_catalog,
}
use rusty_db.Db.Log.{
  Codec, Disk, DurableStatement, sql, new_record, CatalogSnapshot, catalog_format_version,
  bump_schema,
}
use rusty_db.Db.PlanCache
use rusty_db.Db.PlanCache.{PlanCache}

pub record Database (Line Tables : Type 0) : Type 0 where
  pub catalog : Catalog Tables
  pub disk : Disk Line
  -- whether `wal` holds a file
  pub wal_open : Bool
  pub plan_cache : PlanCache
  pub auto_save : Bool

pub data SaveStep : Type 0 where
  create_file write_file sync_file rename_file create_archive archive_wal reopen_wal : SaveStep

-- The outcome of the append to the log, and which step of a snapshot fails.
pub record Io (Line : Type 0) : Type 0 where
  pub now_millis : ℕ
  pub append : WriteOutcome Line
  pub fails : SaveStep → Bool

abbrev pub Outcome : Type 0 → Type 0 → Type 0
Outcome Line Tables = Result DbError (Unit {0}) × Database Line Tables

module _ {Line Tables Answer : Type 0} (e : Engine Tables Answer) (c : Codec Line Tables) where
  abbrev pub extend_wal : List Line → Database Line Tables → Database Line Tables
  extend_wal lines db = record db { disk = record db.disk { wal = db.disk.wal ++ lines } }

  unfoldable pub append_line : WriteOutcome Line → Line → Database Line Tables → Outcome Line Tables
  unfolding replace_last
  append_line written line db = (ok tt, extend_wal (line ∷ []) db)
  append_line (write_failed torn) line db = (err wal_write, extend_wal torn db)
  append_line (joined longer) line db =
      (ok tt, record db { disk = record db.disk { wal = replace_last longer db.disk.wal } })
  append_line sync_failed line db = (err wal_sync, extend_wal (line ∷ []) db)

  unfoldable pub log_transaction :
      Io Line → ℕ → ℕ → List DurableStatement → Database Line Tables → Outcome Line Tables
  unfolding append_line new_record
  log_transaction io base commit statements db =
      if db.wal_open
      then append_line io.append
          (c.print_record (new_record e c base commit io.now_millis statements)) db
      else (ok tt, db)

  abbrev pub snapshot_of : Io Line → Catalog Tables → CatalogSnapshot Tables
  snapshot_of io k = record {
    format_version = catalog_format_version;
    catalog_version = k.version;
    schema_version = k.schema_version;
    timestamp_millis = io.now_millis;
    tables = k.tables;
  }

  unfoldable pub publish : Io Line → Database Line Tables → Database Line Tables
  publish io db = record db {
    disk = record db.disk { catalog_json = some (c.print_catalog (snapshot_of io db.catalog)) };
  }

  unfoldable pub reopen : Io Line → Database Line Tables → Outcome Line Tables
  reopen io db =
      if io.fails reopen_wal
      then (err snapshot_failed, db)
      else (ok tt, record db { wal_open = true })

  abbrev pub move_wal : Database Line Tables → Database Line Tables
  move_wal db = record db {
    disk = record db.disk { wal = []; wal_archive = db.disk.wal_archive ++ db.disk.wal ∷ [] };
  }

  unfoldable pub archive : Io Line → List Line → Database Line Tables → Outcome Line Tables
  unfolding reopen
  archive io [] db = reopen io db
  archive io (_ ∷ _) db =
      if io.fails create_archive || io.fails archive_wal
      then (err snapshot_failed, db)
      else reopen io (move_wal db)

  -- The handle is dropped first, and set again by the last step.
  unfoldable pub truncate_wal : Io Line → Database Line Tables → Outcome Line Tables
  unfolding archive
  truncate_wal io db =
      if db.wal_open then archive io db.disk.wal (record db { wal_open = false }) else (ok tt, db)

  unfoldable pub save : Io Line → Database Line Tables → Outcome Line Tables
  unfolding truncate_wal publish
  save io db =
      if not db.auto_save
      then (ok tt, db)
      else if io.fails create_file
          || io.fails write_file
          || io.fails sync_file
          || io.fails rename_file
      then (err snapshot_failed, db)
      else truncate_wal io (publish io db)

  abbrev pub Reply : Type 0
  Reply = ExecutionResult Answer × Database Line Tables

  -- A statement that changed the schema is committed, whether or not the snapshot succeeds.
  unfoldable pub saved : ExecutionResult Answer → Outcome Line Tables → Reply
  saved r (ok _, db) = (r, db)
  saved r (err x, db) = (ExecutionResult.error x, db)

  -- From the outcome of the log on: the working copy becomes the catalog.
  unfoldable pub install :
      Io Line → Bool → Catalog Tables → ExecutionResult Answer → Outcome Line Tables → Reply
  unfolding saved save
  install io schema working r (err x, db) = (ExecutionResult.error x, db)
  install io schema working r (ok _, db) =
      let db' = record db { catalog = working } in
      if schema && db'.auto_save then saved r (save io db') else (r, db')

  -- The working copy of a commit, with the versions it gets.
  unfoldable pub next_catalog : Bool → Tables → Catalog Tables → Catalog Tables
  next_catalog schema t k = record (bump_schema e c schema k) {
    version = saturating_add k.version 1;
    tables = t;
  }

  unfoldable pub commit_result :
      Io Line
      → DurableStatement
      → Statement
      → Database Line Tables
      → ExecutionResult Answer × Tables
      → Reply
  unfolding install log_transaction next_catalog
  commit_result io durable s db (ExecutionResult.error x, t) = (ExecutionResult.error x, db)
  commit_result io durable s db (r, t) =
      let working = next_catalog (is_schema_statement s) t db.catalog in
      install io (is_schema_statement s) working r
        (log_transaction io db.catalog.version working.version (durable ∷ []) db)

  unfoldable pub execute_autocommit_durable :
      Io Line → DurableStatement → Statement → Database Line Tables → Reply
  unfolding commit_result
  execute_autocommit_durable io durable s db =
      if is_write_statement s
      then commit_result io durable s db (execute_catalog e s db.catalog.tables)
      else ((execute_catalog e s db.catalog.tables).0, db)

  -- A statement that is not in the cache is parsed, optimized and put there.
  unfoldable pub parsed :
      Text
      → ℕ
      → Database Line Tables
      → Result DbError Statement
      → Result DbError Statement × Database Line Tables
  parsed key version db (err x) = (err x, db)
  parsed key version db (ok s) = (
    ok (e.optimize s),
    record db { plan_cache = PlanCache.insert key version (e.optimize s) db.plan_cache },
  )

  unfoldable pub cached :
      Text
      → Database Line Tables
      → Option Statement × PlanCache
      → Result DbError Statement × Database Line Tables
  unfolding parsed
  cached key db (some s, cache) = (ok s, record db { plan_cache = cache })
  cached key db (none, cache) =
      parsed key db.catalog.schema_version (record db { plan_cache = cache }) (e.parse_sql key)

  unfoldable pub parse_cached :
      Text → Database Line Tables → Result DbError Statement × Database Line Tables
  unfolding cached
  parse_cached text db =
      cached (e.normalize text) db
        (PlanCache.get (e.normalize text) db.catalog.schema_version db.plan_cache)

  executed : Io Line → Text → Result DbError Statement × Database Line Tables → Reply
  unfolding execute_autocommit_durable
  executed io text (err x, db) = (ExecutionResult.error x, db)
  executed io text (ok s, db) =
      if is_transaction_control s || is_session_statement s
      then (ExecutionResult.error requires_session, db)
      else execute_autocommit_durable io (sql (e.trim text)) s db

  unfoldable pub execute : Io Line → Text → Database Line Tables → Reply
  unfolding executed parse_cached
  execute io text db = executed io text (parse_cached text db)
