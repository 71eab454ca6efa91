-- ===== src/Db/Examples.antt =====
-- The theorems on the database at concrete inputs: a database whose tables are one counter.
use rusty_db.Prelude.{
  ℕ, ◌+◌, Bool, true, false, Option, none, some, List, [], ◌∷◌, Result, ok, err, ◌≡◌, refl, arith,
}
use rusty_db.Sql.Types.{Text}
use rusty_db.Sql.Expr.{no_expr}
use rusty_db.Sql.Statement.{Statement, InsertSource, is_write_statement, is_schema_statement}
use rusty_db.Kv.Persistence.{written, sync_failed}
use rusty_db.Db.Catalog.{
  Catalog, DbError, parse_error, Engine, EngineLaws, ExecutionResult, wal_sync, snapshot_failed,
  execute_catalog,
}
use rusty_db.Db.Log.{
  Codec, DurableStatement, bound, sql, Disk, WalRecord, CatalogSnapshot, open_catalog,
  durable_statement,
}
use rusty_db.Db.PlanCache.{PlanCache}
use rusty_db.Db.PlanCache.Bounded.{IsBounded}
use rusty_db.Db.Plans.{AllPlans, parse_plain, parse_cached-parse_plain, parse_cached-IsBounded}
use rusty_db.Db.Database.{
  Database, Io, SaveStep, archive_wal, save, execute_autocommit_durable, parse_cached,
}
use rusty_db.Db.Durable.{CodecLaws, IsDurable, IsSame, RunsTo}
use rusty_db.Db.Faults.{autocommit-reads_back, commit_lost_after_failed_sync, acknowledged_unlogged}

-- A line is what was printed to it.
data Line : Type 0 where
  record_line : WalRecord → Line
  catalog_line : CatalogSnapshot ℕ → Line

-- An INSERT adds one, a DELETE leaves nothing.
count_statement : Statement → ℕ → ExecutionResult ℕ × ℕ
count_statement (Statement.insert _ _ _ _) n = (ExecutionResult.rows_affected 1, n + 1)
count_statement (Statement.delete _ _) n = (ExecutionResult.rows_affected n, 0)
count_statement s n = (ExecutionResult.answer n, n)

abbrev insert_one : Statement
insert_one = Statement.insert [] none (InsertSource.values []) []

abbrev delete_all : Statement
delete_all = Statement.delete [] no_expr

-- A text starting with `d` is a DELETE, and the optimizer takes a DELETE for an INSERT.
parse_text : Text → Result DbError Statement
parse_text [] = err (parse_error [])
parse_text (c ∷ _) = ok delete_all

swap_delete : Statement → Statement
swap_delete (Statement.delete _ _) = insert_one
swap_delete s = s

abbrev engine : Engine ℕ ℕ
unfolding count_statement parse_text swap_delete
engine = record {
  execute_statement = count_statement;
  validate_catalog = λ n. none;
  from_tables = λ n. n;
  parse_sql = parse_text;
  optimize = swap_delete;
  trim = λ t. t;
  normalize = λ t. t;
}

read_record : Line → Option WalRecord
read_record (record_line r) = some r
read_record (catalog_line s) = none

read_catalog : List Line → Option (CatalogSnapshot ℕ)
read_catalog (catalog_line s ∷ _) = some s
read_catalog _ = none

abbrev codec : Codec Line ℕ
unfolding read_record read_catalog
codec = record {
  parse_record = read_record;
  print_record = record_line;
  parse_legacy = λ l. none;
  line_text = λ l. [];
  is_blank = λ l. false;
  wal_checksum = λ b k now ds. 0;
  legacy_wal_checksum = λ b k ds. 0;
  parse_catalog = read_catalog;
  print_catalog = λ s. catalog_line s ∷ [];
  is_exact = λ d. true;
  has_exact_floats = λ n. true;
  legacy_tables = ok 0;
}

codec_laws : CodecLaws codec
unfolding codec read_record read_catalog
codec_laws = record {
  parse_print_record = λ r h. refl;
  record_not_blank = λ r. refl;
  parse_print_catalog = λ s h. refl;
}

count_keeps :
    (s : Statement) (n : ℕ) → is_write_statement s ≡ false → (engine.execute_statement s n).1 ≡ n
unfolding engine count_statement is_write_statement
count_keeps (Statement.insert _ _ _ _) n h = ground arith
count_keeps (Statement.delete _ _) n h = ground arith
count_keeps s n h = refl

engine_laws : EngineLaws engine
unfolding engine
engine_laws = record { read_keeps = count_keeps; parse_trim = λ t. refl }

abbrev calm : Io Line
calm = record { now_millis = 7; append = written; fails = λ s. false }

abbrev no_sync : Io Line
no_sync = record calm { append = sync_failed }

archive_fails : SaveStep → Bool
archive_fails archive_wal = true
archive_fails _ = false

abbrev stuck : Io Line
stuck = record calm { fails = archive_fails }

abbrev no_plans : PlanCache
no_plans = record { capacity = 1; clock = 0; entries = [] }

abbrev empty_disk : Disk Line
empty_disk = record { catalog_json = none; wal = []; wal_archive = [] }

abbrev empty_database : Database Line ℕ
empty_database = record {
  catalog = record { version = 0; schema_version = 0; tables = 0 };
  disk = empty_disk;
  wal_open = true;
  plan_cache = no_plans;
  auto_save = true;
}

empty_database-IsDurable : IsDurable engine codec empty_disk empty_database.catalog
unfolding IsDurable engine codec rusty_db.Db.Log.load_catalog rusty_db.Db.Durable.Replays
    rusty_db.Db.Durable.IsApplied
empty_database-IsDurable = (
  empty_database.catalog,
  empty_database.catalog,
  refl,
  λ more. refl,
  (refl, refl),
  λ k' le more. refl,
)

autocommit-reads_back_example :
    ((execute_autocommit_durable engine codec calm (sql (b'd' ∷ [])) insert_one empty_database).0
      ≡ ExecutionResult.rows_affected 1)
    × ((execute_autocommit_durable engine codec calm
          (sql (b'd' ∷ []))
          insert_one
          empty_database).1.catalog.tables
        ≡ 1)
    × ((k : Catalog ℕ) × (open_catalog engine codec
            (execute_autocommit_durable engine codec calm
              (sql (b'd' ∷ []))
              insert_one
              empty_database).1.disk
          ≡ ok k)
        × (k.tables ≡ 0))
unfolding engine codec durable_statement is_write_statement execute_catalog is_schema_statement
autocommit-reads_back_example =
    autocommit-reads_back engine codec codec_laws calm (sql (b'd' ∷ [])) insert_one delete_all
      empty_database (ExecutionResult.rows_affected 1) (ExecutionResult.rows_affected 0) 1 0
      empty_database-IsDurable (omega arith) refl refl refl refl refl refl refl refl refl refl

abbrev first_reply : ExecutionResult ℕ × Database Line ℕ
first_reply =
    execute_autocommit_durable engine codec no_sync (bound insert_one) insert_one empty_database

abbrev second_reply : ExecutionResult ℕ × Database Line ℕ
second_reply =
    execute_autocommit_durable engine codec calm (bound delete_all) delete_all first_reply.1

commit_lost_after_failed_sync_example :
    (first_reply.0 ≡ ExecutionResult.error wal_sync)
    × (second_reply.0 ≡ ExecutionResult.rows_affected 0)
    × (second_reply.1.catalog.tables ≡ 0)
    × ((k : Catalog ℕ) × (open_catalog engine codec second_reply.1.disk ≡ ok k) × (k.tables ≡ 1))
unfolding engine codec durable_statement is_write_statement execute_catalog is_schema_statement
commit_lost_after_failed_sync_example =
    commit_lost_after_failed_sync engine codec codec_laws no_sync calm (bound insert_one)
      (bound delete_all) insert_one delete_all empty_database (ExecutionResult.rows_affected 1)
      (ExecutionResult.rows_affected 0) 1 0 empty_database-IsDurable (omega arith) refl refl refl
      refl refl refl refl refl refl refl refl refl refl refl

abbrev old_line : Line
old_line = catalog_line (record {
  format_version = 1;
  catalog_version = 0;
  schema_version = 0;
  timestamp_millis = 0;
  tables = 0;
})

abbrev logged_database : Database Line ℕ
logged_database = record empty_database { disk = record empty_disk { wal = old_line ∷ [] } }

abbrev stuck_save : Result DbError (Unit {0}) × Database Line ℕ
stuck_save = save engine codec stuck logged_database

abbrev unlogged_reply : ExecutionResult ℕ × Database Line ℕ
unlogged_reply =
    execute_autocommit_durable engine codec calm (bound insert_one) insert_one stuck_save.1

acknowledged_unlogged_example :
    (stuck_save.0 ≡ err snapshot_failed)
    × (unlogged_reply.0 ≡ ExecutionResult.rows_affected 1)
    × (unlogged_reply.1.catalog.tables ≡ 1)
    × (unlogged_reply.1.disk ≡ stuck_save.1.disk)
unfolding engine codec is_write_statement execute_catalog is_schema_statement archive_fails
acknowledged_unlogged_example =
    acknowledged_unlogged engine codec stuck calm (bound insert_one) insert_one logged_database
      (ExecutionResult.rows_affected 1) 1 old_line [] refl refl refl refl refl refl refl refl refl

abbrev after_parse : Database Line ℕ
after_parse = (parse_cached engine codec (b'd' ∷ []) empty_database).1

parse_cached-parse_plain_example :
    ((parse_cached engine codec (b'd' ∷ []) empty_database).0
      ≡ parse_plain engine codec (b'd' ∷ []))
    × AllPlans engine codec after_parse.plan_cache.entries
    × (after_parse.catalog ≡ empty_database.catalog)
    × (after_parse.disk ≡ empty_database.disk)
unfolding AllPlans
parse_cached-parse_plain_example =
    parse_cached-parse_plain engine codec (b'd' ∷ []) empty_database tt

parse_cached-IsBounded_example : IsBounded after_parse.plan_cache
unfolding IsBounded
parse_cached-IsBounded_example =
    parse_cached-IsBounded engine codec (b'd' ∷ []) empty_database (omega arith)
