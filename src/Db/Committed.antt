-- ===== src/Db/Committed.antt =====
-- The theorem on the order of commits at a concrete input: two sessions of a database with the
-- tables of src/sql/executor.rs, on which statements are executed by `execute_statement`.
use rusty_db.Prelude.{ℕ, ◌+◌, true, false, Option, none, some, List, [], ◌∷◌, ok, err}
use rusty_db.Prelude.Int.{pos}
use rusty_db.Sql.Number.{Runtime}
use rusty_db.Sql.Types.{Text, Value, DataType}
use rusty_db.Sql.Expr.{Query, literal, no_exprs, cons_expr}
use rusty_db.Sql.Operators.{Relation, Evaluated, query_error}
use rusty_db.Sql.Statement.{Statement, ColumnDef, InsertSource, unique}
use rusty_db.Table.Bloom.{IndexRuntime}
use rusty_db.Table.Validate.{Tables}
use rusty_db.Kv.Persistence.{written}
use rusty_db.Db.Catalog.{Catalog, parse_error, Engine, ExecutionResult}
use rusty_db.Db.Log.{Codec, DurableStatement, bound, Disk, WalRecord, CatalogSnapshot}
use rusty_db.Db.Database.{Database, Io}
use rusty_db.Db.System.{System, Command, begin_in, statement_in, commit_in, checkpoint}
use rusty_db.Db.Executor.{Answer, Parameters, executor}

abbrev toy : Runtime
toy = record {
  float_add = λ a b. a + b;
  float_sub = λ a b. a;
  float_mul = λ a b. a;
  float_div = λ a b. a;
  float_of_int = λ n. 7;
  int_of_float = λ x. pos x;
  to_lowercase = λ t. t;
}

abbrev small : IndexRuntime
small = record {
  raw_bit_count = λ n rate. 64;
  raw_hash_count = λ bits n. 1;
  clamp_rate = λ rate. rate;
  debug_bytes = λ key. b'k' ∷ [];
  display = λ v. [];
}

abbrev parameters : Parameters
parameters = record {
  execute_alter_table = λ name operations tables. (ExecutionResult.rows_affected 0, tables);
  explain_statement = λ tables s. [];
  message = λ e. [];
  parse_sql = λ t. err (parse_error t);
  optimize = λ s. s;
  trim = λ t. t;
  normalize = λ t. t;
}

abbrev no_queries : Tables → Query → Evaluated Relation
no_queries tables q = err (query_error [])

abbrev engine : Engine Tables Answer
engine = executor parameters toy small no_queries

-- A line is what was printed to it.
data Line : Type 0 where
  record_line : WalRecord → Line
  catalog_line : CatalogSnapshot Tables → Line

read_record : Line → Option WalRecord
read_record (record_line r) = some r
read_record (catalog_line s) = none

read_catalog : List Line → Option (CatalogSnapshot Tables)
read_catalog (catalog_line s ∷ _) = some s
read_catalog _ = none

abbrev codec : Codec Line Tables
unfolding read_record read_catalog
codec = record {
  parse_record = read_record;
  print_record = record_line;
  parse_legacy = λ l. none;
  line_text = λ l. [];
  is_blank = λ l. false;
  wal_checksum = λ b k now ds. 0;
  legacy_wal_checksum = λ b k ds. 0;
  parse_catalog = read_catalog;
  print_catalog = λ s. catalog_line s ∷ [];
  is_exact = λ d. true;
  has_exact_floats = λ tables. true;
  legacy_tables = ok [];
}

abbrev calm : Io Line
calm = record { now_millis = 7; append = written; fails = λ s. false }

abbrev number : ColumnDef
number = record {
  name = b'a' ∷ [];
  data_type = DataType.integer;
  nullable = true;
  primary_key = false;
  unique = false;
  default = none;
  checks = [];
}

-- `CREATE TABLE t (a INTEGER, UNIQUE (a))`
abbrev create_t : Statement
create_t =
    Statement.create_table (b't' ∷ []) (number ∷ []) (unique none ((b'a' ∷ []) ∷ []) ∷ []) false

-- `INSERT INTO t VALUES (n)`
abbrev insert_t : ℕ → Statement
insert_t n =
    Statement.insert (b't' ∷ []) none
      (InsertSource.values (cons_expr (literal (Value.integer (pos n))) no_exprs ∷ [])) []

abbrev empty_disk : Disk Line
empty_disk = record { catalog_json = none; wal = []; wal_archive = [] }

abbrev empty_database : Database Line Tables
empty_database = record {
  catalog = record { version = 0; schema_version = 0; tables = [] };
  disk = empty_disk;
  wal_open = true;
  plan_cache = record { capacity = 1; clock = 0; entries = [] };
  auto_save = true;
}

abbrev two_sessions : System Line Tables
two_sessions = record {
  database = empty_database;
  sessions = λ i. record { transaction = none; variables = []; prepared = [] };
}

-- A transaction that loses against a statement of the other session, and then succeeds.
abbrev conflict_and_retry : List (Command Line)
conflict_and_retry =
    statement_in 1 calm (bound create_t) create_t
    ∷ begin_in 0
    ∷ statement_in 1 calm (bound (insert_t 1)) (insert_t 1)
    ∷ statement_in 0 calm (bound (insert_t 2)) (insert_t 2)
    ∷ commit_in 0 calm
    ∷ begin_in 0
    ∷ statement_in 0 calm (bound (insert_t 2)) (insert_t 2)
    ∷ checkpoint calm
    ∷ commit_in 0 calm
    ∷ []
