-- ===== src/Db/Catalog.antt =====
-- src/sql/executor.rs: the catalog with its versions, and a statement that takes effect whole or
-- not at all. What a statement does to the tables is the parameter `Engine`.
use rusty_db.Prelude.{ℕ, Bool, true, false, Option, none, some, Result, if◌then◌else◌, ◌≡◌}
use rusty_db.Sql.Types.{Text}
use rusty_db.Sql.Statement.{Statement, is_write_statement}

pub record Catalog (Tables : Type 0) : Type 0 where
  pub version : ℕ
  pub schema_version : ℕ
  pub tables : Tables

pub data DbError : Type 0 where
  -- of `execute_statement`, of `validate_catalog` and of `parse_sql`
  statement_error : Text → DbError
  parse_error : Text → DbError
  requires_session already_active serialization_conflict : DbError
  unset_variable variable_type unknown_prepared not_preparable parameter_number : DbError
  wal_write wal_sync snapshot_failed : DbError
  wal_version_gap replay_failed catalog_parse catalog_format : DbError

pub data ExecutionResult (Answer : Type 0) : Type 0 where
  answer : Answer → ExecutionResult Answer
  rows_affected : ℕ → ExecutionResult Answer
  transaction_started transaction_committed transaction_rolled_back : ExecutionResult Answer
  error : DbError → ExecutionResult Answer

abbrev pub is_error : {Answer : Type 0} → ExecutionResult Answer → Bool
is_error (error _) = true
is_error _ = false

pub record Engine (Tables Answer : Type 0) : Type 0 where
  pub execute_statement : Statement → Tables → ExecutionResult Answer × Tables
  pub validate_catalog : Tables → Option DbError
  -- `Catalog::from_tables`, on the tables that a snapshot holds
  pub from_tables : Tables → Tables
  pub parse_sql : Text → Result DbError Statement
  -- `Optimizer::optimize_statement`, where it does not panic
  pub optimize : Statement → Statement
  -- `str::trim`, and `trim().trim_end_matches(';').trim()`
  pub trim : Text → Text
  pub normalize : Text → Text

-- Statements that do not write leave the tables alone, and the parser strips a text as
-- `parse_cached` does before it.
pub record EngineLaws {Tables Answer : Type 0} (e : Engine Tables Answer) : Type 0 where
  pub read_keeps :
      (s : Statement) (t : Tables) → is_write_statement s ≡ false → (e.execute_statement s t).1 ≡ t
  pub parse_trim : (sql : Text) → e.parse_sql (e.trim sql) ≡ e.parse_sql (e.normalize sql)

module _ {Tables Answer : Type 0} (e : Engine Tables Answer) where
  unfoldable pub validated :
      Option DbError → Tables → ExecutionResult Answer × Tables → ExecutionResult Answer × Tables
  validated none old (r, t) = (r, t)
  validated (some x) old (r, t) = (error x, old)

  -- The copy that the statement worked on replaces the tables, unless it failed.
  unfoldable pub accept : Tables → ExecutionResult Answer × Tables → ExecutionResult Answer × Tables
  unfolding validated
  accept old (error x, t) = (error x, old)
  accept old (r, t) = validated (e.validate_catalog t) old (r, t)

  unfoldable pub execute_catalog : Statement → Tables → ExecutionResult Answer × Tables
  unfolding accept
  execute_catalog s t =
      if is_write_statement s then accept t (e.execute_statement s t) else e.execute_statement s t
