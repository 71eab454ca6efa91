-- ===== src/Db/Log.antt =====
-- src/sql/database.rs: the records of the log, their replay, and the opening of a directory.
use rusty_db.Prelude.{
  ℕ, Bool, true, false, ◌&&◌, Option, none, some, List, [], ◌∷◌, Result, ok, err, ◌>>=◌,
  if◌then◌else◌, saturating_add, ◌==◌, leb,
}
use rusty_db.Sql.Types.{Text}
use rusty_db.Sql.Statement.{Statement, is_schema_statement}
use rusty_db.Db.Catalog.{
  Catalog, DbError, wal_version_gap, replay_failed, catalog_parse, catalog_format, Engine,
  ExecutionResult, execute_catalog,
}

pub data DurableStatement : Type 0 where
  sql : Text → DurableStatement
  bound : Statement → DurableStatement

pub record WalRecord : Type 0 where
  pub format_version : ℕ
  pub base_version : ℕ
  pub commit_version : ℕ
  pub timestamp_millis : ℕ
  pub statements : List DurableStatement
  pub checksum : ℕ

pub record LegacyWalRecord : Type 0 where
  pub format_version : ℕ
  pub base_version : ℕ
  pub commit_version : ℕ
  pub statements : List Text
  pub checksum : ℕ

pub record CatalogSnapshot (Tables : Type 0) : Type 0 where
  pub format_version : ℕ
  pub catalog_version : ℕ
  pub schema_version : ℕ
  pub timestamp_millis : ℕ
  pub tables : Tables

abbrev pub catalog_format_version : ℕ
catalog_format_version = 1

abbrev pub wal_format_version : ℕ
wal_format_version = 2

-- serde_json and crc32fast. `legacy_tables` reads the directory that version 0.2 kept, when there is
-- no snapshot. `is_exact` tells the statements that JSON keeps, and `has_exact_floats` the tables: a
-- float that is not finite is printed as null.
pub record Codec (Line Tables : Type 0) : Type 0 where
  pub parse_record : Line → Option WalRecord
  pub print_record : WalRecord → Line
  pub parse_legacy : Line → Option LegacyWalRecord
  pub line_text : Line → Text
  pub is_blank : Line → Bool
  pub wal_checksum : ℕ → ℕ → ℕ → List DurableStatement → ℕ
  pub legacy_wal_checksum : ℕ → ℕ → List Text → ℕ
  pub parse_catalog : List Line → Option (CatalogSnapshot Tables)
  pub print_catalog : CatalogSnapshot Tables → List Line
  pub is_exact : DurableStatement → Bool
  pub has_exact_floats : Tables → Bool
  pub legacy_tables : Result DbError Tables

-- catalog.json, sql_wal.log and the segments of wal_archive/sql
pub record Disk (Line : Type 0) : Type 0 where
  pub catalog_json : Option (List Line)
  pub wal : List Line
  pub wal_archive : List (List Line)

module _ {Line Tables Answer : Type 0} (e : Engine Tables Answer) (c : Codec Line Tables) where
  unfoldable pub new_record : ℕ → ℕ → ℕ → List DurableStatement → WalRecord
  new_record base commit now statements = record {
    format_version = wal_format_version;
    base_version = base;
    commit_version = commit;
    timestamp_millis = now;
    statements = statements;
    checksum = c.wal_checksum base commit now statements;
  }

  unfoldable pub valid : WalRecord → Bool
  valid r =
      r.format_version == wal_format_version
      && r.checksum
        == c.wal_checksum r.base_version r.commit_version r.timestamp_millis r.statements

  unfoldable pub valid_legacy : LegacyWalRecord → Bool
  valid_legacy r =
      r.format_version == 1
      && r.checksum == c.legacy_wal_checksum r.base_version r.commit_version r.statements

  abbrev pub bump_schema : Bool → Catalog Tables → Catalog Tables
  bump_schema true k = record k { schema_version = saturating_add k.schema_version 1 }
  bump_schema false k = k

  -- What a replayed statement leaves, from what executing it returned.
  unfoldable pub replayed :
      Statement → Catalog Tables → ExecutionResult Answer × Tables → Result DbError (Catalog Tables)
  replayed s k (ExecutionResult.error x, t) = err replay_failed
  replayed s k (r, t) = ok (bump_schema (is_schema_statement s) (record k { tables = t }))

  unfoldable pub replay_statement : Statement → Catalog Tables → Result DbError (Catalog Tables)
  unfolding replayed
  replay_statement s k = replayed s k (execute_catalog e s k.tables)

  unfoldable pub durable_statement : DurableStatement → Result DbError Statement
  durable_statement (sql text) = e.parse_sql text
  durable_statement (bound s) = ok s

  unfoldable pub replay_statements :
      List DurableStatement → Catalog Tables → Result DbError (Catalog Tables)
  unfolding durable_statement replay_statement
  replay_statements [] k = ok k
  replay_statements (d ∷ rest) k = do
    s ← durable_statement d
    k' ← replay_statement s k
    replay_statements rest k'

  abbrev pub with_version : ℕ → Catalog Tables → Catalog Tables
  with_version n k = record k { version = n }

  -- A record of the transaction from `base` to `commit`: skipped when the catalog is beyond it.
  unfoldable pub replay_transaction :
      ℕ → ℕ → List DurableStatement → Catalog Tables → Result DbError (Catalog Tables)
  unfolding replay_statements
  replay_transaction base commit statements k =
      let applied = replay_statements statements k in
      if leb commit k.version
      then ok k
      else if base == k.version
      then (applied >>= λ k'. ok (with_version commit k'))
      else err wal_version_gap

  abbrev pub sql_texts : List Text → List DurableStatement
  sql_texts [] = []
  sql_texts (t ∷ rest) = sql t ∷ sql_texts rest

  -- A line of version 0.2: a statement that fails leaves the catalog.
  unfoldable pub replay_plain : Statement → Catalog Tables → Catalog Tables
  unfolding replay_statement
  replay_plain s k = elim (replay_statement s k) [
    | err _ ↦ k
    | ok k' ↦ with_version (saturating_add k.version 1) k'
  ]

  -- What one line does: ends the log, or gives the catalog to go on with.
  pub data LineEffect : Type 0 where
    stop : LineEffect
    go : Result DbError (Catalog Tables) → LineEffect

  unfoldable pub replay_line : Line → Catalog Tables → LineEffect
  unfolding valid valid_legacy replay_transaction replay_plain
  replay_line line k = if c.is_blank line then go (ok k) else elim (c.parse_record line) [
    | some r ↦
        if valid r
        then go (replay_transaction r.base_version r.commit_version r.statements k)
        else stop
    | none ↦ elim (c.parse_legacy line) [
      | some r ↦
          if valid_legacy r
          then go (replay_transaction r.base_version r.commit_version (sql_texts r.statements) k)
          else stop
      | none ↦ elim (e.parse_sql (c.line_text line)) [
        | ok s ↦ go (ok (replay_plain s k))
        | err _ ↦ stop
      ]
    ]
  ]

  unfoldable pub replay_wal : List Line → Catalog Tables → Result DbError (Catalog Tables)
  unfolding replay_line
  replay_wal [] k = ok k
  replay_wal (line ∷ lines) k = elim (replay_line line k) [
    | stop ↦ ok k
    | go (ok k') ↦ replay_wal lines k'
    | go (err x) ↦ err x
  ]

  unfoldable pub load_catalog : Option (List Line) → Result DbError (Catalog Tables)
  load_catalog none = do
    t ← c.legacy_tables
    ok (record { version = 0; schema_version = 0; tables = e.from_tables t })
  load_catalog (some content) = elim (c.parse_catalog content) [
    | none ↦ err catalog_parse
    | some s ↦
        if s.format_version == catalog_format_version
        then ok (record {
          version = s.catalog_version;
          schema_version = s.schema_version;
          tables = e.from_tables s.tables;
        })
        else err catalog_format
  ]

  -- The catalog that a directory opens with.
  unfoldable pub open_catalog : Disk Line → Result DbError (Catalog Tables)
  unfolding load_catalog replay_wal
  open_catalog d = do k ← load_catalog d.catalog_json; replay_wal d.wal k
