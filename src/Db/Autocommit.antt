-- ===== src/Db/Autocommit.antt =====
-- src/sql/database.rs: a statement in autocommit mode keeps the directory durable.
use rusty_db.Prelude.{
  ℕ, ◌<◌, ◌≤◌, true, false, not, ◌&&◌, List, [], ◌∷◌, if◌then◌else◌, Bool-cases, inl, inr, u64_max,
  ◌≡◌, refl, ap, ◌∙◌, arith,
}
use rusty_db.Sql.Statement.{Statement, is_schema_statement, is_write_statement}
use rusty_db.Kv.Persistence.{written}
use rusty_db.Db.Catalog.{Engine, ExecutionResult, is_error, execute_catalog}
use rusty_db.Db.Log.{Codec, DurableStatement}
use rusty_db.Db.Database.{
  Database, Io, log_transaction, install, next_catalog, commit_result, execute_autocommit_durable,
}
use rusty_db.Db.Durable.{CodecLaws, RunsTo}
use rusty_db.Db.Runs.{IsFaithful, one-RunsTo, nil-RunsTo}
use rusty_db.Db.Commit.{IsStable, Keeps, logged-Keeps, install-Keeps, next_version, install-catalog}

pub not_newer : (a b : ℕ) → a < b → a ≡ b → ⊥
not_newer a b h e = omega arith

module _ {Line Tables Answer : Type 0} (e : Engine Tables Answer) (c : Codec Line Tables) where
  -- The log record that a statement in autocommit mode leaves.
  unfoldable pub autocommit_record : DurableStatement → Statement → Tables → List DurableStatement
  autocommit_record d s t =
      if is_write_statement s && not (is_error (execute_catalog e s t).0) then d ∷ [] else []

  pub commit_result-install :
      (io : Io Line) (d : DurableStatement) (s : Statement) (db : Database Line Tables)
      (r : ExecutionResult Answer) (t : Tables)
      → is_error r ≡ false
      → commit_result e c io d s db (r, t)
        ≡ install e c io
            (is_schema_statement s)
            (next_catalog e c (is_schema_statement s) t db.catalog)
            r
            (log_transaction e c io db.catalog.version
              (next_catalog e c (is_schema_statement s) t db.catalog).version
              (d ∷ [])
              db)
  unfolding commit_result
  commit_result-install io d s db (ExecutionResult.answer a) t h = refl
  commit_result-install io d s db (ExecutionResult.rows_affected n) t h = refl
  commit_result-install io d s db ExecutionResult.transaction_started t h = refl
  commit_result-install io d s db ExecutionResult.transaction_committed t h = refl
  commit_result-install io d s db ExecutionResult.transaction_rolled_back t h = refl
  commit_result-install io d s db (ExecutionResult.error x) t h = ground arith

  commit_result-error :
      (io : Io Line) (d : DurableStatement) (s : Statement) (db : Database Line Tables)
      (r : ExecutionResult Answer) (t : Tables)
      → is_error r ≡ true
      → (commit_result e c io d s db (r, t)).1 ≡ db
  unfolding commit_result
  commit_result-error io d s db (ExecutionResult.error x) t h = refl
  commit_result-error io d s db (ExecutionResult.answer a) t h = ground arith
  commit_result-error io d s db (ExecutionResult.rows_affected n) t h = ground arith
  commit_result-error io d s db ExecutionResult.transaction_started t h = ground arith
  commit_result-error io d s db ExecutionResult.transaction_committed t h = ground arith
  commit_result-error io d s db ExecutionResult.transaction_rolled_back t h = ground arith

  -- What is to hold of the database after an operation that started at `db` and committed `ds`.
  abbrev pub IsAfter : List DurableStatement → Database Line Tables → Database Line Tables → Type 0
  IsAfter ds db db' =
      Keeps e c db'
      × RunsTo e c ds db.catalog.tables db'.catalog.tables
      × (db.catalog.version ≤ db'.catalog.version)
      × (db.catalog.version ≡ db'.catalog.version → db.catalog.tables ≡ db'.catalog.tables)

  pub unchanged-IsAfter : (db : Database Line Tables) → Keeps e c db → IsAfter [] db db
  unchanged-IsAfter db h = (h, nil-RunsTo e c db.catalog.tables, omega arith, (λ _. refl))

  module _ (laws : CodecLaws c) where
    committed-IsAfter :
        (io : Io Line) (d : DurableStatement) (s : Statement) (db : Database Line Tables)
        (r : ExecutionResult Answer) (t : Tables)
        → io.append ≡ written
        → db.wal_open ≡ true
        → db.catalog.version < u64_max
        → IsFaithful e c d s db.catalog.tables
        → (is_schema_statement s ≡ true → IsStable e c t)
        → execute_catalog e s db.catalog.tables ≡ (r, t)
        → is_error r ≡ false
        → Keeps e c db
        → IsAfter (d ∷ []) db (commit_result e c io d s db (r, t)).1
    committed-IsAfter io d s db r t good opened below faithful stable ran fine h =
        let schema = is_schema_statement s in
        let next = next_catalog e c schema t db.catalog in
        let (newer, at) = next_version e c laws schema t db.catalog below in
        let runs = one-RunsTo e c d s db.catalog.tables t r faithful ran fine in
        let (db₁, logged, keeps) =
          logged-Keeps e c laws io db next (d ∷ []) good opened h newer (rw at runs) in
        let at_end = install-catalog e c laws io schema next r db₁ in
        rw (commit_result-install io d s db r t fine, logged)
          (
            install-Keeps e c laws io schema next r db₁ (λ changes. rw at (stable changes)) keeps,
            rw (at_end, at) runs,
            rw at_end (omega arith),
            λ same. elim (not_newer _ _ newer (same ∙ ap (λ k. k.version) at_end)) [ ],
          )

    ran-IsAfter :
        (io : Io Line) (d : DurableStatement) (s : Statement) (db : Database Line Tables)
        (r : ExecutionResult Answer × Tables)
        → io.append ≡ written
        → db.wal_open ≡ true
        → db.catalog.version < u64_max
        → IsFaithful e c d s db.catalog.tables
        → (is_schema_statement s ≡ true → IsStable e c r.1)
        → execute_catalog e s db.catalog.tables ≡ r
        → Keeps e c db
        → IsAfter (if not (is_error r.0) then d ∷ [] else []) db (commit_result e c io d s db r).1
    ran-IsAfter io d s db (r, t) good opened below faithful stable ran h =
        elim (Bool-cases (is_error r)) [
          | inl failed ↦
              rw (failed, commit_result-error io d s db r t failed) (unchanged-IsAfter db h)
          | inr fine ↦
              rw fine (committed-IsAfter io d s db r t good opened below faithful stable ran fine h)
        ]

    -- A statement in autocommit mode keeps the directory durable, for the tables that it makes.
    pub autocommit-IsAfter :
        (io : Io Line) (d : DurableStatement) (s : Statement) (db : Database Line Tables)
        → io.append ≡ written
        → db.wal_open ≡ true
        → db.catalog.version < u64_max
        → IsFaithful e c d s db.catalog.tables
        → (is_schema_statement s ≡ true → IsStable e c (execute_catalog e s db.catalog.tables).1)
        → Keeps e c db
        → IsAfter
            (autocommit_record d s db.catalog.tables)
            db
            (execute_autocommit_durable e c io d s db).1
    unfolding autocommit_record execute_autocommit_durable
    autocommit-IsAfter io d s db good opened below faithful stable h =
        elim (Bool-cases (is_write_statement s)) [
          | inl writes ↦ rw writes (
              ran-IsAfter io d s db (execute_catalog e s db.catalog.tables) good opened below
                faithful stable refl h)
          | inr reads ↦ rw reads (unchanged-IsAfter db h)
        ]
