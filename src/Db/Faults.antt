-- ===== src/Db/Faults.antt =====
-- src/sql/database.rs: what is read back is the statement before optimization, and what a failed
-- sync or a failed archive does to later commits.
use rusty_db.Prelude.{
  ◌<◌, true, false, ◌||◌, List, [], ◌∷◌, ◌++◌, ok, err, u64_max, saturating_add, ◌≡◌, refl, arith,
}
use rusty_db.Sql.Statement.{Statement, is_write_statement, is_schema_statement}
use rusty_db.Kv.Persistence.{written, sync_failed}
use rusty_db.Db.Catalog.{
  Catalog, Engine, ExecutionResult, is_error, execute_catalog, wal_sync, snapshot_failed,
}
use rusty_db.Db.Log.{Codec, DurableStatement, Disk, open_catalog, durable_statement, new_record}
use rusty_db.Db.Database.{
  Database, Io, log_transaction, append_line, next_catalog, install, execute_autocommit_durable,
  save, truncate_wal, archive, publish, create_file, write_file, sync_file, rename_file,
  create_archive, archive_wal,
}
use rusty_db.Db.Durable.{CodecLaws, IsDurable, append-IsDurable, stale-IsDurable, open-IsDurable}
use rusty_db.Db.Runs.{IsFaithful, one-RunsTo}
use rusty_db.Db.Commit.{Keeps}
use rusty_db.Db.Autocommit.{commit_result-install}

module _ {Line Tables Answer : Type 0} (e : Engine Tables Answer) (c : Codec Line Tables)
    (laws : CodecLaws c) where
  -- The disk after the record of one statement, at the version that follows.
  abbrev logged_disk : Io Line → DurableStatement → Catalog Tables → Disk Line → Disk Line
  logged_disk io d k disk = record disk {
    wal =
        disk.wal
        ++ c.print_record
            (new_record e c k.version (saturating_add k.version 1) io.now_millis (d ∷ []))
          ∷ [];
  }

  -- A durable directory after a record that reads back as `s₀`.
  logged-IsDurable :
      (io : Io Line) (d : DurableStatement) (s₀ : Statement) (db : Database Line Tables)
      (r₀ : ExecutionResult Answer) (t₀ : Tables)
      → Keeps e c db
      → db.catalog.version < u64_max
      → c.is_exact d ≡ true
      → durable_statement e c d ≡ ok s₀
      → execute_catalog e s₀ db.catalog.tables ≡ (r₀, t₀)
      → is_error r₀ ≡ false
      → IsDurable e c
          (logged_disk io d db.catalog db.disk)
          (record db.catalog { version = saturating_add db.catalog.version 1; tables = t₀ })
  unfolding IsFaithful
  logged-IsDurable io d s₀ db r₀ t₀ keeps below exact read ran fine =
      append-IsDurable e c laws db.disk db.catalog
        (record db.catalog { version = saturating_add db.catalog.version 1; tables = t₀ })
        io.now_millis (d ∷ []) keeps (omega arith)
        (one-RunsTo e c d s₀ db.catalog.tables t₀ r₀ (exact, (s₀, read, refl)) ran fine)

  -- In a durable database with an open log, a write that succeeds and room for a version, after
  -- a commit in autocommit mode of a write `s` of rows whose log entry JSON keeps and replay
  -- reads as another statement `s₀`, neither of which fails: the tables in memory are those
  -- that `s` makes, and the directory opens with those that `s₀` makes. JSON is taken to read
  -- back the records whose floats it keeps.
  pub autocommit-reads_back :
      (io : Io Line) (d : DurableStatement) (s s₀ : Statement) (db : Database Line Tables)
      (r r₀ : ExecutionResult Answer) (t t₀ : Tables)
      → Keeps e c db
      → db.catalog.version < u64_max
      → io.append ≡ written
      → db.wal_open ≡ true
      → is_write_statement s ≡ true
      → is_schema_statement s ≡ false
      → execute_catalog e s db.catalog.tables ≡ (r, t)
      → is_error r ≡ false
      → c.is_exact d ≡ true
      → durable_statement e c d ≡ ok s₀
      → execute_catalog e s₀ db.catalog.tables ≡ (r₀, t₀)
      → is_error r₀ ≡ false
      → ((execute_autocommit_durable e c io d s db).0 ≡ r)
        × ((execute_autocommit_durable e c io d s db).1.catalog.tables ≡ t)
        × ((k : Catalog Tables) × (open_catalog e c
                (execute_autocommit_durable e c io d s db).1.disk
              ≡ ok k)
            × (k.tables ≡ t₀))
  unfolding execute_autocommit_durable log_transaction append_line install next_catalog
  autocommit-reads_back io d s s₀ db r r₀ t t₀ keeps below good opened writes plain ran fine exact
        read ran₀ fine₀ =
      let (k, opens, same) =
        open-IsDurable e c (logged_disk io d db.catalog db.disk)
          (record db.catalog { version = saturating_add db.catalog.version 1; tables = t₀ })
          (logged-IsDurable io d s₀ db r₀ t₀ keeps below exact read ran₀ fine₀) in
      rw (writes, ran, commit_result-install e c io d s db r t fine, plain, good, opened)
        (refl, refl, (k, opens, same.0))

  -- In a durable database with an open log and room for a version, a commit of a write of rows
  -- whose record is written but not synced, and would be read back as the statement that was
  -- executed, is reported as failed. The next commit of such a write, whose record is written
  -- and which JSON keeps too, succeeds under the same version, and the directory then opens
  -- with the tables of the commit that failed. JSON is taken to read back the records whose
  -- floats it keeps.
  pub commit_lost_after_failed_sync :
      (io₁ io₂ : Io Line) (d₁ d₂ : DurableStatement) (s₁ s₂ : Statement) (db : Database Line Tables)
      (r₁ r₂ : ExecutionResult Answer) (t₁ t₂ : Tables)
      → Keeps e c db
      → db.catalog.version < u64_max
      → io₁.append ≡ sync_failed
      → io₂.append ≡ written
      → db.wal_open ≡ true
      → is_write_statement s₁ ≡ true
      → is_write_statement s₂ ≡ true
      → is_schema_statement s₁ ≡ false
      → is_schema_statement s₂ ≡ false
      → execute_catalog e s₁ db.catalog.tables ≡ (r₁, t₁)
      → is_error r₁ ≡ false
      → c.is_exact d₁ ≡ true
      → c.is_exact d₂ ≡ true
      → durable_statement e c d₁ ≡ ok s₁
      → execute_catalog e s₂ db.catalog.tables ≡ (r₂, t₂)
      → is_error r₂ ≡ false
      → let after₁ = execute_autocommit_durable e c io₁ d₁ s₁ db in
        let after₂ = execute_autocommit_durable e c io₂ d₂ s₂ after₁.1 in
        (after₁.0 ≡ ExecutionResult.error wal_sync)
        × (after₂.0 ≡ r₂)
        × (after₂.1.catalog.tables ≡ t₂)
        × ((k : Catalog Tables) × (open_catalog e c after₂.1.disk ≡ ok k) × (k.tables ≡ t₁))
  unfolding execute_autocommit_durable log_transaction append_line install next_catalog
  commit_lost_after_failed_sync io₁ io₂ d₁ d₂ s₁ s₂ db r₁ r₂ t₁ t₂ keeps below bad good opened w₁ w₂
        p₁ p₂ ran₁ fine₁ exact₁ exact₂ read ran₂ fine₂ =
      let next : Catalog Tables = record db.catalog {
        version = saturating_add db.catalog.version 1;
        tables = t₁;
      } in
      let durable₁ = logged-IsDurable io₁ d₁ s₁ db r₁ t₁ keeps below exact₁ read ran₁ fine₁ in
      let durable₂ =
        stale-IsDurable e c laws (logged_disk io₁ d₁ db.catalog db.disk) next db.catalog.version
          (saturating_add db.catalog.version 1) io₂.now_millis (d₂ ∷ []) (exact₂, tt) durable₁
          (omega arith) in
      let (k, opens, same) =
        open-IsDurable e c (logged_disk io₂ d₂ db.catalog (logged_disk io₁ d₁ db.catalog db.disk))
          next durable₂ in
      rw (w₁, ran₁, commit_result-install e c io₁ d₁ s₁ db r₁ t₁ fine₁, p₁, bad, opened)
        (rw
          (
            w₂,
            ran₂,
            commit_result-install e c io₂ d₂ s₂
                (record db { disk = logged_disk io₁ d₁ db.catalog db.disk; wal_open = true }) r₂ t₂
                fine₂,
            p₂,
            good,
          )
          (refl, refl, refl, (k, opens, same.0)))

module _ {Line Tables Answer : Type 0} (e : Engine Tables Answer) (c : Codec Line Tables) where
  save-stuck :
      (io : Io Line) (db : Database Line Tables) (line : Line) (lines : List Line)
      → db.auto_save ≡ true
      → db.wal_open ≡ true
      → db.disk.wal ≡ line ∷ lines
      → (io.fails create_file || io.fails write_file || io.fails sync_file || io.fails rename_file)
        ≡ false
      → (io.fails create_archive || io.fails archive_wal) ≡ true
      → save e c io db ≡ (err snapshot_failed, record (publish e c io db) { wal_open = false })
  unfolding save truncate_wal archive publish
  save-stuck io db line lines auto opened wal fine stuck = rw (auto, fine, opened, wal, stuck)

  commit-unlogged :
      (io : Io Line) (d : DurableStatement) (s : Statement) (db : Database Line Tables)
      (r : ExecutionResult Answer) (t : Tables)
      → db.wal_open ≡ false
      → is_write_statement s ≡ true
      → is_schema_statement s ≡ false
      → execute_catalog e s db.catalog.tables ≡ (r, t)
      → is_error r ≡ false
      → let after = execute_autocommit_durable e c io d s db in
        (after.0 ≡ r) × (after.1.catalog.tables ≡ t) × (after.1.disk ≡ db.disk)
  unfolding execute_autocommit_durable log_transaction install next_catalog
  commit-unlogged io d s db r t closed writes plain ran fine =
      rw (writes, ran, commit_result-install e c io d s db r t fine, plain, closed)
        (refl, refl, refl)

  -- With snapshots on and an open log that is not empty, a checkpoint that publishes its
  -- snapshot and cannot archive the log fails, and a later commit in autocommit mode of a write
  -- of rows that does not fail is acknowledged, changes the tables in memory and writes nothing
  -- to the disk.
  pub acknowledged_unlogged :
      (io₁ io₂ : Io Line) (d : DurableStatement) (s : Statement) (db : Database Line Tables)
      (r : ExecutionResult Answer) (t : Tables) (line : Line) (lines : List Line)
      → db.auto_save ≡ true
      → db.wal_open ≡ true
      → db.disk.wal ≡ line ∷ lines
      → (io₁.fails create_file
          || io₁.fails write_file
          || io₁.fails sync_file
          || io₁.fails rename_file)
        ≡ false
      → (io₁.fails create_archive || io₁.fails archive_wal) ≡ true
      → is_write_statement s ≡ true
      → is_schema_statement s ≡ false
      → execute_catalog e s db.catalog.tables ≡ (r, t)
      → is_error r ≡ false
      → let after₁ = save e c io₁ db in
        let after₂ = execute_autocommit_durable e c io₂ d s after₁.1 in
        (after₁.0 ≡ err snapshot_failed)
        × (after₂.0 ≡ r)
        × (after₂.1.catalog.tables ≡ t)
        × (after₂.1.disk ≡ after₁.1.disk)
  unfolding publish
  acknowledged_unlogged io₁ io₂ d s db r t line lines auto opened wal fine_up stuck writes plain ran
        fine =
      let (a, b, k) =
        commit-unlogged io₂ d s (record (publish e c io₁ db) { wal_open = false }) r t refl writes
          plain ran fine in
      rw (save-stuck io₁ db line lines auto opened wal fine_up stuck) (refl, a, b, k)
