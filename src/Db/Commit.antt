-- ===== src/Db/Commit.antt =====
-- src/sql/database.rs: commits and snapshots keep the directory durable.
use rusty_db.Prelude.{
  ◌<◌, Bool, true, false, ◌||◌, ◌&&◌, not, List, [], ◌∷◌, ok, err, if_both, u64_max, ◌≡◌, refl, ◌∙◌,
  arith,
}
use rusty_db.Kv.Persistence.{written}
use rusty_db.Db.Catalog.{Catalog, Engine, ExecutionResult}
use rusty_db.Db.Log.{Codec, DurableStatement, new_record, load_catalog}
use rusty_db.Db.Database.{
  snapshot_of, extend_wal, Database, Io, Outcome, log_transaction, publish, reopen, move_wal,
  archive, truncate_wal, save, saved, install, next_catalog, create_file, write_file, sync_file,
  rename_file, create_archive, archive_wal, reopen_wal, append_line,
}
use rusty_db.Db.Durable.{CodecLaws, Replays, IsApplied, IsDurable, RunsTo, append-IsDurable}

module _ {Line Tables Answer : Type 0} (e : Engine Tables Answer) (c : Codec Line Tables) where
  abbrev pub Keeps : Database Line Tables → Type 0
  Keeps db = IsDurable e c db.disk db.catalog

  abbrev KeepsAfter : Outcome Line Tables → Type 0
  KeepsAfter r = Keeps r.1

  reopen-Keeps :
      (io : Io Line) (db : Database Line Tables) → Keeps db → KeepsAfter (reopen e c io db)
  unfolding reopen
  reopen-Keeps io db h = if_both KeepsAfter (io.fails reopen_wal) _ _ h h

  -- Tables that a snapshot gives back: they have the form that `from_tables` gives, and JSON keeps
  -- their floats.
  abbrev pub IsStable : Tables → Type 0
  IsStable t = (e.from_tables t ≡ t) × (c.has_exact_floats t ≡ true)

  module _ (laws : CodecLaws c) where
    publish-Keeps :
        (io : Io Line) (db : Database Line Tables)
        → IsStable db.catalog.tables
        → Keeps db
        → Keeps (publish e c io db)
    unfolding publish IsDurable IsApplied load_catalog
    publish-Keeps io db (formed, exact) (k₀, k₁, load, replays, same, applied) =
        let k : Catalog Tables = record db.catalog { tables = e.from_tables db.catalog.tables } in
        (
          k,
          k,
          rw (laws.parse_print_catalog (snapshot_of e c io db.catalog) exact),
          applied k (omega arith),
          (formed, refl),
          applied,
        )

    -- Once a snapshot holds the catalog, the log may go.
    move_wal-Keeps :
        (io : Io Line) (db : Database Line Tables)
        → IsStable db.catalog.tables
        → Keeps db
        → Keeps (move_wal e c (publish e c io db))
    unfolding publish IsDurable IsApplied Replays load_catalog
    move_wal-Keeps io db (formed, exact) h =
        let k : Catalog Tables = record db.catalog { tables = e.from_tables db.catalog.tables } in
        (
          k,
          k,
          rw (laws.parse_print_catalog (snapshot_of e c io db.catalog) exact),
          (λ more. refl),
          (formed, refl),
          λ k' le more. refl,
        )

    archive-Keeps :
        (io : Io Line) (wal : List Line) (db : Database Line Tables)
        → Keeps db
        → Keeps (move_wal e c db)
        → KeepsAfter (archive e c io wal db)
    unfolding archive
    archive-Keeps io [] db h m = reopen-Keeps io db h
    archive-Keeps io (line ∷ lines) db h m =
        if_both KeepsAfter (io.fails create_archive || io.fails archive_wal) _ _ h
          (reopen-Keeps io (move_wal e c db) m)

    -- Whichever steps of a snapshot fail, the directory opens with the same tables.
    pub save-Keeps :
        (io : Io Line) (db : Database Line Tables)
        → IsStable db.catalog.tables
        → Keeps db
        → KeepsAfter (save e c io db)
    unfolding save truncate_wal
    save-Keeps io db stable h =
        let p = publish-Keeps io db stable h in
        let m = move_wal-Keeps io db stable h in
        if_both KeepsAfter (not db.auto_save) _ _ h (
          if_both KeepsAfter
            (io.fails create_file
              || io.fails write_file
              || io.fails sync_file
              || io.fails rename_file)
            _ _ h
            (if_both KeepsAfter db.wal_open _ _
              (archive-Keeps io db.disk.wal (record (publish e c io db) { wal_open = false }) p m)
              p))

    saved-Keeps :
        (r : ExecutionResult Answer) (o : Outcome Line Tables)
        → KeepsAfter o
        → Keeps (saved e c r o).1
    unfolding saved
    saved-Keeps r (ok _, db) h = h
    saved-Keeps r (err x, db) h = h

    abbrev KeepsReply : ExecutionResult Answer × Database Line Tables → Type 0
    KeepsReply r = Keeps r.1

    -- The log and the new catalog go together.
    pub logged-Keeps :
        (io : Io Line) (db : Database Line Tables) (next : Catalog Tables)
        (ds : List DurableStatement)
        → io.append ≡ written
        → db.wal_open ≡ true
        → Keeps db
        → db.catalog.version < next.version
        → RunsTo e c ds db.catalog.tables next.tables
        → (db₁ : Database Line Tables) × (log_transaction e c io db.catalog.version next.version ds
              db
            ≡ (ok tt, db₁))
          × Keeps (record db₁ { catalog = next })
    unfolding log_transaction append_line
    logged-Keeps io db next ds good opened h newer runs = (
      extend_wal e c
          (c.print_record (new_record e c db.catalog.version next.version io.now_millis ds) ∷ [])
          db,
      rw (good, opened),
      append-IsDurable e c laws db.disk db.catalog next io.now_millis ds h newer runs,
    )

    pub install-Keeps :
        (io : Io Line) (schema : Bool) (working : Catalog Tables) (r : ExecutionResult Answer)
        (db : Database Line Tables)
        → (schema ≡ true → IsStable working.tables)
        → Keeps (record db { catalog = working })
        → Keeps (install e c io schema working r (ok tt, db)).1
    unfolding install
    install-Keeps io false working r db stable h = h
    install-Keeps io true working r db stable h =
        if_both KeepsReply db.auto_save _ _
          (saved-Keeps r (save e c io (record db { catalog = working }))
            (save-Keeps io (record db { catalog = working }) (stable refl) h))
          h

    pub next_version :
        (schema : Bool) (t : Tables) (k : Catalog Tables)
        → k.version < u64_max
        → (k.version < (next_catalog e c schema t k).version)
          × ((next_catalog e c schema t k).tables ≡ t)
    unfolding next_catalog
    next_version true t k h = (omega arith, refl)
    next_version false t k h = (omega arith, refl)

    -- A snapshot leaves the catalog.
    abbrev SameCatalog : Database Line Tables → Outcome Line Tables → Type 0
    SameCatalog db r = r.1.catalog ≡ db.catalog

    reopen-catalog : (io : Io Line) (db : Database Line Tables) → SameCatalog db (reopen e c io db)
    unfolding reopen
    reopen-catalog io db = if_both (SameCatalog db) (io.fails reopen_wal) _ _ refl refl

    archive-catalog :
        (io : Io Line) (wal : List Line) (db : Database Line Tables)
        → SameCatalog db (archive e c io wal db)
    unfolding archive
    archive-catalog io [] db = reopen-catalog io db
    archive-catalog io (_ ∷ _) db =
        if_both (SameCatalog db) (io.fails create_archive || io.fails archive_wal) _ _ refl
          (reopen-catalog io (move_wal e c db))

    pub save-catalog : (io : Io Line) (db : Database Line Tables) → SameCatalog db (save e c io db)
    unfolding save truncate_wal publish
    save-catalog io db = if_both (SameCatalog db) (not db.auto_save) _ _ refl (
        if_both (SameCatalog db)
          (io.fails create_file
            || io.fails write_file
            || io.fails sync_file
            || io.fails rename_file)
          _ _ refl
          (if_both (SameCatalog db) db.wal_open _ _
            (archive-catalog io db.disk.wal (record (publish e c io db) { wal_open = false }))
            refl))

    saved-catalog :
        (r : ExecutionResult Answer) (o : Outcome Line Tables)
        → (saved e c r o).1.catalog ≡ o.1.catalog
    unfolding saved
    saved-catalog r (ok _, db) = refl
    saved-catalog r (err x, db) = refl

    pub install-catalog :
        (io : Io Line) (schema : Bool) (working : Catalog Tables) (r : ExecutionResult Answer)
        (db : Database Line Tables)
        → (install e c io schema working r (ok tt, db)).1.catalog ≡ working
    unfolding install
    install-catalog io schema working r db =
        if_both (λ (x : ExecutionResult Answer × Database Line Tables). x.1.catalog ≡ working)
          (schema && db.auto_save) _ _
          (saved-catalog r (save e c io (record db { catalog = working }))
            ∙ save-catalog io (record db { catalog = working }))
          refl
