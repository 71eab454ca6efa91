-- ===== src/Kv/Snapshot.antt =====
-- src/persistence.rs: `create_snapshot`, with a failure possible at each of its steps.
use rusty_db.Prelude.{ℕ, Bool, true, false, some, List, [], ◌∷◌, ◌++◌, ok, err, if◌then◌else◌}
use Prim.Native.String.{String}
use rusty_db.Prelude.Assoc.{Assoc}
use rusty_db.Kv.Persistence.{
  Codec, World, KvError, create_snapshot_file, write_snapshot_file, sync_snapshot_file,
  rename_snapshot, create_archive, archive_wal, reopen_wal, PersistenceManager, Effect, KvSnapshot,
  kv_format_version, current_sequence, flush,
}

-- Whether the file operation with this error fails.
abbrev pub Faults : Type 0
Faults = KvError → Bool

module _ {Line : Type 0} (c : Codec Line) where
  -- The rename puts the new snapshot in place of the old one.
  unfoldable pub publish : ℕ → Assoc String → (PersistenceManager Line) → (PersistenceManager Line)
  unfolding current_sequence
  publish now entries m =
      let snapshot : KvSnapshot = record {
        format_version = kv_format_version;
        sequence = current_sequence c m;
        timestamp_millis = now;
        entries = entries;
      } in
      record m { disk = record m.disk { db = some (c.print_snapshot snapshot) } }

  unfoldable pub reopen : Faults → (PersistenceManager Line) → (Effect Line)
  reopen fault m =
      if fault reopen_wal then (err reopen_wal, m) else (ok tt, record m { wal_open = true })

  unfoldable pub move_wal : (PersistenceManager Line) → (PersistenceManager Line)
  move_wal m = record m {
    disk = record m.disk { wal = []; wal_archive = m.disk.wal_archive ++ m.disk.wal ∷ [] };
  }

  unfoldable pub archive : Faults → List Line → (PersistenceManager Line) → (Effect Line)
  unfolding reopen move_wal
  archive fault [] m = reopen fault m
  archive fault (line ∷ lines) m =
      if fault create_archive
      then (err create_archive, m)
      else if fault archive_wal
      then (err archive_wal, m)
      else reopen fault (move_wal m)

  -- From the rename on: the handle is dropped first, and set again by the last step.
  unfoldable pub after_publish : Faults → (PersistenceManager Line) → (Effect Line)
  unfolding archive
  after_publish fault m = archive fault m.disk.wal (record m { wal_open = false })

  unfoldable pub write_snapshot :
      Faults → ℕ → Assoc String → (PersistenceManager Line) → (Effect Line)
  unfolding publish after_publish
  write_snapshot fault now entries m =
      if fault create_snapshot_file
      then (err create_snapshot_file, m)
      else if fault write_snapshot_file
      then (err write_snapshot_file, m)
      else if fault sync_snapshot_file
      then (err sync_snapshot_file, m)
      else if fault rename_snapshot
      then (err rename_snapshot, m)
      else after_publish fault (publish now entries m)

  unfoldable pub after_flush : Faults → ℕ → Assoc String → (Effect Line) → (Effect Line)
  unfolding write_snapshot
  after_flush fault now entries (ok _, m) = write_snapshot fault now entries m
  after_flush fault now entries (err e, m) = (err e, m)

  unfoldable pub create_snapshot :
      (World Line) → Faults → ℕ → Assoc String → (PersistenceManager Line) → (Effect Line)
  unfolding after_flush
  create_snapshot w fault now entries m = after_flush fault now entries (flush c w m)
