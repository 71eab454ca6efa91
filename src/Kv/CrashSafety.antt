-- ===== src/Kv/CrashSafety.antt =====
-- A snapshot loses nothing, at whichever of its steps it fails.
use Prim.Native.String.{String}
use rusty_db.Prelude.{
  ℕ, ◌≡◌, refl, sym, ap, ◌∙◌, if_both, true, false, some, List, [], ◌∷◌, ◌++◌, map, arith, ok,
}
use rusty_db.Prelude.Assoc.{Assoc, lookup, NodupKeys}
use rusty_db.Kv.Persistence.{
  Codec, World, set_entry, Disk, PersistenceManager, KvSnapshot, create_snapshot_file,
  write_snapshot_file, sync_snapshot_file, rename_snapshot, create_archive, archive_wal, reopen_wal,
  snapshot_operations, wal_operations, flush, Effect,
}
use rusty_db.Kv.Snapshot.{
  Faults, create_snapshot, reopen, archive, move_wal, publish, write_snapshot,
}
use rusty_db.Kv.Store.{replay}
use rusty_db.Kv.Replay.{SameMap, SameMap-replay, replay-append, replay_idem, replay-entries}
use rusty_db.Kv.Durability.{CodecLaws, Recovers, IsDurable, recover-ok, recover-of, intact}

module _ {Line : Type 0} (c : Codec Line) (laws : CodecLaws c) where
  -- A log that has led to the map leads nowhere else when it is replayed on the map.
  replay-recovered :
      (d : Disk Line) (m : Assoc String)
      → Recovers c d m
      → SameMap (replay m (wal_operations c d.wal)) m
  replay-recovered d m h k =
      let (s, es, eo) = recover-ok c d h.operations h.recovered in
      let wal = wal_operations c d.wal in
      let final : SameMap (replay (replay [] s) wal) m =
        λ j. ap (lookup j) (sym (replay-append [] s wal) ∙ ap (replay []) (sym eo)) ∙ h.same j in
      SameMap-replay m (replay (replay [] s) wal) wal (λ j. sym (final j)) k
      ∙ replay_idem (replay [] s) wal k
      ∙ final k

  Recovers-snapshot :
      (d : Disk Line) (m : Assoc String)
      → NodupKeys m
      → snapshot_operations c d.db ≡ ok (map set_entry m)
      → SameMap (replay m (wal_operations c d.wal)) m
      → Recovers c d m
  Recovers-snapshot d m keys e h =
      let wal = wal_operations c d.wal in
      record {
        operations = map set_entry m ++ wal;
        recovered = recover-of c d (map set_entry m) e;
        same = λ k.
            ap (lookup k) (replay-append [] (map set_entry m) wal)
            ∙ SameMap-replay _ m wal (replay-entries m keys) k
            ∙ h k;
      }

  snapshot_operations-print :
      (s : KvSnapshot)
      → snapshot_operations c (some (c.print_snapshot s)) ≡ ok (map set_entry s.entries)
  unfolding snapshot_operations
  snapshot_operations-print s = rw (laws.parse-print_snapshot s, snapshot_operations)

  pub flush_empty :
      (w : World Line) (pm : PersistenceManager Line)
      → pm.pending_ops ≡ []
      → flush c w pm ≡ (ok tt, pm)
  unfolding flush
  flush_empty w pm h = ground (arith, h)

  module _ (fault : Faults) (P : (Disk Line) → Type 0) where
    abbrev Leaves : (Effect Line) → Type 0
    Leaves e = P e.1.disk

    reopen-Leaves : (m : PersistenceManager Line) → P m.disk → Leaves (reopen c fault m)
    unfolding reopen
    reopen-Leaves m h = if_both Leaves (fault reopen_wal) _ _ h h

    archive-Leaves :
        (lines : List Line) (m : PersistenceManager Line)
        → P m.disk
        → P (move_wal c m).disk
        → Leaves (archive c fault lines m)
    unfolding archive
    archive-Leaves [] m h k = reopen-Leaves m h
    archive-Leaves (line ∷ lines) m h k =
        if_both Leaves (fault create_archive) _ _ h
          (if_both Leaves (fault archive_wal) _ _ h (reopen-Leaves (move_wal c m) k))

    -- The disk is as it was, or the snapshot is published, or the log is archived as well.
    write_snapshot-Leaves :
        (now : ℕ) (entries : Assoc String) (m : PersistenceManager Line)
        → P m.disk
        → P (publish c now entries m).disk
        → P (move_wal c (publish c now entries m)).disk
        → Leaves (write_snapshot c fault now entries m)
    unfolding write_snapshot
    write_snapshot-Leaves now entries m h k l = if_both Leaves (fault create_snapshot_file) _ _ h (
        if_both Leaves (fault write_snapshot_file) _ _ h (
          if_both Leaves (fault sync_snapshot_file) _ _ h
            (if_both Leaves (fault rename_snapshot) _ _ h (archive-Leaves m.disk.wal _ k l))))

  module _ (now : ℕ) (m : Assoc String) (pm : PersistenceManager Line) (h : IsDurable c m pm) where
    Recovers-publish : Recovers c (publish c now m pm).disk m
    unfolding publish
    Recovers-publish =
        Recovers-snapshot _ m h.keys (snapshot_operations-print _)
          (replay-recovered pm.disk m h.recovers)

    Recovers-move_wal : Recovers c (move_wal c (publish c now m pm)).disk m
    unfolding publish move_wal wal_operations replay
    Recovers-move_wal = Recovers-snapshot _ m h.keys (snapshot_operations-print _) (λ k. refl)

  -- From a durable store, whichever file operations of a snapshot fail, recovery afterwards
  -- finds the map that the store shows.
  pub snapshot_crash_safe :
      (w : World Line) (fault : Faults) (now : ℕ) (m : Assoc String) (pm : PersistenceManager Line)
      → IsDurable c m pm
      → Recovers c (create_snapshot c w fault now m pm).1.disk m
  unfolding create_snapshot
  snapshot_crash_safe w fault now m pm h = rw (flush_empty w pm h.queue) (
      write_snapshot-Leaves fault (λ d. Recovers c d m) now m pm h.recovers
        (Recovers-publish now m pm h) (Recovers-move_wal now m pm h))

  -- What the last steps leave when none fails.
  record Reopened (m : PersistenceManager Line) (e : Effect Line) : Type 0 where
    done : e.0 ≡ ok tt
    wal_open : e.1.wal_open ≡ true
    wal : e.1.disk.wal ≡ []
    queue : e.1.pending_ops ≡ m.pending_ops

  archive-Reopened :
      (lines : List Line) (m : PersistenceManager Line)
      → lines ≡ m.disk.wal
      → Reopened m (archive c (λ _. false) lines m)
  unfolding archive
  archive-Reopened [] m h = record { done = refl; wal_open = refl; wal = sym h; queue = refl }
  archive-Reopened (line ∷ lines) m h = record {
    done = refl;
    wal_open = refl;
    wal = refl;
    queue = refl;
  }

  snapshot-Reopened :
      (w : World Line) (now : ℕ) (m : Assoc String) (pm : PersistenceManager Line)
      → pm.pending_ops ≡ []
      → Reopened pm (create_snapshot c w (λ _. false) now m pm)
  unfolding create_snapshot
  snapshot-Reopened w now m pm h = rw (flush_empty w pm h) (
      let r =
        archive-Reopened pm.disk.wal (record (publish c now m pm) { wal_open = false }) refl in
      record { done = r.done; wal_open = r.wal_open; wal = r.wal; queue = r.queue })

  -- A snapshot with no failure leaves the log empty and open.
  pub snapshot-IsDurable :
      (w : World Line) (now : ℕ) (m : Assoc String) (pm : PersistenceManager Line)
      → IsDurable c m pm
      → ((create_snapshot c w (λ _. false) now m pm).0 ≡ ok tt)
        × IsDurable c m (create_snapshot c w (λ _. false) now m pm).1
  snapshot-IsDurable w now m pm h =
      let r = snapshot-Reopened w now m pm h.queue in
      (
        r.done,
        record {
          logged = record {
            keys = h.keys;
            wal_open = r.wal_open;
            whole = ap (intact c) r.wal;
            recovers = snapshot_crash_safe w (λ _. false) now m pm h;
          };
          queue = r.queue ∙ h.queue;
        },
      )
