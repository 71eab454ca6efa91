-- ===== src/Kv/Examples.antt =====
-- The theorems on the key-value engine at concrete stores, over lines that carry what serde_json
-- would read from them.
use rusty_db.Prelude.{
  ◌+◌, ◌<◌, ◌≡◌, refl, Bool, true, false, Option, none, some, List, [], ◌∷◌, ok, err, arith, All,
}
use rusty_db.Prelude.Assoc.{lookup, insert, remove}
use rusty_db.Kv.Persistence.{
  Codec, World, written, write_failed, write_wal, create_archive, Operation, set, Disk,
  PersistenceManager, KvWalRecord, KvSnapshot, new_record, open_manager, recover, wal_operations,
  valid, scan_max_sequence, max_sequence, log_operation_sync,
}
use rusty_db.Kv.Snapshot.{Faults, create_snapshot}
use rusty_db.Kv.Store.{KvStore, open_store, get, set_key, snapshot, apply, replay}
use rusty_db.Kv.Durability.{CodecLaws, Recovers, IsDurable, log-IsDurable}
use rusty_db.Kv.CrashSafety.{snapshot_crash_safe}
use rusty_db.Kv.Service.{
  Command, IsDurableStore, spec, run, execute, store_of, execute-refines-spec, reopen-run,
}
use rusty_db.Kv.Faults.{
  overtake, set_key-err, wal_operations-invalid, wal_operations-torn, async_overtaken,
  unlogged_after_failed_archive,
}
use rusty_db.Kv.Sequence.{IsBelow, open_manager_fresh, log_sequence_fresh}
use mathlib.Core.List.{foldl}

data Line : Type 0 where
  record_line : KvWalRecord → Line
  operation_line : Operation → Line
  snapshot_line : KvSnapshot → Line
  blank torn : Line

abbrev parse_record : Line → Option KvWalRecord
parse_record (record_line r) = some r
parse_record _ = none

abbrev parse_operation : Line → Option Operation
parse_operation (operation_line op) = some op
parse_operation _ = none

abbrev parse_snapshot : List Line → Option KvSnapshot
parse_snapshot (snapshot_line s ∷ _) = some s
parse_snapshot _ = none

abbrev is_blank : Line → Bool
is_blank blank = true
is_blank _ = false

abbrev codec : Codec Line
codec = record {
  parse_record = parse_record;
  print_record = record_line;
  parse_operation = parse_operation;
  parse_snapshot = parse_snapshot;
  print_snapshot = λ s. snapshot_line s ∷ [];
  is_blank = is_blank;
  kv_checksum = λ n t op. n + t;
}

codec_laws : CodecLaws codec
codec_laws = record {
  parse-print = λ r. refl;
  print-ne-blank = λ r. refl;
  parse-print_snapshot = λ s. refl;
}

abbrev world : World Line
world = record { now_millis = λ n. n; outcome = λ n. written }

abbrev broken : World Line
broken = record { now_millis = λ n. n; outcome = λ n. write_failed (torn ∷ []) }

abbrev empty_disk : Disk Line
empty_disk = record { db = none; wal = []; wal_archive = [] }

abbrev manager : PersistenceManager Line
manager = open_manager codec empty_disk

manager-IsDurable : IsDurable codec [] manager
unfolding open_manager replay
manager-IsDurable = record {
  logged = record {
    keys = tt;
    wal_open = refl;
    whole = refl;
    recovers = record { operations = []; recovered = unfold recover in refl; same = λ k. refl };
  };
  queue = refl;
}

abbrev store : KvStore Line
store = store_of codec [] manager

store-IsDurableStore : IsDurableStore codec store
store-IsDurableStore = record { manager = manager; present = refl; durable = manager-IsDurable }

abbrev script : List Command
script =
    Command.set "a" "1"
    ∷ Command.snapshot 7
    ∷ Command.set_many (("b", "2") ∷ ("a", "3") ∷ [])
    ∷ Command.delete "b"
    ∷ []

reopen-run_example :
    (pm : PersistenceManager Line) × (t : KvStore Line) × ((run codec world script
        store).persistence
      ≡ some pm)
    × (open_store codec pm.disk ≡ ok t)
    × ((k : _) → get codec k t ≡ lookup k (foldl spec [] script))
reopen-run_example = reopen-run codec codec_laws world (λ n. refl) script store store-IsDurableStore

spec-script : foldl spec [] script ≡ ("a", "3") ∷ []
unfolding spec apply insert remove
spec-script = refl

execute-refines-spec_example :
    ((execute codec world (Command.delete "b") store).contents ≡ spec [] (Command.delete "b"))
    × IsDurableStore codec (execute codec world (Command.delete "b") store)
execute-refines-spec_example =
    execute-refines-spec codec codec_laws world (λ n. refl) (Command.delete "b") store
      store-IsDurableStore

abbrev logged_manager : PersistenceManager Line
logged_manager = (log_operation_sync codec world (set "a" "1") manager).1

logged_manager-IsDurable : IsDurable codec (apply [] (set "a" "1")) logged_manager
logged_manager-IsDurable =
    log-IsDurable codec codec_laws [] world (set "a" "1") manager manager-IsDurable refl

-- The log cannot be moved to the archive.
abbrev no_archive : Faults
no_archive create_archive = true
no_archive _ = false

snapshot_crash_safe_example :
    Recovers codec
      (create_snapshot codec world no_archive 9 (apply [] (set "a" "1")) logged_manager).1.disk
      (apply [] (set "a" "1"))
snapshot_crash_safe_example =
    snapshot_crash_safe codec codec_laws world no_archive 9 (apply [] (set "a" "1")) logged_manager
      logged_manager-IsDurable

abbrev first_line : Line
first_line = record_line (new_record codec 1 1 (set "a" "1"))

logged_manager-wal : logged_manager.disk.wal ≡ first_line ∷ []
unfolding log_operation_sync open_manager scan_max_sequence
logged_manager-wal = refl

unlogged_after_failed_archive_example :
    (pm' : PersistenceManager Line) × (snapshot codec world no_archive 9
        (store_of codec (apply [] (set "a" "1")) logged_manager)
      ≡ (err create_archive, store_of codec (apply [] (set "a" "1")) pm'))
    × (set_key codec world "b" "2" (store_of codec (apply [] (set "a" "1")) pm')
        ≡ (ok tt, store_of codec (apply (apply [] (set "a" "1")) (set "b" "2")) pm'))
unlogged_after_failed_archive_example =
    unlogged_after_failed_archive codec codec_laws world no_archive 9 "b" "2"
      (apply [] (set "a" "1")) logged_manager first_line [] logged_manager-IsDurable
      logged_manager-wal refl refl refl refl refl

async_overtaken_example :
    (pm' : PersistenceManager Line) × (t : KvStore Line) × ((overtake codec world "k" "old" "new"
        store).persistence
      ≡ some pm')
    × (get codec "k" (overtake codec world "k" "old" "new" store) ≡ some "new")
    × (open_store codec pm'.disk ≡ ok t)
    × (get codec "k" t ≡ some "old")
async_overtaken_example =
    async_overtaken codec codec_laws world (λ n. refl) "k" "old" "new" [] manager manager-IsDurable

broken_set : (set_key codec broken "a" "1" store).0 ≡ err write_wal
unfolding set_key open_manager
broken_set = refl

set_key-err_example : (set_key codec broken "a" "1" store).1.contents ≡ []
set_key-err_example = set_key-err codec broken "a" "1" store write_wal broken_set

abbrev damaged : KvWalRecord
damaged = record {
  format_version = 2;
  sequence = 4;
  timestamp_millis = 4;
  operation = set "x" "y";
  checksum = 0;
}

damaged_invalid : valid codec damaged ≡ false
unfolding valid
damaged_invalid = refl

wal_operations-invalid_example :
    wal_operations codec (first_line ∷ record_line damaged ∷ first_line ∷ [])
    ≡ wal_operations codec (first_line ∷ [])
wal_operations-invalid_example =
    wal_operations-invalid codec (first_line ∷ []) (first_line ∷ []) (record_line damaged) damaged
      refl refl damaged_invalid

wal_operations-torn_example :
    wal_operations codec (first_line ∷ torn ∷ first_line ∷ [])
    ≡ wal_operations codec (first_line ∷ first_line ∷ [])
wal_operations-torn_example =
    wal_operations-torn codec (first_line ∷ []) (first_line ∷ []) torn refl refl

abbrev used_disk : Disk Line
used_disk = record { db = none; wal = first_line ∷ record_line damaged ∷ []; wal_archive = [] }

used_sequence : scan_max_sequence codec used_disk ≡ 1
unfolding scan_max_sequence new_record
used_sequence = refl

open_manager_fresh_example :
    All (IsBelow codec (open_manager codec used_disk).next_sequence) used_disk.wal
open_manager_fresh_example = open_manager_fresh codec used_disk (omega (arith, used_sequence))

log_sequence_fresh_example :
    (max_sequence codec (log_operation_sync codec world (set "a" "1") manager).1.disk.wal
      < (log_operation_sync codec world (set "a" "1") manager).1.next_sequence)
    × (manager.next_sequence
        < (log_operation_sync codec world (set "a" "1") manager).1.next_sequence)
unfolding open_manager scan_max_sequence
log_sequence_fresh_example =
    log_sequence_fresh codec codec_laws world (set "a" "1") manager refl refl (omega arith)
      (omega arith)
