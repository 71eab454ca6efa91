-- ===== src/Kv/Persistence.antt =====
-- src/persistence.rs: the write-ahead log of the key-value engine, its snapshots and its recovery.
-- JSON (serde_json) and the checksum (crc32fast) are the parameter `Codec`; the clock and the
-- outcome of each write are the parameter `World`.
use Prim.Native.String.{String}
use rusty_db.Prelude.{
  ℕ, ◌+◌, ◌%◌, ◌^◌, max, Bool, true, ◌&&◌, Option, none, some, List, [], ◌∷◌, ◌++◌, map, Result, ok,
  err, ◌==◌, if◌then◌else◌, saturating_add, saturating_sub,
}
use rusty_db.Prelude.Assoc.{Assoc}

pub data Operation : Type 0 where
  set : String → String → Operation
  delete : String → Operation
  clear : Operation

abbrev pub kv_format_version : ℕ
kv_format_version = 2

pub record KvWalRecord : Type 0 where
  pub format_version : ℕ
  pub sequence : ℕ
  pub timestamp_millis : ℕ
  pub operation : Operation
  pub checksum : ℕ

pub record KvSnapshot : Type 0 where
  pub format_version : ℕ
  pub sequence : ℕ
  pub timestamp_millis : ℕ
  pub entries : Assoc String

-- A text file is its list of lines. `is_blank` is `line.trim().is_empty()`.
pub record Codec (Line : Type 0) : Type 0 where
  pub parse_record : Line → Option KvWalRecord
  pub print_record : KvWalRecord → Line
  pub parse_operation : Line → Option Operation
  pub parse_snapshot : List Line → Option KvSnapshot
  pub print_snapshot : KvSnapshot → List Line
  pub is_blank : Line → Bool
  pub kv_checksum : ℕ → ℕ → Operation → ℕ

pub data WriteOutcome (Line : Type 0) : Type 0 where
  written : (WriteOutcome Line)
  -- `writeln` fails, and may leave a torn line
  write_failed : List Line → (WriteOutcome Line)
  -- behind a torn line without its end: the write succeeds, and the line that was torn now holds
  -- the record as well
  joined : Line → (WriteOutcome Line)
  -- the line is in the file, and `sync_all` fails
  sync_failed : (WriteOutcome Line)

unfoldable pub replace_last {ℓ} : {Line : Type ℓ} → Line → List Line → List Line
replace_last longer [] = longer ∷ []
replace_last longer (line ∷ []) = longer ∷ []
replace_last longer (line ∷ next ∷ lines) = line ∷ replace_last longer (next ∷ lines)

-- `now_millis()` and the outcome of the write, for the record of each sequence number
pub record World (Line : Type 0) : Type 0 where
  pub now_millis : ℕ → ℕ
  pub outcome : ℕ → (WriteOutcome Line)

pub data KvError : Type 0 where
  write_wal sync_wal parse_operation_line : KvError
  create_snapshot_file write_snapshot_file sync_snapshot_file rename_snapshot : KvError
  create_archive archive_wal reopen_wal : KvError

-- The files of the data directory. `db` is rustydb.db, `wal` is rustydb.wal, and `wal_archive` holds
-- the segments that snapshots have archived.
pub record Disk (Line : Type 0) : Type 0 where
  pub db : Option (List Line)
  pub wal : List Line
  pub wal_archive : List (List Line)

-- `wal_open` is whether `wal_file` holds a file.
pub record PersistenceManager (Line : Type 0) : Type 0 where
  pub disk : (Disk Line)
  pub wal_open : Bool
  pub pending_ops : List Operation
  pub next_sequence : ℕ

abbrev pub set_entry : String × String → Operation
set_entry (k, v) = set k v

-- What a method that may fail returns, with the manager that it leaves behind.
abbrev pub Effect : Type 0 → Type 0
Effect Line = Result KvError (Unit {0}) × (PersistenceManager Line)

module _ {Line : Type 0} (c : Codec Line) where
  unfoldable pub new_record : ℕ → ℕ → Operation → KvWalRecord
  new_record sequence now op = record {
    format_version = kv_format_version;
    sequence = sequence;
    timestamp_millis = now;
    operation = op;
    checksum = c.kv_checksum sequence now op;
  }

  unfoldable pub valid : KvWalRecord → Bool
  valid r =
      r.format_version == kv_format_version
      && r.checksum == c.kv_checksum r.sequence r.timestamp_millis r.operation

  append_line : (PersistenceManager Line) → Line → (PersistenceManager Line)
  append_line m line = record m { disk = record m.disk { wal = m.disk.wal ++ line ∷ [] } }

  append_torn : (PersistenceManager Line) → List Line → (PersistenceManager Line)
  append_torn m torn = record m { disk = record m.disk { wal = m.disk.wal ++ torn } }

  write_line : (WriteOutcome Line) → Line → (PersistenceManager Line) → (Effect Line)
  unfolding append_line append_torn replace_last
  write_line written line m = (ok tt, append_line m line)
  write_line (write_failed torn) line m = (err write_wal, append_torn m torn)
  write_line (joined longer) line m =
      (ok tt, record m { disk = record m.disk { wal = replace_last longer m.disk.wal } })
  write_line sync_failed line m = (err sync_wal, append_line m line)

  -- `fetch_add` wraps at 2 ^ 64.
  unfoldable pub log_operation_sync :
      (World Line) → Operation → (PersistenceManager Line) → (Effect Line)
  unfolding write_line new_record
  log_operation_sync w op m =
      let n = m.next_sequence in
      if m.wal_open
      then write_line (w.outcome n) (c.print_record (new_record n (w.now_millis n) op))
          (record m { next_sequence = (n + 1) % 2 ^ 64 })
      else (ok tt, m)

  unfoldable pub log_operation_async :
      Operation → (PersistenceManager Line) → (PersistenceManager Line)
  log_operation_async op m = record m { pending_ops = m.pending_ops ++ op ∷ [] }

  unfoldable pub continue_flush :
      ((PersistenceManager Line) → (Effect Line)) → (Effect Line) → (Effect Line)
  continue_flush rest (ok _, m) = rest m
  continue_flush rest (err e, m) = (err e, m)

  unfoldable pub flush_ops :
      (World Line) → List Operation → (PersistenceManager Line) → (Effect Line)
  unfolding continue_flush log_operation_sync
  flush_ops w [] m = (ok tt, m)
  flush_ops w (op ∷ ops) m = continue_flush (flush_ops w ops) (log_operation_sync w op m)

  -- The queue is taken before the writes: after a failed write its rest is gone.
  unfoldable pub flush : (World Line) → (PersistenceManager Line) → (Effect Line)
  unfolding flush_ops
  flush w m = flush_ops w m.pending_ops (record m { pending_ops = [] })

  -- One round of the background thread: it writes each queued operation and ignores the outcomes.
  unfoldable pub background_writes :
      (World Line) → List Operation → (PersistenceManager Line) → (PersistenceManager Line)
  unfolding log_operation_sync
  background_writes w [] m = m
  background_writes w (op ∷ ops) m = background_writes w ops (log_operation_sync w op m).1

  unfoldable pub background_flush :
      (World Line) → (PersistenceManager Line) → (PersistenceManager Line)
  unfolding background_writes
  background_flush w m = background_writes w m.pending_ops (record m { pending_ops = [] })

  -- A line is a record, an operation of the old format, or is skipped; an invalid record ends the
  -- log.
  unfoldable pub wal_operations : List Line → List Operation
  unfolding valid
  wal_operations [] = []
  wal_operations (line ∷ lines) =
      let rest = wal_operations lines in
      if c.is_blank line then rest else elim (c.parse_record line) [
        | some r ↦ if valid r then r.operation ∷ rest else []
        | none ↦ elim (c.parse_operation line) [ some op ↦ op ∷ rest | none ↦ rest ]
      ]

  -- A snapshot of the old format: one operation on each line.
  unfoldable pub legacy_operations : List Line → Result KvError (List Operation)
  legacy_operations [] = ok []
  legacy_operations (line ∷ lines) =
      let rest = legacy_operations lines in
      if c.is_blank line then rest else elim (c.parse_operation line) [
        | none ↦ err parse_operation_line
        | some op ↦ elim rest [ ok ops ↦ ok (op ∷ ops) | err e ↦ err e ]
      ]

  unfoldable pub snapshot_operations : Option (List Line) → Result KvError (List Operation)
  unfolding legacy_operations
  snapshot_operations none = ok []
  snapshot_operations (some content) = elim (c.parse_snapshot content) [
    | some s ↦ ok (map set_entry s.entries)
    | none ↦ legacy_operations content
  ]

  unfoldable pub recover : (Disk Line) → Result KvError (List Operation)
  unfolding snapshot_operations wal_operations
  recover d = elim (snapshot_operations d.db) [
    | ok ops ↦ ok (ops ++ wal_operations d.wal)
    | err e ↦ err e
  ]

  unfoldable pub current_sequence : (PersistenceManager Line) → ℕ
  current_sequence m = saturating_sub m.next_sequence 1

  -- The largest sequence number of a valid record, also behind an invalid one.
  unfoldable pub max_sequence : List Line → ℕ
  unfolding valid
  max_sequence [] = 0
  max_sequence (line ∷ lines) =
      let rest = max_sequence lines in
      elim (c.parse_record line) [
        | some r ↦ if valid r then max r.sequence rest else rest
        | none ↦ rest
      ]

  unfoldable pub snapshot_sequence : Option (List Line) → ℕ
  snapshot_sequence none = 0
  snapshot_sequence (some content) = elim (c.parse_snapshot content) [
    | some s ↦ s.sequence
    | none ↦ 0
  ]

  unfoldable pub scan_max_sequence : (Disk Line) → ℕ
  unfolding snapshot_sequence max_sequence
  scan_max_sequence d = max (snapshot_sequence d.db) (max_sequence d.wal)

  -- `PersistenceManager::new` on a directory that it can lock and open.
  unfoldable pub open_manager : (Disk Line) → (PersistenceManager Line)
  unfolding scan_max_sequence
  open_manager d = record {
    disk = d;
    wal_open = true;
    pending_ops = [];
    next_sequence = saturating_add (scan_max_sequence d) 1;
  }
