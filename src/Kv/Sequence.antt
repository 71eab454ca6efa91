-- ===== src/Kv/Sequence.antt =====
-- Sequence numbers: a record never takes a number that a valid record of the directory has.

use rusty_db.Prelude.{ℕ, ◌≤◌, ◌<◌, max, ◌≡◌, true, some, List, [], ◌∷◌, ◌++◌, All, arith, u64_max}
use rusty_db.Kv.Persistence.{
  Codec, World, written, KvWalRecord, Operation, Disk, PersistenceManager, valid, new_record,
  log_operation_sync, scan_max_sequence, max_sequence, open_manager,
}
use rusty_db.Kv.Durability.{CodecLaws}

module _ {Line : Type 0} (c : Codec Line) where
  -- The line is no valid record with a number of `n` or above.
  abbrev pub IsBelow : ℕ → Line → Type 0
  IsBelow n line =
      (r : KvWalRecord) → c.parse_record line ≡ some r → valid c r ≡ true → r.sequence < n

  IsBelow-max_sequence :
      (lines : List Line) (n : ℕ) → max_sequence c lines < n → All (IsBelow n) lines
  unfolding max_sequence
  IsBelow-max_sequence [] n h = tt
  IsBelow-max_sequence (line ∷ lines) n h =
      ((λ r p v. ground (arith, p, v)), IsBelow-max_sequence lines n (ground arith))

  -- When a directory is opened whose largest sequence number is below 2 ^ 64 - 1, the next
  -- number is above that of every valid record in the log, those behind a damaged record
  -- included.
  pub open_manager_fresh :
      (d : Disk Line)
      → scan_max_sequence c d < u64_max
      → All (IsBelow (open_manager c d).next_sequence) d.wal
  unfolding open_manager scan_max_sequence
  open_manager_fresh d h = IsBelow-max_sequence d.wal _ (omega arith)

  max_sequence-append :
      (laws : CodecLaws c) (lines : List Line) (r : KvWalRecord)
      → max_sequence c (lines ++ c.print_record r ∷ []) ≤ max (max_sequence c lines) r.sequence
  unfolding max_sequence
  max_sequence-append laws [] r = ground (arith, laws.parse-print r)
  max_sequence-append laws (line ∷ lines) r = ground (arith, max_sequence-append laws lines r)

  -- A write that succeeds on an open log keeps the next sequence number above all that the log
  -- holds, and increases it, while it is below 2 ^ 64 - 1.
  pub log_sequence_fresh :
      (laws : CodecLaws c) (w : World Line) (op : Operation) (pm : PersistenceManager Line)
      → pm.wal_open ≡ true
      → w.outcome pm.next_sequence ≡ written
      → max_sequence c pm.disk.wal < pm.next_sequence
      → pm.next_sequence < u64_max
      → (max_sequence c (log_operation_sync c w op pm).1.disk.wal
          < (log_operation_sync c w op pm).1.next_sequence)
        × (pm.next_sequence < (log_operation_sync c w op pm).1.next_sequence)
  unfolding log_operation_sync new_record
  log_sequence_fresh laws w op pm o io h b =
      simp (o, io)
        (omega (
          arith,
          max_sequence-append laws pm.disk.wal
              (new_record c pm.next_sequence (w.now_millis pm.next_sequence) op),
        ))
