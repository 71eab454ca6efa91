-- ===== src/Kv/Durability.antt =====
-- What the disk holds, as against the map in memory, after each operation of the engine.
use Prim.Native.String.{String}
use rusty_db.Prelude.{
  ℕ, ◌≡◌, refl, sym, ap, ◌∙◌, inl, inr, Result-cases, Bool, true, false, ◌&&◌, ◌||◌, none, some,
  List, [], ◌∷◌, ◌++◌, arith, append_assoc, ok, ==_refl,
}
use rusty_db.Prelude.Assoc.{Assoc, NodupKeys, insert-NodupKeys, remove-NodupKeys}
use rusty_db.Kv.Persistence.{
  Codec, World, written, Operation, set, delete, clear, Disk, PersistenceManager, KvWalRecord,
  KvSnapshot, new_record, valid, log_operation_sync, wal_operations, snapshot_operations, recover,
}
use rusty_db.Kv.Store.{apply, replay}
use rusty_db.Kv.Replay.{SameMap, SameMap-apply, replay-append}

-- What the engine relies on of serde_json: a record or snapshot that was printed is read back, and
-- its line is not blank.
pub record CodecLaws {Line : Type 0} (c : Codec Line) : Type 0 where
  pub parse-print : (r : KvWalRecord) → c.parse_record (c.print_record r) ≡ some r
  pub print-ne-blank : (r : KvWalRecord) → c.is_blank (c.print_record r) ≡ false
  pub parse-print_snapshot : (s : KvSnapshot) → c.parse_snapshot (c.print_snapshot s) ≡ some s

module _ {Line : Type 0} (c : Codec Line) where
  -- No line is a record with a wrong version or checksum.
  abbrev pub intact : List Line → Bool
  intact [] = true
  intact (line ∷ lines) =
      (c.is_blank line || elim (c.parse_record line) [ some r ↦ valid c r | none ↦ true ])
      && intact lines

  -- Recovery succeeds, and gives the map.
  pub record Recovers (d : Disk Line) (m : Assoc String) : Type 0 where
    pub operations : List Operation
    pub recovered : recover c d ≡ ok operations
    pub same : SameMap (replay [] operations) m

  -- The log is open and intact, and the disk recovers the map.
  pub record IsLogged (m : Assoc String) (pm : PersistenceManager Line) : Type 0 where
    pub keys : NodupKeys m
    pub wal_open : pm.wal_open ≡ true
    pub whole : intact pm.disk.wal ≡ true
    pub recovers : Recovers pm.disk m

  -- Nothing is queued besides.
  pub record IsDurable (m : Assoc String) (pm : PersistenceManager Line) : Type 0 where
    pub logged : IsLogged m pm
    pub open logged use *
    pub queue : pm.pending_ops ≡ []

  pub recover-ok :
      (d : Disk Line) (ops : List Operation)
      → recover c d ≡ ok ops
      → (s : List Operation) × (snapshot_operations c d.db ≡ ok s)
        × (ops ≡ s ++ wal_operations c d.wal)
  unfolding recover
  recover-ok d ops h = elim (Result-cases (snapshot_operations c d.db)) [
    | inl (s, e) ↦ (s, e, ground (arith, e))
    | inr (x, e) ↦ ground (arith, e)
  ]

  pub recover-of :
      (d : Disk Line) (s : List Operation)
      → snapshot_operations c d.db ≡ ok s
      → recover c d ≡ ok (s ++ wal_operations c d.wal)
  unfolding recover
  recover-of d s e = rw (e, recover)

  pub valid-new_record : (n now : ℕ) (op : Operation) → valid c (new_record c n now op) ≡ true
  unfolding valid new_record
  valid-new_record n now op = ground (arith, ==_refl (c.kv_checksum n now op))

  pub apply-NodupKeys : (m : Assoc String) (op : Operation) → NodupKeys m → NodupKeys (apply m op)
  unfolding apply
  apply-NodupKeys m (set k v) h = insert-NodupKeys k v m h
  apply-NodupKeys m (delete k) h = remove-NodupKeys k m h
  apply-NodupKeys m clear h = tt

  module _ (laws : CodecLaws c) where
    wal_operations-append :
        (lines : List Line) (r : KvWalRecord)
        → intact lines ≡ true
        → valid c r ≡ true
        → wal_operations c (lines ++ c.print_record r ∷ [])
          ≡ wal_operations c lines ++ r.operation ∷ []
    unfolding wal_operations
    wal_operations-append [] r h v = ground (arith, laws.parse-print r, laws.print-ne-blank r)
    wal_operations-append (line ∷ lines) r h v = ground (arith, wal_operations-append lines r)

    intact-append :
        (lines : List Line) (r : KvWalRecord)
        → intact lines ≡ true
        → valid c r ≡ true
        → intact (lines ++ c.print_record r ∷ []) ≡ true
    intact-append [] r h v = ground (arith, laws.parse-print r, laws.print-ne-blank r)
    intact-append (line ∷ lines) r h v = ground (arith, intact-append lines r)

    recover-append :
        (d : Disk Line) (r : KvWalRecord) {ops : List Operation}
        → intact d.wal ≡ true
        → valid c r ≡ true
        → recover c d ≡ ok ops
        → recover c (record d { wal = d.wal ++ c.print_record r ∷ [] })
          ≡ ok (ops ++ r.operation ∷ [])
    recover-append d r {ops} h v e =
        let (s, es, eo) = recover-ok d ops e in
        recover-of (record d { wal = d.wal ++ c.print_record r ∷ [] }) s es
        ∙ ap ok (
            ap (λ t. s ++ t) (wal_operations-append d.wal r h v)
            ∙ sym (append_assoc s (wal_operations c d.wal) (r.operation ∷ []))
            ∙ ap (λ t. t ++ r.operation ∷ []) (sym eo))

    Recovers-append :
        (d : Disk Line) (r : KvWalRecord) (m : Assoc String)
        → intact d.wal ≡ true
        → valid c r ≡ true
        → Recovers d m
        → Recovers (record d { wal = d.wal ++ c.print_record r ∷ [] }) (apply m r.operation)
    Recovers-append d r m h v rec = record {
      operations = rec.operations ++ r.operation ∷ [];
      recovered = recover-append d r h v rec.recovered;
      same = λ k.
          rw (replay-append [] rec.operations (r.operation ∷ []))
            (unfold replay in SameMap-apply _ _ r.operation rec.same k);
    }

    -- A record that is written extends what recovery finds by its operation.
    pub log-IsLogged :
        (m : Assoc String) (w : World Line) (op : Operation) (pm : PersistenceManager Line)
        → IsLogged m pm
        → w.outcome pm.next_sequence ≡ written
        → IsLogged (apply m op) (log_operation_sync c w op pm).1
    unfolding log_operation_sync
    log-IsLogged m w op pm h io =
        let r = new_record c pm.next_sequence (w.now_millis pm.next_sequence) op in
        let v = valid-new_record pm.next_sequence (w.now_millis pm.next_sequence) op in
        simp (h.wal_open, io)
          record {
            keys = apply-NodupKeys m op h.keys;
            wal_open = refl;
            whole = intact-append pm.disk.wal r h.whole v;
            recovers = unfold new_record in Recovers-append pm.disk r m h.whole v h.recovers;
          }

    pub log-queue :
        (m : Assoc String) (w : World Line) (op : Operation) (pm : PersistenceManager Line)
        → IsLogged m pm
        → w.outcome pm.next_sequence ≡ written
        → (log_operation_sync c w op pm).1.pending_ops ≡ pm.pending_ops
    unfolding log_operation_sync
    log-queue m w op pm h io = simp (h.wal_open, io)

    pub log-IsDurable :
        (m : Assoc String) (w : World Line) (op : Operation) (pm : PersistenceManager Line)
        → IsDurable m pm
        → w.outcome pm.next_sequence ≡ written
        → IsDurable (apply m op) (log_operation_sync c w op pm).1
    log-IsDurable m w op pm h io = record {
      logged = log-IsLogged m w op pm h.logged io;
      queue = log-queue m w op pm h.logged io ∙ h.queue;
    }

  pub log-done :
      (m : Assoc String) (w : World Line) (op : Operation) (pm : PersistenceManager Line)
      → IsLogged m pm
      → w.outcome pm.next_sequence ≡ written
      → (log_operation_sync c w op pm).0 ≡ ok tt
  unfolding log_operation_sync
  log-done m w op pm h io = simp (h.wal_open, io)
