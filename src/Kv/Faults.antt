-- ===== src/Kv/Faults.antt =====
-- Failed writes, damaged logs, and the two ways in which an acknowledged value can be lost.
use Prim.Native.String.{String}
use text.Mathlib.TextPositions.{eq_refl}
use rusty_db.Prelude.{
  ℕ, ◌≡◌, refl, sym, ap, ◌∙◌, subst, true, false, none, some, List, [], ◌∷◌, ◌++◌, arith, Result,
  ok, err,
}
use rusty_db.Prelude.Assoc.{Assoc, lookup, lookup-insert}
use rusty_db.Kv.Persistence.{
  Codec, World, written, KvError, create_archive, create_snapshot_file, write_snapshot_file,
  sync_snapshot_file, rename_snapshot, Operation, set, Effect, PersistenceManager, KvWalRecord,
  log_operation_sync, log_operation_async, flush, flush_ops, continue_flush, open_manager, valid,
  wal_operations,
}
use rusty_db.Kv.Snapshot.{Faults, create_snapshot, publish}
use rusty_db.Kv.Store.{
  KvStore, apply, replay, open_store, set_key, set_async, snapshot, flush_store, get, on_manager,
  with_manager, then_apply,
}
use rusty_db.Kv.Durability.{CodecLaws, IsLogged, IsDurable, log-IsLogged, log-done, log-queue}
use rusty_db.Kv.CrashSafety.{flush_empty}
use rusty_db.Kv.Service.{store_of, then_apply-done}

module _ {Line : Type 0} (c : Codec Line) where
  then_apply-err :
      {A : Type 0} (op : Operation) (result : Assoc String → A)
      (r : Result KvError (Unit {0}) × (KvStore Line)) (e : KvError)
      → (then_apply c op result r).0 ≡ err e
      → (then_apply c op result r).1.contents ≡ r.1.contents
  unfolding then_apply
  then_apply-err op result (ok u, s) e h = cc
  then_apply-err op result (err x, s) e h = refl

  on_manager-contents :
      (f : (PersistenceManager Line) → (Effect Line)) (s : KvStore Line)
      → (on_manager c f s).1.contents ≡ s.contents
  unfolding on_manager with_manager
  on_manager-contents f s = ground arith

  -- A `set` that returns an error leaves the map in memory as it was.
  pub set_key-err :
      (w : World Line) (k v : String) (s : KvStore Line) (e : KvError)
      → (set_key c w k v s).0 ≡ err e
      → (set_key c w k v s).1.contents ≡ s.contents
  unfolding set_key
  set_key-err w k v s e h =
      then_apply-err (set k v) (λ _. tt) (on_manager c (log_operation_sync c w (set k v)) s) e h
      ∙ on_manager-contents (log_operation_sync c w (set k v)) s

  -- A record with a wrong version or checksum hides all that stands behind it in the log from
  -- recovery.
  pub wal_operations-invalid :
      (front back : List Line) (line : Line) (r : KvWalRecord)
      → c.is_blank line ≡ false
      → c.parse_record line ≡ some r
      → valid c r ≡ false
      → wal_operations c (front ++ line ∷ back) ≡ wal_operations c front
  unfolding wal_operations
  wal_operations-invalid [] back line r b p v = ground (arith, b, p, v)
  wal_operations-invalid (l ∷ front) back line r b p v =
      ground (arith, wal_operations-invalid front back line r b p v)

  -- A line of the log that is neither a record nor an operation is skipped by recovery, and the
  -- lines behind it count.
  pub wal_operations-torn :
      (front back : List Line) (line : Line)
      → c.parse_record line ≡ none
      → c.parse_operation line ≡ none
      → wal_operations c (front ++ line ∷ back) ≡ wal_operations c (front ++ back)
  unfolding wal_operations
  wal_operations-torn [] back line p q = ground (arith, p, q)
  wal_operations-torn (l ∷ front) back line p q =
      ground (arith, wal_operations-torn front back line p q)

  -- `set_async`, then `set`, then `flush`.
  abbrev pub overtake : (World Line) → String → String → String → (KvStore Line) → (KvStore Line)
  overtake w k v1 v2 s = (flush_store c w (set_key c w k v2 (set_async c k v1 s)).1).1

  module _ (laws : CodecLaws c) (w : World Line) (io : (n : ℕ) → w.outcome n ≡ written) where
    async-IsLogged :
        (m : Assoc String) (op : Operation) (pm : PersistenceManager Line)
        → IsLogged c m pm
        → IsLogged c m (log_operation_async c op pm)
    unfolding log_operation_async
    async-IsLogged m op pm h = record {
      keys = h.keys;
      wal_open = h.wal_open;
      whole = h.whole;
      recovers = h.recovers;
    }

    async-queue :
        (op : Operation) (pm : PersistenceManager Line)
        → pm.pending_ops ≡ []
        → (log_operation_async c op pm).pending_ops ≡ op ∷ []
    unfolding log_operation_async
    async-queue op pm h = rw h

    continue_flush-nil : (e : Effect Line) → (continue_flush c (flush_ops c w []) e).1 ≡ e.1
    unfolding continue_flush flush_ops
    continue_flush-nil (ok u, pm) = refl
    continue_flush-nil (err x, pm) = refl

    flush_one_op :
        (m : Assoc String) (op : Operation) (pm : PersistenceManager Line)
        → IsLogged c m pm
        → IsLogged c (apply m op) (flush_ops c w (op ∷ []) pm).1
    unfolding flush_ops
    flush_one_op m op pm h =
        subst (IsLogged c (apply m op)) (sym (continue_flush-nil (log_operation_sync c w op pm)))
          (log-IsLogged c laws m w op pm h (io pm.next_sequence))

    flush_one :
        (m : Assoc String) (op : Operation) (pm : PersistenceManager Line)
        → IsLogged c m pm
        → pm.pending_ops ≡ op ∷ []
        → IsLogged c (apply m op) (flush c w pm).1
    unfolding flush
    flush_one m op pm h q = simp q (
        flush_one_op m op (record pm { pending_ops = [] })
          (record { keys = h.keys; wal_open = h.wal_open; whole = h.whole; recovers = h.recovers }))

    -- The literal run: what each of the three calls leaves.
    overtake-run :
        (k v1 v2 : String) (m : Assoc String) (pm : PersistenceManager Line)
        → IsDurable c m pm
        → overtake w k v1 v2 (store_of c m pm)
          ≡ store_of c
              (apply (apply m (set k v1)) (set k v2))
              (flush c w
                (log_operation_sync c w (set k v2) (log_operation_async c (set k v1) pm)).1).1
    unfolding set_key flush_store set_async on_manager with_manager
    overtake-run k v1 v2 m pm h =
        ap (λ r. (flush_store c w r.1).1)
          (then_apply-done c (set k v2) (λ _. tt) (apply m (set k v1)) _
            (log-done c m w (set k v2) (log_operation_async c (set k v1) pm)
              (async-IsLogged m (set k v1) pm h.logged) (io _)))

    overtake-IsLogged :
        (k v1 v2 : String) (m : Assoc String) (pm : PersistenceManager Line)
        → IsDurable c m pm
        → IsLogged c
            (apply (apply m (set k v2)) (set k v1))
            (flush c w
              (log_operation_sync c w (set k v2) (log_operation_async c (set k v1) pm)).1).1
    overtake-IsLogged k v1 v2 m pm h =
        let pm1 = log_operation_async c (set k v1) pm in
        let h1 = async-IsLogged m (set k v1) pm h.logged in
        flush_one (apply m (set k v2)) (set k v1) _
          (log-IsLogged c laws m w (set k v2) pm1 h1 (io pm1.next_sequence))
          (log-queue c laws m w (set k v2) pm1 h1 (io pm1.next_sequence)
            ∙ async-queue (set k v1) pm h.queue)

    lookup-set : (k v : String) (m : Assoc String) → lookup k (apply m (set k v)) ≡ some v
    unfolding apply
    lookup-set k v m = simp (lookup-insert, eq_refl)

    -- On a durable store with writes that succeed, after `set_async k v1`, `set k v2` and
    -- `flush` the store shows v2 under k, and the data directory opens with v1 under k.
    pub async_overtaken :
        (k v1 v2 : String) (m : Assoc String) (pm : PersistenceManager Line)
        → IsDurable c m pm
        → (pm' : PersistenceManager Line) × (t : KvStore Line) × ((overtake w k v1 v2
              (store_of c m pm)).persistence
            ≡ some pm')
          × (get c k (overtake w k v1 v2 (store_of c m pm)) ≡ some v2)
          × (open_store c pm'.disk ≡ ok t)
          × (get c k t ≡ some v1)
    unfolding get open_store replay open_manager
    async_overtaken k v1 v2 m pm h =
        let e = overtake-run k v1 v2 m pm h in
        let r = (overtake-IsLogged k v1 v2 m pm h).recovers in
        let pm' =
          (flush c w
            (log_operation_sync c w (set k v2) (log_operation_async c (set k v1) pm)).1).1 in
        (
          pm',
          record {
            contents = replay [] r.operations;
            persistence = some (open_manager c pm'.disk);
          },
          ap (λ s. s.persistence) e,
          ap (λ s. lookup k s.contents) e ∙ lookup-set k v2 (apply m (set k v1)),
          rw (r.recovered, open_store),
          r.same k ∙ lookup-set k v1 (apply m (set k v2)),
        )

  module _ (laws : CodecLaws c) (w : World Line) where
    unarchived : ℕ → Assoc String → (PersistenceManager Line) → (PersistenceManager Line)
    unarchived now m pm = record (publish c now m pm) { wal_open = false }

    create_snapshot-unarchived :
        (fault : Faults) (now : ℕ) (m : Assoc String) (pm : PersistenceManager Line) (line : Line)
        (lines : List Line)
        → pm.pending_ops ≡ []
        → pm.disk.wal ≡ line ∷ lines
        → fault create_snapshot_file ≡ false
        → fault write_snapshot_file ≡ false
        → fault sync_snapshot_file ≡ false
        → fault rename_snapshot ≡ false
        → fault create_archive ≡ true
        → create_snapshot c w fault now m pm ≡ (err create_archive, unarchived now m pm)
    unfolding create_snapshot unarchived
    create_snapshot-unarchived fault now m pm line lines q e f1 f2 f3 f4 f5 =
        rw (flush_empty c laws w pm q) (simp (f1, f2, f3, f4) (rw e (simp f5)))

    -- On a durable store with a log that is not empty, whose records JSON reads back, a
    -- snapshot whose files are published but whose archive directory cannot be made fails,
    -- and a later `set` is acknowledged and leaves the manager, its disk included, unchanged.
    pub unlogged_after_failed_archive :
        (fault : Faults) (now : ℕ) (k v : String) (m : Assoc String) (pm : PersistenceManager Line)
        (line : Line) (lines : List Line)
        → IsDurable c m pm
        → pm.disk.wal ≡ line ∷ lines
        → fault create_snapshot_file ≡ false
        → fault write_snapshot_file ≡ false
        → fault sync_snapshot_file ≡ false
        → fault rename_snapshot ≡ false
        → fault create_archive ≡ true
        → (pm' : PersistenceManager Line) × (snapshot c w fault now (store_of c m pm)
            ≡ (err create_archive, store_of c m pm'))
          × (set_key c w k v (store_of c m pm') ≡ (ok tt, store_of c (apply m (set k v)) pm'))
    unfolding snapshot set_key on_manager with_manager then_apply
    unlogged_after_failed_archive fault now k v m pm line lines h e f1 f2 f3 f4 f5 = (
      unarchived now m pm,
      ap (with_manager c m)
          (create_snapshot-unarchived fault now m pm line lines h.queue e f1 f2 f3 f4 f5),
      unfold unarchived log_operation_sync in refl,
    )
