-- ===== src/Kv/Service.antt =====
-- The store as its clients see it: every command does to the map what the plain map would do, and a
-- store that is opened again has the map that was acknowledged.
use Prim.Native.String.{String}
use mathlib.Core.List.{foldl}
use rusty_db.Prelude.{
  ℕ, ◌≡◌, refl, sym, ap, subst, ◌∙◌, false, some, List, [], ◌∷◌, Result, ok, err,
}
use rusty_db.Prelude.Assoc.{Assoc, lookup}
use rusty_db.Kv.Persistence.{
  Codec, World, written, KvError, Operation, Effect, PersistenceManager, log_operation_sync,
  open_manager,
}
use rusty_db.Kv.Snapshot.{create_snapshot}
use rusty_db.Kv.Store
use rusty_db.Kv.Store.{
  KvStore, apply, replay, open_store, set_key, delete_key, clear_all, get, on_manager, with_manager,
  then_apply, set_pairs, next_pair, count_all,
}
use rusty_db.Kv.Replay.{SameMap}
use rusty_db.Kv.Durability.{CodecLaws, IsDurable, log-IsDurable, log-done}
use rusty_db.Kv.CrashSafety.{snapshot-IsDurable}

-- A call of a client.
pub data Command : Type 0 where
  set : String → String → Command
  delete : String → Command
  clear : Command
  set_many : Assoc String → Command
  snapshot : ℕ → Command

-- What the plain map does.
unfoldable pub spec : Assoc String → Command → Assoc String
spec m (set k v) = apply m (Operation.set k v)
spec m (delete k) = apply m (Operation.delete k)
spec m clear = apply m Operation.clear
spec m (set_many pairs) = foldl (λ n p. apply n (Operation.set p.0 p.1)) m pairs
spec m (snapshot now) = m

module _ {Line : Type 0} (c : Codec Line) where
  pub record IsDurableStore (s : KvStore Line) : Type 0 where
    pub manager : (PersistenceManager Line)
    pub present : s.persistence ≡ some manager
    pub durable : IsDurable c s.contents manager

  abbrev pub store_of : Assoc String → (PersistenceManager Line) → (KvStore Line)
  store_of m pm = record { contents = m; persistence = some pm }

  pub store_of-eq : (s : KvStore Line) (h : IsDurableStore s) → s ≡ store_of s.contents h.manager
  store_of-eq s h =
      ap (λ p. let t : (KvStore Line) = record { contents = s.contents; persistence = p } in t)
        h.present

  unfoldable pub execute : (World Line) → Command → (KvStore Line) → (KvStore Line)
  execute w (set k v) s = (set_key c w k v s).1
  execute w (delete k) s = (delete_key c w k s).1
  execute w clear s = (clear_all c w s).1
  execute w (set_many pairs) s = (Store.set_many c w pairs s).1
  execute w (snapshot now) s = (Store.snapshot c w (λ _. false) now s).1

  unfoldable pub run : (World Line) → List Command → (KvStore Line) → (KvStore Line)
  run w [] s = s
  run w (cmd ∷ cmds) s = run w cmds (execute w cmd s)

  pub then_apply-done :
      {A : Type 0} (op : Operation) (result : Assoc String → A) (m : Assoc String) (e : Effect Line)
      → e.0 ≡ ok tt
      → then_apply c op result (with_manager c m e) ≡ (ok (result m), store_of (apply m op) e.1)
  unfolding then_apply with_manager
  then_apply-done op result m (ok u, pm) h = refl
  then_apply-done op result m (err x, pm) h = cc

  logged :
      {A : Type 0} (w : World Line) (op : Operation) (result : Assoc String → A) (m : Assoc String)
      (pm : PersistenceManager Line)
      → IsDurable c m pm
      → w.outcome pm.next_sequence ≡ written
      → then_apply c op result (on_manager c (log_operation_sync c w op) (store_of m pm))
        ≡ (ok (result m), store_of (apply m op) (log_operation_sync c w op pm).1)
  unfolding on_manager
  logged w op result m pm h io = then_apply-done op result m _ (log-done c m w op pm h.logged io)

  module _ (laws : CodecLaws c) (w : World Line) (io : (n : ℕ) → w.outcome n ≡ written) where
    -- The call succeeds, and leaves the map `m` on a durable store.
    abbrev Succeeds : {A : Type 0} → Result KvError A × (KvStore Line) → A → Assoc String → Type 0
    Succeeds e a m = (pm : PersistenceManager Line) × (e ≡ (ok a, store_of m pm)) × IsDurable c m pm

    logged-Succeeds :
        {A : Type 0} (op : Operation) (result : Assoc String → A) (m : Assoc String)
        (pm : PersistenceManager Line)
        → IsDurable c m pm
        → Succeeds
            (then_apply c op result (on_manager c (log_operation_sync c w op) (store_of m pm)))
            (result m)
            (apply m op)
    logged-Succeeds op result m pm h = (
      (log_operation_sync c w op pm).1,
      logged w op result m pm h (io pm.next_sequence),
      log-IsDurable c laws m w op pm h (io pm.next_sequence),
    )

    set_pairs-Succeeds :
        (pairs : Assoc String) (m : Assoc String) (pm : PersistenceManager Line)
        → IsDurable c m pm
        → Succeeds (set_pairs c w pairs (store_of m pm)) tt (spec m (set_many pairs))
    unfolding set_pairs spec
    set_pairs-Succeeds [] m pm h = (pm, refl, h)
    set_pairs-Succeeds ((k, v) ∷ pairs) m pm h =
        let (pm', e, h') = logged-Succeeds (Operation.set k v) (λ _. tt) m pm h in
        let (pm'', e', h'') = set_pairs-Succeeds pairs (apply m (Operation.set k v)) pm' h' in
        (pm'', ap (next_pair c (set_pairs c w pairs)) e ∙ (unfold next_pair in e'), h'')

    count_all-store :
        (n : ℕ) (e : Result KvError (Unit {0}) × (KvStore Line)) → (count_all c n e).1 ≡ e.1
    unfolding count_all
    count_all-store n (ok u, s) = refl
    count_all-store n (err x, s) = refl

    set_many-store :
        (pairs : Assoc String) (s : KvStore Line)
        → (Store.set_many c w pairs s).1 ≡ (set_pairs c w pairs s).1
    unfolding Store.set_many
    set_many-store pairs s = count_all-store _ (set_pairs c w pairs s)

    snapshot-store :
        (now : ℕ) (m : Assoc String) (pm : PersistenceManager Line)
        → (Store.snapshot c w (λ _. false) now (store_of m pm)).1
          ≡ store_of m (create_snapshot c w (λ _. false) now m pm).1
    unfolding Store.snapshot
    snapshot-store now m pm = refl

    execute-literal :
        (cmd : Command) (m : Assoc String) (pm : PersistenceManager Line)
        → IsDurable c m pm
        → (pm' : PersistenceManager Line) × (execute w cmd (store_of m pm)
            ≡ store_of (spec m cmd) pm')
          × IsDurable c (spec m cmd) pm'
    unfolding execute set_key delete_key clear_all spec
    execute-literal (set k v) m pm h =
        let (pm', e, h') = logged-Succeeds (Operation.set k v) (λ _. tt) m pm h in
        (pm', ap (λ r. r.1) e, h')
    execute-literal (delete k) m pm h =
        let (pm', e, h') =
          logged-Succeeds (Operation.delete k) (λ n. Store.is_some (lookup k n)) m pm h in
        (pm', ap (λ r. r.1) e, h')
    execute-literal clear m pm h =
        let (pm', e, h') = logged-Succeeds Operation.clear (λ _. tt) m pm h in
        (pm', ap (λ r. r.1) e, h')
    execute-literal (set_many pairs) m pm h =
        let (pm', e, h') = set_pairs-Succeeds pairs m pm h in
        (pm', set_many-store pairs (store_of m pm) ∙ ap (λ r. r.1) e, h')
    execute-literal (snapshot now) m pm h =
        let (e, h') = snapshot-IsDurable c laws w now m pm h in
        ((create_snapshot c w (λ _. false) now m pm).1, snapshot-store now m pm, h')

    -- On a durable store, with writes that succeed, each command changes the map as it
    -- changes a plain map, and leaves a durable store.
    pub execute-refines-spec :
        (cmd : Command) (s : KvStore Line)
        → IsDurableStore s
        → ((execute w cmd s).contents ≡ spec s.contents cmd) × IsDurableStore (execute w cmd s)
    execute-refines-spec cmd s h =
        let (pm', e, h') = execute-literal cmd s.contents h.manager h.durable in
        let eq = ap (execute w cmd) (store_of-eq s h) ∙ e in
        (
          ap (λ t. t.contents) eq,
          subst IsDurableStore (sym eq) (record { manager = pm'; present = refl; durable = h' }),
        )

    run-refines-spec :
        (cmds : List Command) (s : KvStore Line)
        → IsDurableStore s
        → ((run w cmds s).contents ≡ foldl spec s.contents cmds) × IsDurableStore (run w cmds s)
    unfolding run
    run-refines-spec [] s h = (refl, h)
    run-refines-spec (cmd ∷ cmds) s h =
        let (e, h') = execute-refines-spec cmd s h in
        let (e', h'') = run-refines-spec cmds (execute w cmd s) h' in
        (e' ∙ ap (λ m. foldl spec m cmds) e, h'')

    reopen-durable :
        (s : KvStore Line) (h : IsDurableStore s)
        → (t : KvStore Line) × (open_store c h.manager.disk ≡ ok t) × SameMap t.contents s.contents
    unfolding open_store
    reopen-durable s h =
        let r = h.durable.recovers in
        (
          record {
            contents = replay [] r.operations;
            persistence = some (open_manager c h.manager.disk);
          },
          rw (r.recovered, open_store),
          r.same,
        )

    -- From a durable store, after any sets, deletes, clears, set_manys and snapshots whose
    -- writes succeed, the data directory opens, to a store that shows under every key what
    -- the commands make of a plain map.
    pub reopen-run :
        (cmds : List Command) (s : KvStore Line)
        → IsDurableStore s
        → (pm : PersistenceManager Line) × (t : KvStore Line) × ((run w cmds s).persistence
            ≡ some pm)
          × (open_store c pm.disk ≡ ok t)
          × ((k : String) → get c k t ≡ lookup k (foldl spec s.contents cmds))
    reopen-run cmds s h =
        let (e, h') = run-refines-spec cmds s h in
        let (t, opened, same) = reopen-durable (run w cmds s) h' in
        (h'.manager, t, h'.present, opened, unfold get in λ k. same k ∙ ap (lookup k) e)
