-- ===== src/Kv/Store.antt =====
-- src/kvstore.rs: the in-memory map, and the log in front of it.
use Prim.Native.String.{String}
use mathlib.Core.List.{foldl}
use mathlib.Core.Option
use rusty_db.Prelude.{
  ℕ, Bool, true, false, Option, none, some, List, [], ◌∷◌, Result, ok, err, length,
}
use rusty_db.Prelude.Assoc.{Assoc, lookup, insert, remove}
use rusty_db.Kv.Persistence.{
  Codec, World, KvError, Operation, set, delete, clear, Disk, PersistenceManager, Effect,
  log_operation_sync, log_operation_async, flush, recover, current_sequence, open_manager,
}
use rusty_db.Kv.Snapshot.{Faults, create_snapshot}

-- `persistence` is `None` for a store in memory only.
pub record KvStore (Line : Type 0) : Type 0 where
  pub contents : Assoc String
  pub persistence : Option (PersistenceManager Line)

unfoldable pub apply : Assoc String → Operation → Assoc String
apply m (set k v) = insert k v m
apply m (delete k) = remove k m
apply m clear = []

unfoldable pub replay : Assoc String → List Operation → Assoc String
unfolding apply
replay = foldl apply

abbrev pub is_some {ℓ} : {A : Type ℓ} → Option A → Bool
is_some none = false
is_some (some _) = true

unfoldable pub new : {Line : Type 0} → KvStore Line
new = record { contents = []; persistence = none }

module _ {Line : Type 0} (c : Codec Line) where
  -- `with_persistence`: open the directory, and replay what is recovered.
  unfoldable pub open_store : (Disk Line) → Result KvError (KvStore Line)
  unfolding replay recover open_manager
  open_store d = elim (recover c d) [
    | ok ops ↦ ok (record { contents = replay [] ops; persistence = some (open_manager c d) })
    | err e ↦ err e
  ]

  unfoldable pub with_manager :
      Assoc String → (Effect Line) → Result KvError (Unit {0}) × (KvStore Line)
  with_manager m (r, pm) = (r, record { contents = m; persistence = some pm })

  -- Runs a method of the manager, if there is one.
  unfoldable pub on_manager :
      ((PersistenceManager Line) → (Effect Line))
      → (KvStore Line)
      → Result KvError (Unit {0}) × (KvStore Line)
  unfolding with_manager
  on_manager f s = elim s.persistence [
    | none ↦ (ok tt, s)
    | some pm ↦ with_manager s.contents (f pm)
  ]

  -- The log comes first; its error leaves the map as it was.
  unfoldable pub then_apply :
      {A : Type 0}
      → Operation
      → (Assoc String → A)
      → Result KvError (Unit {0}) × (KvStore Line)
      → Result KvError A × (KvStore Line)
  unfolding apply
  then_apply op result (ok _, s) =
      (ok (result s.contents), record s { contents = apply s.contents op })
  then_apply op result (err e, s) = (err e, s)

  unfoldable pub set_key :
      (World Line) → String → String → (KvStore Line) → Result KvError (Unit {0}) × (KvStore Line)
  unfolding then_apply on_manager log_operation_sync
  set_key w k v s = then_apply (set k v) (λ _. tt) (on_manager (log_operation_sync c w (set k v)) s)

  -- `remove(key).is_some()` tells whether the key was there.
  unfoldable pub delete_key :
      (World Line) → String → (KvStore Line) → Result KvError Bool × (KvStore Line)
  unfolding then_apply on_manager log_operation_sync
  delete_key w k s =
      then_apply (delete k) (λ m. is_some (lookup k m))
        (on_manager (log_operation_sync c w (delete k)) s)

  unfoldable pub clear_all :
      (World Line) → (KvStore Line) → Result KvError (Unit {0}) × (KvStore Line)
  unfolding then_apply on_manager log_operation_sync
  clear_all w s = then_apply clear (λ _. tt) (on_manager (log_operation_sync c w clear) s)

  unfoldable pub set_async : String → String → (KvStore Line) → (KvStore Line)
  unfolding apply log_operation_async
  set_async k v s = record {
    contents = apply s.contents (set k v);
    persistence = Option.map (log_operation_async c (set k v)) s.persistence;
  }

  -- `set_many` stops at the first error; the pairs before it stay.
  unfoldable pub count_all :
      ℕ → Result KvError (Unit {0}) × (KvStore Line) → Result KvError ℕ × (KvStore Line)
  count_all n (ok _, s) = (ok n, s)
  count_all n (err e, s) = (err e, s)

  unfoldable pub next_pair :
      ((KvStore Line) → Result KvError (Unit {0}) × (KvStore Line))
      → Result KvError (Unit {0}) × (KvStore Line)
      → Result KvError (Unit {0}) × (KvStore Line)
  next_pair rest (ok _, s) = rest s
  next_pair rest (err e, s) = (err e, s)

  unfoldable pub set_pairs :
      (World Line) → Assoc String → (KvStore Line) → Result KvError (Unit {0}) × (KvStore Line)
  unfolding set_key next_pair
  set_pairs w [] s = (ok tt, s)
  set_pairs w ((k, v) ∷ pairs) s = next_pair (set_pairs w pairs) (set_key w k v s)

  unfoldable pub set_many :
      (World Line) → Assoc String → (KvStore Line) → Result KvError ℕ × (KvStore Line)
  unfolding set_pairs count_all
  set_many w pairs s = count_all (length pairs) (set_pairs w pairs s)

  unfoldable pub get : String → (KvStore Line) → Option String
  get k s = lookup k s.contents

  unfoldable pub get_many : List String → (KvStore Line) → Assoc String
  get_many [] s = []
  get_many (k ∷ ks) s =
      let rest = get_many ks s in
      elim (lookup k s.contents) [ some v ↦ (k, v) ∷ rest | none ↦ rest ]

  unfoldable pub len : (KvStore Line) → ℕ
  len s = length s.contents

  unfoldable pub snapshot :
      (World Line) → Faults → ℕ → (KvStore Line) → Result KvError (Unit {0}) × (KvStore Line)
  unfolding on_manager create_snapshot
  snapshot w fault now s = on_manager (create_snapshot c w fault now s.contents) s

  unfoldable pub flush_store :
      (World Line) → (KvStore Line) → Result KvError (Unit {0}) × (KvStore Line)
  unfolding on_manager flush
  flush_store w s = on_manager (flush c w) s

  unfoldable pub sequence : (KvStore Line) → ℕ
  unfolding current_sequence
  sequence s = elim s.persistence [ none ↦ 0 | some pm ↦ current_sequence c pm ]
