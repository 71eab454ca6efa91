-- ===== src/Db/Linked.antt =====
-- src/sql/database.rs: what a transaction has to do with the database, and what keeps it.
use rusty_db.Prelude.{
  ℕ, Bool, true, false, not, ◌&&◌, Option, none, some, List, [], ◌∷◌, if_both, Bool-cases, inl, inr,
  ◌==◌, ◌≡◌, refl, ◌∙◌, arith,
}
use rusty_db.Sql.Statement.{Statement, is_write_statement}
use rusty_db.Db.Catalog.{
  Engine, EngineLaws, ExecutionResult, is_error, execute_catalog, accept, validated, DbError,
}
use rusty_db.Db.Log.{Codec, DurableStatement}
use rusty_db.Db.Database.{Database}
use rusty_db.Db.Session.{TransactionState, Session, noted, execute_in, is_empty, clear_if}
use rusty_db.Db.Durable.{RunsTo}
use rusty_db.Db.Runs.{IsFaithful, one-RunsTo, append-RunsTo}
use rusty_db.Db.Autocommit.{IsAfter}
use rusty_db.Db.System.{System, IsLinked, IsSound, set_session, after_call}

failed : (b : Bool) → (not b && true) ≡ false → b ≡ true
failed true h = refl
failed false h = ground arith

succeeded : (b w : Bool) → (not b && w) ≡ true → b ≡ false
succeeded true w h = ground arith
succeeded false w h = refl

module _ {Line Tables Answer : Type 0} (e : Engine Tables Answer) (c : Codec Line Tables) where
  pub IsLinked-after :
      (ds : List DurableStatement) (db db' : Database Line Tables)
      (transaction : Option (TransactionState Tables))
      → IsAfter e c ds db db'
      → IsLinked e c db transaction
      → IsLinked e c db' transaction
  unfolding IsLinked
  IsLinked-after ds db db' none after l = tt
  IsLinked-after ds db db' (some state) (k, runs, le, same) (base, ran, at, eq) =
      (base, ran, omega arith, λ now. eq (omega arith) ∙ same (omega arith))

  validated-error :
      (o : Option DbError) (old t : Tables) (r : ExecutionResult Answer)
      → is_error r ≡ false
      → is_error (validated e o old (r, t)).0 ≡ true
      → (validated e o old (r, t)).1 ≡ old
  unfolding validated
  validated-error none old t r fine h = ground arith
  validated-error (some x) old t r fine h = refl

  -- A write that fails leaves the tables.
  accept-error :
      (old t : Tables) (r : ExecutionResult Answer)
      → is_error (accept e old (r, t)).0 ≡ true
      → (accept e old (r, t)).1 ≡ old
  unfolding accept
  accept-error old t (ExecutionResult.error x) h = refl
  accept-error old t (ExecutionResult.answer a) h =
      validated-error (e.validate_catalog t) old t _ refl h
  accept-error old t (ExecutionResult.rows_affected n) h =
      validated-error (e.validate_catalog t) old t _ refl h
  accept-error old t ExecutionResult.transaction_started h =
      validated-error (e.validate_catalog t) old t _ refl h
  accept-error old t ExecutionResult.transaction_committed h =
      validated-error (e.validate_catalog t) old t _ refl h
  accept-error old t ExecutionResult.transaction_rolled_back h =
      validated-error (e.validate_catalog t) old t _ refl h

  -- A statement that does not write, or fails, leaves the tables.
  pub execute_catalog-keeps :
      EngineLaws e
      → (s : Statement) (t : Tables)
      → (not (is_error (execute_catalog e s t).0) && is_write_statement s) ≡ false
      → (execute_catalog e s t).1 ≡ t
  unfolding execute_catalog
  execute_catalog-keeps laws s t h = elim (Bool-cases (is_write_statement s)) [
    | inl writes ↦ rw writes (
        accept-error t (e.execute_statement s t).1 (e.execute_statement s t).0
          (failed _ (rw writes at h)))
    | inr reads ↦ rw reads (laws.read_keeps s t reads)
  ]

  pub noted-IsLinked :
      EngineLaws e
      → (db : Database Line Tables) (d : DurableStatement) (s : Statement)
        (state : TransactionState Tables)
      → IsFaithful e c d s state.catalog.tables
      → IsLinked e c db (some state)
      → IsLinked e c db (some (execute_in e c d s state))
  unfolding IsLinked execute_in noted
  noted-IsLinked laws db d s state faithful (base, ran, at, eq) =
      let r = execute_catalog e s state.catalog.tables in
      elim (Bool-cases (not (is_error r.0) && is_write_statement s)) [
        | inl wrote ↦ rw wrote (
          base,
          append-RunsTo e c state.statements (d ∷ []) base state.catalog.tables r.1 ran (
              one-RunsTo e c d s state.catalog.tables r.1 r.0 faithful refl
                (succeeded (is_error r.0) (is_write_statement s) wrote)),
          at,
          eq,
        )
        | inr kept ↦
            rw kept (base, rw (execute_catalog-keeps laws s state.catalog.tables kept) ran, at, eq)
      ]

  set_session-IsLinked :
      (db : Database Line Tables) (i : ℕ) (session : Session Tables) (sessions : ℕ → Session Tables)
      → IsLinked e c db session.transaction
      → ((j : ℕ) → IsLinked e c db (sessions j).transaction)
      → (j : ℕ) → IsLinked e c db (set_session e c i session sessions j).transaction
  set_session-IsLinked db i session sessions l ls j =
      if_both (λ (s : Session Tables). IsLinked e c db s.transaction) (i == j) session (sessions j)
        l (ls j)

  abbrev pub Grows : List DurableStatement → System Line Tables → System Line Tables → Type 0
  Grows ds sys sys' =
      IsSound e c sys' × RunsTo e c ds sys.database.catalog.tables sys'.database.catalog.tables

  -- A call that leaves the database to the session it was made in.
  pub call-Grows :
      (ds : List DurableStatement) (sys : System Line Tables) (i : ℕ) (r : ExecutionResult Answer)
      (db : Database Line Tables) (session : Session Tables)
      → IsSound e c sys
      → IsAfter e c ds sys.database db
      → IsLinked e c db session.transaction
      → Grows ds sys (after_call e c i (r, db, session) sys)
  unfolding IsSound
  call-Grows ds sys i r db session (keeps, linked) after l = (
    (
      after.0,
      set_session-IsLinked db i session sys.sessions l
          (λ j. IsLinked-after ds sys.database db (sys.sessions j).transaction after (linked j)),
    ),
    after.1,
  )

  pub clear-IsAfter :
      (b : Bool) (ds : List DurableStatement) (db db' : Database Line Tables)
      → IsAfter e c ds db db'
      → IsAfter e c ds db (clear_if e c b db')
  unfolding clear_if
  clear-IsAfter true ds db db' after = after
  clear-IsAfter false ds db db' after = after

  pub is_empty-nil : (ds : List DurableStatement) → is_empty e c ds ≡ true → ds ≡ []
  unfolding is_empty
  is_empty-nil [] h = refl
  is_empty-nil (_ ∷ _) h = ground arith
