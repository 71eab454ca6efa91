-- ===== src/Db/Runs.antt =====
-- src/sql/database.rs: what the statements of a log record make of the tables when they are replayed.
use rusty_db.Prelude.{
  All, Bool, true, false, List, [], ◌∷◌, ◌++◌, ok, ◌≡◌, refl, ap, ◌∙◌, arith, bind-ok, ok_injective,
}
use rusty_db.Sql.Statement.{Statement, is_schema_statement}
use rusty_db.Db.Catalog.{Catalog, Engine, ExecutionResult, is_error, execute_catalog}
use rusty_db.Db.Log.{
  Codec, DurableStatement, bump_schema, replayed, replay_statement, replay_statements,
  durable_statement,
}
use rusty_db.Db.Durable.{RunsTo}

module _ {Line Tables Answer : Type 0} (e : Engine Tables Answer) (c : Codec Line Tables) where
  -- The statement that is read back from the log does what the statement that was executed did.
  unfoldable pub IsFaithful : DurableStatement → Statement → Tables → Type 0
  IsFaithful d s t =
      (c.is_exact d ≡ true)
      × ((s₀ : Statement) × (durable_statement e c d ≡ ok s₀)
          × (execute_catalog e s₀ t ≡ execute_catalog e s t))

  replayed-ok :
      (s : Statement) (k : Catalog Tables) (r : ExecutionResult Answer) (t : Tables)
      → is_error r ≡ false
      → replayed e c s k (r, t)
        ≡ ok (bump_schema e c (is_schema_statement s) (record k { tables = t }))
  unfolding replayed
  replayed-ok s k (ExecutionResult.answer a) t h = refl
  replayed-ok s k (ExecutionResult.rows_affected n) t h = refl
  replayed-ok s k ExecutionResult.transaction_started t h = refl
  replayed-ok s k ExecutionResult.transaction_committed t h = refl
  replayed-ok s k ExecutionResult.transaction_rolled_back t h = refl
  replayed-ok s k (ExecutionResult.error x) t h = ground arith

  bump_schema-keeps :
      (b : Bool) (k : Catalog Tables)
      → ((bump_schema e c b k).tables ≡ k.tables) × ((bump_schema e c b k).version ≡ k.version)
  bump_schema-keeps true k = (refl, refl)
  bump_schema-keeps false k = (refl, refl)

  pub one-RunsTo :
      (d : DurableStatement) (s : Statement) (t t' : Tables) (r : ExecutionResult Answer)
      → IsFaithful d s t
      → execute_catalog e s t ≡ (r, t')
      → is_error r ≡ false
      → RunsTo e c (d ∷ []) t t'
  unfolding RunsTo IsFaithful replay_statements replay_statement
  one-RunsTo d s t t' r (exact, (s₀, read, does)) ran fine = (
    (exact, tt),
    λ k at.
        let (bt, bv) = bump_schema-keeps (is_schema_statement s₀) (record k { tables = t' }) in
        (
          bump_schema e c (is_schema_statement s₀) (record k { tables = t' }),
          rw (read, at, does, ran, replayed-ok s₀ k r t' fine),
          bt,
          bv,
        ),
  )

  replay_statements-append :
      (ds more : List DurableStatement) (k k' : Catalog Tables)
      → replay_statements e c ds k ≡ ok k'
      → replay_statements e c (ds ++ more) k ≡ replay_statements e c more k'
  unfolding replay_statements
  replay_statements-append [] more k k' h =
      ap (replay_statements e c more) (ok_injective k k' (ok k) refl h)
  replay_statements-append (d ∷ ds) more k k' h =
      let (s, read, h₁) = bind-ok (durable_statement e c d) _ k' h in
      let (k₁, ran, h₂) = bind-ok (replay_statement e c s k) (replay_statements e c ds) k' h₁ in
      rw (read, ran) (replay_statements-append ds more k₁ k' h₂)

  pub nil-RunsTo : (t : Tables) → RunsTo e c [] t t
  unfolding RunsTo replay_statements
  nil-RunsTo t = (tt, λ k at. (k, refl, at, refl))

  exact-append :
      (ds more : List DurableStatement)
      → All (λ d. c.is_exact d ≡ true) ds
      → All (λ d. c.is_exact d ≡ true) more
      → All (λ d. c.is_exact d ≡ true) (ds ++ more)
  exact-append [] more h k = k
  exact-append (d ∷ ds) more h k = (h.0, exact-append ds more h.1 k)

  pub append-RunsTo :
      (ds : List DurableStatement) (more : List DurableStatement) (t t₁ t₂ : Tables)
      → RunsTo e c ds t t₁
      → RunsTo e c more t₁ t₂
      → RunsTo e c (ds ++ more) t t₂
  unfolding RunsTo
  append-RunsTo ds more t t₁ t₂ (exact₁, first) (exact₂, then) = (
    exact-append ds more exact₁ exact₂,
    λ k at.
        let (k₁, ran₁, at₁, v₁) = first k at in
        let (k₂, ran₂, at₂, v₂) = then k₁ at₁ in
        (k₂, replay_statements-append ds more k k₁ ran₁ ∙ ran₂, at₂, v₂ ∙ v₁),
  )
