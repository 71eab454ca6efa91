-- ===== src/Db/Plans.antt =====
-- src/sql/database.rs: a statement from the cache of plans is the one that parsing would give.
use rusty_db.Prelude.{
  ℕ, true, ◌&&◌, not, Option, none, some, [], ◌∷◌, Result, ok, err, ◌>>=◌, if_both, ◌==◌, leb,
  length, Bool-cases, inl, inr, ==→eq, ◌≡◌, refl, subst, sym, ap, arith,
}
use rusty_db.Sql.Types.{Text}
use rusty_db.Sql.Operators.{text_eq}
use rusty_db.Sql.Statement.{Statement}
use rusty_db.Db.TextMap.{find, remove, put}
use rusty_db.Db.Catalog.{DbError, Engine}
use rusty_db.Db.Log.{Codec}
use rusty_db.Db.Database.{Database, parsed, cached, parse_cached}
use rusty_db.Db.PlanCache.{
  PlanCacheEntry, Entries, PlanCache, oldest, evict_oldest, is_some, tick, found, get, room_for,
  insert,
}
use rusty_db.Db.PlanCache.Bounded.{IsBounded, get-IsBounded, insert-IsBounded}

text_eq→eq : (s t : Text) → text_eq s t ≡ true → s ≡ t
unfolding text_eq
text_eq→eq [] [] h = refl
text_eq→eq [] (d ∷ t) h = ground arith
text_eq→eq (c ∷ s) [] h = ground arith
text_eq→eq (c ∷ s) (d ∷ t) h = elim (Bool-cases (c == d)) [
  | inl same ↦ rw (==→eq c d same, text_eq→eq s t (rw same at h))
  | inr differs ↦ ground arith
]

or_else : PlanCacheEntry → Option PlanCacheEntry → PlanCacheEntry
or_else d none = d
or_else d (some x) = x

some_injective : (a b : PlanCacheEntry) → some a ≡ some b → a ≡ b
unfolding or_else
some_injective a b h = ap (or_else a) h

module _ {Line Tables Answer : Type 0} (e : Engine Tables Answer) (c : Codec Line Tables) where
  abbrev IsPlan : Text → Statement → Type 0
  IsPlan key plan = (s : Statement) × (e.parse_sql key ≡ ok s) × (plan ≡ e.optimize s)

  -- Each entry holds the optimized statement of its text.
  unfoldable pub AllPlans : Entries → Type 0
  AllPlans [] = Unit {0}
  AllPlans ((key, entry) ∷ es) = IsPlan key entry.statement × AllPlans es

  find-IsPlan :
      (sql : Text) (es : Entries) (entry : PlanCacheEntry)
      → AllPlans es
      → find sql es ≡ some entry
      → IsPlan sql entry.statement
  unfolding AllPlans find
  find-IsPlan sql [] entry plans h = ground arith
  find-IsPlan sql ((key, first) ∷ es) entry (plan, plans) h = elim (Bool-cases (text_eq sql key)) [
    | inl same ↦
        let eq = some_injective first entry (rw same at h) in
        subst (λ k. IsPlan k entry.statement) (sym (text_eq→eq sql key same))
          (subst (λ (x : PlanCacheEntry). IsPlan key x.statement) eq plan)
    | inr differs ↦ find-IsPlan sql es entry plans (rw differs at h)
  ]

  remove-AllPlans : (sql : Text) (es : Entries) → AllPlans es → AllPlans (remove sql es)
  unfolding AllPlans remove
  remove-AllPlans sql [] plans = tt
  remove-AllPlans sql ((key, entry) ∷ es) (plan, plans) =
      if_both AllPlans (text_eq sql key) (remove sql es) ((key, entry) ∷ remove sql es)
        (remove-AllPlans sql es plans) (plan, remove-AllPlans sql es plans)

  put-AllPlans :
      (sql : Text) (entry : PlanCacheEntry) (es : Entries)
      → IsPlan sql entry.statement
      → AllPlans es
      → AllPlans (put sql entry es)
  unfolding AllPlans put
  put-AllPlans sql entry es plan plans = (plan, remove-AllPlans sql es plans)

  evict-AllPlans : (es : Entries) → AllPlans es → AllPlans (evict_oldest es)
  unfolding evict_oldest
  evict-AllPlans [] plans = plans
  evict-AllPlans ((key, entry) ∷ es) plans =
      remove-AllPlans (oldest key entry.last_used es) ((key, entry) ∷ es) plans

  insert-AllPlans :
      (sql : Text) (version : ℕ) (plan : Statement) (cache : PlanCache)
      → IsPlan sql plan
      → AllPlans cache.entries
      → AllPlans (insert sql version plan cache).entries
  unfolding insert room_for
  insert-AllPlans sql version plan cache is_plan plans =
      if_both (λ (k : PlanCache). AllPlans k.entries) (cache.capacity == 0) _ _ plans
        (put-AllPlans sql _ (room_for sql cache) is_plan (
          if_both AllPlans
            (leb cache.capacity (length cache.entries) && not (is_some (find sql cache.entries))) _
            _ (evict-AllPlans cache.entries plans) plans))

  -- What `parse_cached` gives without a cache.
  unfoldable pub parse_plain : Text → Result DbError Statement
  parse_plain text = do s ← e.parse_sql (e.normalize text); ok (e.optimize s)

  abbrev IsParse :
      Result DbError Statement
      → Database Line Tables
      → Result DbError Statement × Database Line Tables
      → Type 0
  IsParse r db (result, db') =
      (result ≡ r)
      × AllPlans db'.plan_cache.entries
      × (db'.catalog ≡ db.catalog)
      × (db'.disk ≡ db.disk)

  parsed-IsParse :
      (key : Text) (version : ℕ) (db : Database Line Tables) (r : Result DbError Statement)
      → e.parse_sql key ≡ r
      → AllPlans db.plan_cache.entries
      → IsParse (r >>= λ s. ok (e.optimize s)) db (parsed e c key version db r)
  unfolding parsed
  parsed-IsParse key version db (err x) at plans = (refl, plans, refl, refl)
  parsed-IsParse key version db (ok s) at plans = (
    refl,
    insert-AllPlans key version (e.optimize s) db.plan_cache (s, at, refl) plans,
    refl,
    refl,
  )

  found-IsParse :
      (key : Text) (db : Database Line Tables) (cache : PlanCache) (o : Option PlanCacheEntry)
      → find key cache.entries ≡ o
      → AllPlans cache.entries
      → IsParse
          (e.parse_sql key >>= λ s. ok (e.optimize s))
          db
          (cached e c key db (found key db.catalog.schema_version cache o))
  unfolding cached found
  found-IsParse key db cache none at plans =
      parsed-IsParse key db.catalog.schema_version (record db { plan_cache = cache })
        (e.parse_sql key) refl plans
  found-IsParse key db cache (some entry) at plans =
      let (s, parses, plan) = find-IsPlan key cache.entries entry plans at in
      elim (Bool-cases (entry.catalog_version == db.catalog.schema_version)) [
        | inl current ↦ rw current (
          rw parses (ap (λ q. ok q) plan),
          put-AllPlans key (record entry { last_used = cache.clock }) cache.entries
              (s, parses, plan) plans,
          refl,
          refl,
        )
        | inr old ↦ rw old (
            parsed-IsParse key db.catalog.schema_version
              (record db { plan_cache = record cache { entries = remove key cache.entries } })
              (e.parse_sql key) refl (remove-AllPlans key cache.entries plans))
      ]

  -- With a cache that holds plans, `parse_cached` gives what parsing and optimizing the text
  -- gives, leaves such a cache, and leaves the catalog and the disk.
  pub parse_cached-parse_plain :
      (text : Text) (db : Database Line Tables)
      → AllPlans db.plan_cache.entries
      → ((parse_cached e c text db).0 ≡ parse_plain text)
        × AllPlans (parse_cached e c text db).1.plan_cache.entries
        × ((parse_cached e c text db).1.catalog ≡ db.catalog)
        × ((parse_cached e c text db).1.disk ≡ db.disk)
  unfolding parse_cached parse_plain get
  parse_cached-parse_plain text db plans =
      found-IsParse (e.normalize text) db (tick db.plan_cache)
        (find (e.normalize text) db.plan_cache.entries) refl plans

  parsed-IsBounded :
      (key : Text) (version : ℕ) (db : Database Line Tables) (r : Result DbError Statement)
      → IsBounded db.plan_cache
      → IsBounded (parsed e c key version db r).1.plan_cache
  unfolding parsed
  parsed-IsBounded key version db (ok s) bounded =
      insert-IsBounded key version (e.optimize s) db.plan_cache bounded
  parsed-IsBounded key version db (err x) bounded = bounded

  cached-IsBounded :
      (key : Text) (db : Database Line Tables) (r : Option Statement × PlanCache)
      → IsBounded r.1
      → IsBounded (cached e c key db r).1.plan_cache
  unfolding cached
  cached-IsBounded key db (some s, cache) bounded = bounded
  cached-IsBounded key db (none, cache) bounded =
      parsed-IsBounded key db.catalog.schema_version (record db { plan_cache = cache })
        (e.parse_sql key) bounded

  -- `parse_cached` keeps the number of entries within the capacity of the cache.
  pub parse_cached-IsBounded :
      (text : Text) (db : Database Line Tables)
      → IsBounded db.plan_cache
      → IsBounded (parse_cached e c text db).1.plan_cache
  unfolding parse_cached
  parse_cached-IsBounded text db bounded =
      cached-IsBounded (e.normalize text) db
        (get (e.normalize text) db.catalog.schema_version db.plan_cache)
        (get-IsBounded (e.normalize text) db.catalog.schema_version db.plan_cache bounded)
