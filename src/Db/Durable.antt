-- ===== src/Db/Durable.antt =====
-- src/sql/database.rs: the state in which what is on the disk opens with the tables in memory, and
-- how a record that is appended to the log keeps it.
use rusty_db.Prelude.{
  true, All, ℕ, ◌<◌, ◌≤◌, false, some, List, [], ◌∷◌, ◌++◌, append-nil, append_assoc, ok, le→leb,
  lt→leb, ==_refl, eq→==, ◌≡◌, refl, sym, ap, ◌∙◌, arith,
}
use rusty_db.Db.Catalog.{Catalog, Engine}
use rusty_db.Db.Log.{
  Codec, Disk, DurableStatement, WalRecord, CatalogSnapshot, new_record, valid, replay_statements,
  with_version, replay_transaction, replay_line, replay_wal, go, load_catalog, open_catalog,
}

-- serde_json reads back a record and a snapshot whose floats it keeps, and a record is not a blank
-- line.
pub record CodecLaws {Line Tables : Type 0} (c : Codec Line Tables) : Type 0 where
  pub parse_print_record :
      (r : WalRecord)
      → All (λ d. c.is_exact d ≡ true) r.statements
      → c.parse_record (c.print_record r) ≡ some r
  pub record_not_blank : (r : WalRecord) → c.is_blank (c.print_record r) ≡ false
  pub parse_print_catalog :
      (s : CatalogSnapshot Tables)
      → c.has_exact_floats s.tables ≡ true
      → c.parse_catalog (c.print_catalog s) ≡ some s

module _ {Line Tables Answer : Type 0} (e : Engine Tables Answer) (c : Codec Line Tables) where
  -- Lines that take the replay from one catalog to another, whatever follows.
  unfoldable pub Replays : List Line → Catalog Tables → Catalog Tables → Type 0
  Replays wal k k' = (more : List Line) → replay_wal e c (wal ++ more) k ≡ replay_wal e c more k'

  -- Lines without effect on a catalog that has this version or a later one.
  unfoldable pub IsApplied : List Line → ℕ → Type 0
  unfolding Replays
  IsApplied wal version = (k : Catalog Tables) → version ≤ k.version → Replays wal k k

  -- The same tables at the same version. The schema version counts for the cache of plans only.
  abbrev pub IsSame : Catalog Tables → Catalog Tables → Type 0
  IsSame k k' = (k.tables ≡ k'.tables) × (k.version ≡ k'.version)

  -- The directory opens with the catalog in memory, and its log holds no record beyond it.
  unfoldable pub IsDurable : Disk Line → Catalog Tables → Type 0
  unfolding Replays IsApplied
  IsDurable d k =
      (k₀ : Catalog Tables) × (k₁ : Catalog Tables) × (load_catalog e c d.catalog_json ≡ ok k₀)
      × Replays d.wal k₀ k₁
      × IsSame k₁ k
      × IsApplied d.wal k.version

  pub open-IsDurable :
      (d : Disk Line) (k : Catalog Tables)
      → IsDurable d k
      → (k₁ : Catalog Tables) × (open_catalog e c d ≡ ok k₁) × IsSame k₁ k
  unfolding IsDurable Replays open_catalog replay_wal
  open-IsDurable d k (k₀, k₁, load, replays, same, applied) =
      (k₁, rw load (ap (λ w. replay_wal e c w k₀) (sym (append-nil d.wal)) ∙ replays []), same)

  -- The statements of a record are read back as they were, and this is what they make of the tables
  -- when they are replayed.
  unfoldable pub RunsTo : List DurableStatement → Tables → Tables → Type 0
  RunsTo ds t t' =
      All (λ d. c.is_exact d ≡ true) ds
      × ((k : Catalog Tables)
          → k.tables ≡ t
          → (k' : Catalog Tables) × (replay_statements e c ds k ≡ ok k')
            × (k'.tables ≡ t')
            × (k'.version ≡ k.version))

  append-Replays :
      (wal : List Line) (line : Line) (k k₁ k₂ : Catalog Tables)
      → Replays wal k k₁
      → replay_line e c line k₁ ≡ go (ok k₂)
      → Replays (wal ++ line ∷ []) k k₂
  unfolding Replays replay_wal
  append-Replays wal line k k₁ k₂ replays step more =
      rw (append_assoc wal (line ∷ []) more, replays (line ∷ more), step, replay_wal)

  module _ (laws : CodecLaws c) where
    record_line :
        (base commit now : ℕ) (ds : List DurableStatement) (k : Catalog Tables)
        → All (λ d. c.is_exact d ≡ true) ds
        → replay_line e c (c.print_record (new_record e c base commit now ds)) k
          ≡ go (replay_transaction e c base commit ds k)
    unfolding replay_line valid new_record
    record_line base commit now ds k exact =
        rw
          (
            laws.record_not_blank (new_record e c base commit now ds),
            laws.parse_print_record (new_record e c base commit now ds) exact,
          )
          (rw (==_refl (c.wal_checksum base commit now ds)))

    -- A record that was committed before is skipped.
    record_applied :
        (base commit now : ℕ) (ds : List DurableStatement) (k : Catalog Tables)
        → All (λ d. c.is_exact d ≡ true) ds
        → commit ≤ k.version
        → replay_line e c (c.print_record (new_record e c base commit now ds)) k ≡ go (ok k)
    unfolding replay_transaction
    record_applied base commit now ds k exact h =
        rw (record_line base commit now ds k exact, le→leb commit k.version h)

    record_next :
        (base commit now : ℕ) (ds : List DurableStatement) (k k' : Catalog Tables)
        → All (λ d. c.is_exact d ≡ true) ds
        → k.version ≡ base
        → base < commit
        → replay_statements e c ds k ≡ ok k'
        → replay_line e c (c.print_record (new_record e c base commit now ds)) k
          ≡ go (ok (with_version e c commit k'))
    unfolding replay_transaction
    record_next base commit now ds k k' exact at newer runs = rw (
      record_line base commit now ds k exact,
      lt→leb k.version commit (omega arith),
      eq→== base k.version (sym at),
      runs,
    )

    -- The record of a commit from the version in memory, appended to the log, keeps the directory
    -- durable, for the tables that its statements make when replayed.
    pub append-IsDurable :
        (d : Disk Line) (k next : Catalog Tables) (now : ℕ) (ds : List DurableStatement)
        → IsDurable d k
        → k.version < next.version
        → RunsTo ds k.tables next.tables
        → IsDurable
            (record d {
              wal = d.wal ++ c.print_record (new_record e c k.version next.version now ds) ∷ [];
            })
            next
    unfolding IsDurable IsApplied RunsTo
    append-IsDurable d k next now ds (k₀, k₁, load, replays, (st, sv), applied) newer
          (exact, runs) =
        let (k₂, ran, et, ev) = runs k₁ st in
        let line = c.print_record (new_record e c k.version next.version now ds) in
        (
          k₀,
          with_version e c next.version k₂,
          load,
          append-Replays d.wal line k₀ k₁ (with_version e c next.version k₂) replays
              (record_next k.version next.version now ds k₁ k₂ exact sv newer ran),
          (et, refl),
          λ k' later.
              append-Replays d.wal line k' k' k' (applied k' (omega arith))
                (record_applied k.version next.version now ds k' exact later),
        )

    -- A record that does not lie beyond the catalog changes nothing.
    pub stale-IsDurable :
        (d : Disk Line) (k : Catalog Tables) (base commit now : ℕ) (ds : List DurableStatement)
        → All (λ d. c.is_exact d ≡ true) ds
        → IsDurable d k
        → commit ≤ k.version
        → IsDurable
            (record d { wal = d.wal ++ c.print_record (new_record e c base commit now ds) ∷ [] })
            k
    unfolding IsDurable IsApplied
    stale-IsDurable d k base commit now ds exact (k₀, k₁, load, replays, (st, sv), applied) old =
        let line = c.print_record (new_record e c base commit now ds) in
        (
          k₀,
          k₁,
          load,
          append-Replays d.wal line k₀ k₁ k₁ replays
              (record_applied base commit now ds k₁ exact (omega arith)),
          (st, sv),
          λ k' later.
              append-Replays d.wal line k' k' k' (applied k' later)
                (record_applied base commit now ds k' exact (omega arith)),
        )
