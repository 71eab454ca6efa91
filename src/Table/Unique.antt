-- ===== src/Table/Unique.antt =====
-- src/sql/executor.rs: what the checks of the catalog say of the rows of a table.
use rusty_db.Prelude.{
  All, subst, ℕ, zero, suc, ◌<◌, true, false, ◌&&◌, not, Option, none, some, List, [], ◌∷◌, length,
  get_elem?, ◌≡◌, refl, ◌∙◌, arith, ok, bind-ok, Bool-cases, inl, inr,
}
use rusty_db.Prelude.Keyed.{contains, find, AllValues, same-eq, same_refl}
use rusty_db.Sql.Types.{Text}
use rusty_db.Table.Schema.{TableSchema, IndexDef}
use rusty_db.Table.Keys.{IndexKey, has_null_part, keyed_by_number, keyed_by_parts, keyed_by_text}
use rusty_db.Table.Bloom.{IndexRuntime}
use rusty_db.Table.Index.{BtreeIndex, Entries, ids_at, holds}
use rusty_db.Table.Store.{Row, Table}
use rusty_db.Table.Indexed.{
  key_in, Reflects, IsIndexed, IsIncreasing, has_row-get_elem?, All-get_elem?,
}
use rusty_db.Table.Declared.{AllHeld, IsDeclared, declared_not_shared}
use rusty_db.Table.Conflicts.{shares_key, shares, shares_unique_key, id_there}
use rusty_db.Table.Validate.{
  validate_entries, validate_index, validate_indexes, validate_unique_indexes,
}

-- Two rows at different positions.
abbrev pub AreTwoRows : Table → ℕ → ℕ → Row → Row → Type 0
AreTwoRows t i j row other =
    (i < j) × (get_elem? t.rows i ≡ some row) × (get_elem? t.rows j ≡ some other)

-- In the columns of each unique index that the schema declares, two rows do not have the same key
-- without NULL.
abbrev pub IsUnique : Table → Type 0
IsUnique t =
    (i j : ℕ) (row other : Row)
    → AreTwoRows t i j row other
    → All (λ d. d.unique ≡ true → shares_key t.schema d.columns row other ≡ false) t.schema.indexes

contains_two :
    (ids : List ℕ) (a b : ℕ)
    → contains a ids ≡ true
    → contains b ids ≡ true
    → a < b
    → 1 < length ids
contains_two [] a b ha hb lt = absurd (cc ha)
contains_two (i ∷ []) a b ha hb lt = absurd (ground arith)
contains_two (i ∷ j ∷ ids) a b ha hb lt = omega arith

-- The IDs under a key without NULL are at most one, when the entries pass.
validate_entries-one :
    (name : Text) (entries : Entries) (key : IndexKey)
    → validate_entries name entries ≡ ok tt
    → has_null_part key ≡ false
    → 1 < length (ids_at key entries)
    → ⊥
unfolding validate_entries ids_at find
validate_entries-one name [] key h n l = absurd (omega arith)
validate_entries-one name ((k, ids) ∷ entries) key h n l =
    ground (arith, validate_entries-one name entries key, same-eq key k)

increasing-lt :
    (ids : List ℕ) (i j a b : ℕ)
    → IsIncreasing ids
    → i < j
    → get_elem? ids i ≡ some a
    → get_elem? ids j ≡ some b
    → a < b
increasing-lt [] i j a b inc l ha hb = absurd (cc ha)
increasing-lt (x ∷ ids) i zero a b inc l ha hb = absurd (omega arith)
increasing-lt (x ∷ ids) zero (suc j) a b inc l ha hb =
    subst (λ y. y < b) (ground arith) (All-get_elem? (λ later. x < later) ids j inc.0 hb)
increasing-lt (x ∷ ids) (suc i) (suc j) a b inc l ha hb =
    increasing-lt ids i j a b inc.1 (omega arith) ha hb

module _ (ir : IndexRuntime) (schema : TableSchema) (rows : List Row) (row_ids : List ℕ)
    (inc : IsIncreasing row_ids) (i j a b : ℕ) (row other : Row) (before : i < j)
    (row_at_i : get_elem? rows i ≡ some row) (row_at_j : get_elem? rows j ≡ some other)
    (id_at_i : get_elem? row_ids i ≡ some a) (id_at_j : get_elem? row_ids j ≡ some b) where
  -- In one unique index that passes, the two rows do not share the key.
  not_shared :
      (index : BtreeIndex) (key : Option IndexKey)
      → key_in schema index row ≡ key
      → Reflects ir schema rows row_ids index
      → validate_entries index.definition.name index.entries ≡ ok tt
      → shares key (key_in schema index other) ≡ false
  not_shared index none e s v = refl
  not_shared index (some key) e s v =
      elim (Bool-cases (not (has_null_part key) && holds key (key_in schema index other))) [
        | inr no_share ↦ no_share
        | inl shared ↦ absurd (
            validate_entries-one index.definition.name index.entries key v (ground arith) (
              contains_two (ids_at key index.entries) a b
                (s.ids key a
                  ∙ has_row-get_elem? (key_in schema index) rows row_ids i row a key inc row_at_i
                      id_at_i
                  ∙ rw e (same_refl key))
                (s.ids key b
                  ∙ has_row-get_elem? (key_in schema index) rows row_ids j other b key inc row_at_j
                      id_at_j
                  ∙ ground arith)
                (increasing-lt row_ids i j a b inc before id_at_i id_at_j)))
      ]

  validate_indexes_unique :
      (indexes : List (Text × BtreeIndex))
      → AllValues (Reflects ir schema rows row_ids) indexes
      → validate_indexes indexes ≡ ok tt
      → shares_unique_key schema row other indexes ≡ false
  unfolding validate_indexes validate_index
  validate_indexes_unique [] s v = refl
  validate_indexes_unique ((name, index) ∷ indexes) (s, ss) v =
      let (_, here, later) = bind-ok (validate_index index) _ tt v in
      ground (
        arith,
        validate_indexes_unique indexes ss later,
        not_shared index (key_in schema index row) refl s,
      )

all_not_shared :
    (schema : TableSchema) (row other : Row) (indexes : List (Text × BtreeIndex))
    (ds : List IndexDef)
    → AllHeld indexes ds
    → shares_unique_key schema row other indexes ≡ false
    → All (λ d. d.unique ≡ true → shares_key schema d.columns row other ≡ false) ds
all_not_shared schema row other indexes [] held h = tt
all_not_shared schema row other indexes (d ∷ ds) (here, later) h = (
  declared_not_shared schema row other indexes d.name d here h,
  all_not_shared schema row other indexes ds later h,
)

pub validate_unique_indexes-IsUnique :
    (ir : IndexRuntime) (t : Table)
    → IsIndexed ir t
    → IsDeclared t
    → validate_unique_indexes t ≡ ok tt
    → IsUnique t
unfolding validate_unique_indexes
validate_unique_indexes-IsUnique ir t h declared v i j row other (before, hi, hj) =
    let (a, ha) = id_there t.rows t.row_ids i row h.same_length hi in
    let (b, hb) = id_there t.rows t.row_ids j other h.same_length hj in
    all_not_shared t.schema row other t.indexes t.schema.indexes declared.held (
      validate_indexes_unique ir t.schema t.rows t.row_ids h.increasing i j a b row other before hi
        hj ha hb t.indexes h.reflects v)
