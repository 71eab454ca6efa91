-- ===== src/Table/Conflicts.antt =====
-- src/sql/executor.rs: `unique_conflict_positions` finds the rows that share a unique key.
use rusty_db.Prelude.{
  ℕ, zero, suc, ◌<◌, Bool, false, ◌||◌, ◌&&◌, not, Option, none, some, List, [], ◌∷◌, any, length,
  get_elem?, if◌then◌else◌, ◌≡◌, refl, arith, ◌==◌,
}
use rusty_db.Prelude.Keyed.{same, contains, add, find, AllValues, contains-add}
use rusty_db.Sql.Types.{Text}
use rusty_db.Table.Schema.{TableSchema, position}
use rusty_db.Table.Keys.{IndexKey, has_null_part, keyed_by_number, keyed_by_parts, keyed_by_text}
use rusty_db.Table.Bloom.{IndexRuntime}
use rusty_db.Table.Index.{BtreeIndex, ids_at, or_no_ids, holds}
use rusty_db.Table.Store.{
  Row, Table, index_key, add_positions, key_conflicts, conflicts_in, unique_conflict_positions,
}
use rusty_db.Table.Indexed.{
  IsIncreasing, key_in, Reflects, IsIndexed, has_row-get_elem?, All-get_elem?,
}

-- The rows have the same key in these columns, and no part of it is NULL.
abbrev pub shares : Option IndexKey → Option IndexKey → Bool
shares none other = false
shares (some key) other = not (has_null_part key) && holds key other

abbrev pub shares_key : TableSchema → List Text → Row → Row → Bool
shares_key schema columns row other =
    shares (index_key schema row columns) (index_key schema other columns)

abbrev pub shares_unique_key : TableSchema → Row → Row → List (Text × BtreeIndex) → Bool
shares_unique_key schema row other indexes =
    any
      (λ (entry : Text × BtreeIndex).
        entry.1.definition.unique && shares_key schema entry.1.definition.columns row other)
      indexes

abbrev is_at : ℕ → Option ℕ → Bool
is_at at none = false
is_at at (some p) = same at p

is_at-position :
    (ids : List ℕ) (at j : ℕ) (id : ℕ)
    → IsIncreasing ids
    → get_elem? ids at ≡ some id
    → is_at at (position (λ i. i == j) ids) ≡ same id j
unfolding position
is_at-position [] at j id inc h = absurd (cc h)
is_at-position (i ∷ ids) zero j id inc h =
    elim (position (λ i. i == j) ids)
      as (λ o.
        is_at zero (if i == j then some 0 else elim o [ none ↦ none | some p ↦ some (suc p) ])
        ≡ same id j) [ none ↦ ground arith | some p ↦ ground arith ]
is_at-position (i ∷ ids) (suc at) j id inc h =
    ground
      (arith, is_at-position ids at j id inc.1 h, All-get_elem? (λ later. i < later) ids at inc.0 h)

contains-add_at :
    (at : ℕ) (o : Option ℕ) (rest : List ℕ)
    → contains at (elim o [ none ↦ rest | some p ↦ add p rest ]) ≡ (is_at at o || contains at rest)
contains-add_at at none rest = refl
contains-add_at at (some p) rest = contains-add at p rest

contains-add_positions :
    (row_ids ids conflicts : List ℕ) (at id : ℕ)
    → IsIncreasing row_ids
    → get_elem? row_ids at ≡ some id
    → contains at (add_positions row_ids ids conflicts) ≡ (contains id ids || contains at conflicts)
unfolding add_positions
contains-add_positions row_ids [] conflicts at id inc h = refl
contains-add_positions row_ids (j ∷ ids) conflicts at id inc h = ground (
  arith,
  contains-add_at at (position (λ i. i == j) row_ids) (add_positions row_ids ids conflicts),
  contains-add_positions row_ids ids conflicts at id inc h,
  is_at-position row_ids at j id inc h,
)

module _ (ir : IndexRuntime) (schema : TableSchema) (rows : List Row) (row_ids : List ℕ)
    (inc : IsIncreasing row_ids) (row other : Row) (at id : ℕ)
    (row_there : get_elem? rows at ≡ some other) (id_there : get_elem? row_ids at ≡ some id) where
  contains-key_conflicts :
      (key : Option IndexKey) (index : BtreeIndex) (conflicts : List ℕ)
      → Reflects ir schema rows row_ids index
      → contains at (key_conflicts ir row_ids key index conflicts)
        ≡ (shares key (key_in schema index other) || contains at conflicts)
  unfolding key_conflicts ids_at
  contains-key_conflicts none index conflicts s = refl
  contains-key_conflicts (some key) index conflicts s = ground (
    arith,
    contains-add_positions row_ids (or_no_ids (find key index.entries)) conflicts at id inc
        id_there,
    s.ids key id,
    s.seen key id,
    has_row-get_elem? (key_in schema index) rows row_ids at other id key inc row_there id_there,
  )

  contains-conflicts_in :
      (indexes : List (Text × BtreeIndex))
      → AllValues (Reflects ir schema rows row_ids) indexes
      → contains at (conflicts_in ir schema row_ids row indexes)
        ≡ shares_unique_key schema row other indexes
  unfolding conflicts_in
  contains-conflicts_in [] s = refl
  contains-conflicts_in ((name, index) ∷ indexes) (s, ss) = ground (
    arith,
    contains-conflicts_in indexes ss,
    contains-key_conflicts (key_in schema index row) index
        (conflicts_in ir schema row_ids row indexes) s,
  )

pub id_there :
    (rows : List Row) (ids : List ℕ) (at : ℕ) (row : Row)
    → length ids ≡ length rows
    → get_elem? rows at ≡ some row
    → (id : ℕ) × (get_elem? ids at ≡ some id)
id_there [] ids at row h e = absurd (cc e)
id_there (r ∷ rows) [] at row h e = absurd (omega arith)
id_there (r ∷ rows) (i ∷ ids) zero row h e = (i, refl)
id_there (r ∷ rows) (i ∷ ids) (suc at) row h e = id_there rows ids at row (omega arith) e

-- In a table whose indexes follow its rows, a position is a conflict of a row exactly when the
-- row there has, in the columns of a unique index, the same key without a NULL.
pub unique_conflict_positions-shares_unique_key :
    (ir : IndexRuntime) (t : Table) (row other : Row) (at : ℕ)
    → IsIndexed ir t
    → get_elem? t.rows at ≡ some other
    → contains at (unique_conflict_positions ir row t)
      ≡ shares_unique_key t.schema row other t.indexes
unfolding unique_conflict_positions
unique_conflict_positions-shares_unique_key ir t row other at h there =
    let (id, e) = id_there t.rows t.row_ids at other h.same_length there in
    contains-conflicts_in ir t.schema t.rows t.row_ids h.increasing row other at id there e
      t.indexes h.reflects
