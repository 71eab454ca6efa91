-- ===== src/Table/Indexed.antt =====
-- src/sql/executor.rs: the indexes of a table hold, for each key, the IDs of the rows that have it.
pub mod Rebuild
pub mod Rows
use rusty_db.Prelude.{
  ok_injective, saturating_add, bind-ok, u64_max, drop, ◌∙◌, inr, inl, ap, sym, subst, Bool-cases,
  ℕ, zero, suc, ◌<◌, Bool, false, ◌||◌, ◌&&◌, Option, none, some, List, [], ◌∷◌, ◌++◌, All, length,
  get_elem?, set, if◌then◌else◌, ◌≡◌, refl, arith, ok, length-append,
}
use rusty_db.Prelude.Keyed.{same, AllValues, AllValues-put}
use rusty_db.Sql.Types.{Text}
use rusty_db.Table.Schema.{validate_row, TableSchema, IndexDef}
use rusty_db.Table.Keys.{keyed_by_text, IndexKey, keyed_by_number, keyed_by_parts}
use rusty_db.Table.Bloom.{IndexRuntime}
use rusty_db.Table.Index.{
  same_option, withdraw_old, BtreeIndex, Shows, Shows-eq, holds, note, renote, note-Shows,
  renote-Shows, empty_index, empty_index-Shows,
}
use rusty_db.Table.Store.{
  empty_table, row_id_at, row_at, insert_row_indexed, replace_row_indexed, new_table, Row, Table,
  index_key, fill, id_or, build_index, build_indexes, rebuild_index, note_row, renote_row,
}

-- Whether the row with this ID has this key.
unfoldable pub has_row : (Row → Option IndexKey) → List Row → List ℕ → IndexKey → ℕ → Bool
has_row f [] ids k j = false
has_row f (row ∷ rows) [] k j = false
has_row f (row ∷ rows) (id ∷ ids) k j = (holds k (f row) && same j id) || has_row f rows ids k j

-- The IDs grow from row to row.
abbrev pub IsIncreasing : List ℕ → Type 0
IsIncreasing [] = Unit
IsIncreasing (id ∷ ids) = All (λ later. id < later) ids × IsIncreasing ids

abbrev pub key_in : TableSchema → BtreeIndex → Row → Option IndexKey
key_in schema index row = index_key schema row index.definition.columns

module _ (ir : IndexRuntime) where
  abbrev pub Reflects : TableSchema → List Row → List ℕ → BtreeIndex → Type 0
  Reflects schema rows row_ids index = Shows ir (has_row (key_in schema index) rows row_ids) index

  pub record IsIndexed (t : Table) : Type 0 where
    pub same_length : length t.row_ids ≡ length t.rows
    pub increasing : IsIncreasing t.row_ids
    pub below_next : All (λ id. id < t.next_row_id) t.row_ids
    pub reflects : AllValues (Reflects t.schema t.rows t.row_ids) t.indexes

pub definition-note :
    (ir : IndexRuntime) (key : Option IndexKey) (row_id : ℕ) (index : BtreeIndex)
    → (note ir key row_id index).definition ≡ index.definition
unfolding note
definition-note ir none row_id index = refl
definition-note ir (some key) row_id index = refl

definition-withdraw_old :
    (key : Option IndexKey) (row_id : ℕ) (index : BtreeIndex)
    → (withdraw_old key row_id index).definition ≡ index.definition
unfolding withdraw_old
definition-withdraw_old none row_id index = refl
definition-withdraw_old (some key) row_id index = refl

pub definition-renote :
    (ir : IndexRuntime) (a b : Option IndexKey) (row_id : ℕ) (index : BtreeIndex)
    → (renote ir a b row_id index).definition ≡ index.definition
unfolding renote
definition-renote ir a b row_id index = elim (Bool-cases (same_option a b)) [
  | inl e ↦ rw e
  | inr e ↦ rw e (
      definition-note ir b row_id (withdraw_old a row_id index)
      ∙ definition-withdraw_old a row_id index)
]

pub has_row-append :
    (f : Row → Option IndexKey) (rows : List Row) (ids : List ℕ) (row : Row) (id : ℕ) (k : IndexKey)
    (j : ℕ)
    → length ids ≡ length rows
    → has_row f (rows ++ row ∷ []) (ids ++ id ∷ []) k j
      ≡ ((holds k (f row) && same j id) || has_row f rows ids k j)
unfolding has_row
has_row-append f [] [] row id k j h = refl
has_row-append f (r ∷ rows) (i ∷ ids) row id k j h =
    ground (arith, has_row-append f rows ids row id k j)
has_row-append f [] (i ∷ ids) row id k j h = absurd (omega arith)
has_row-append f (r ∷ rows) [] row id k j h = absurd (omega arith)

-- No row has an ID that is below those that are there.
has_row-below :
    (f : Row → Option IndexKey) (rows : List Row) (ids : List ℕ) (k : IndexKey) (j : ℕ)
    → All (λ later. j < later) ids
    → has_row f rows ids k j ≡ false
unfolding has_row
has_row-below f [] ids k j h = refl
has_row-below f (row ∷ rows) [] k j h = refl
has_row-below f (row ∷ rows) (id ∷ ids) k j (h, hs) =
    ground (arith, has_row-below f rows ids k j hs)

pub some_injective {ℓ} : {A : Type ℓ} {a b : A} → some a ≡ some b → a ≡ b
some_injective h = cc

pub All-get_elem? {ℓ κ} :
    {A : Type ℓ} (P : A → Type κ) (xs : List A) (at : ℕ) {x : A}
    → All P xs
    → get_elem? xs at ≡ some x
    → P x
All-get_elem? P [] at h e = absurd (cc e)
All-get_elem? P (y ∷ xs) zero h e = subst P (some_injective e) h.0
All-get_elem? P (y ∷ xs) (suc at) h e = All-get_elem? P xs at h.1 e

-- The row at a position is the one with the ID at that position.
pub has_row-get_elem? :
    (f : Row → Option IndexKey) (rows : List Row) (ids : List ℕ) (at : ℕ) (row : Row) (id : ℕ)
    (k : IndexKey)
    → IsIncreasing ids
    → get_elem? rows at ≡ some row
    → get_elem? ids at ≡ some id
    → has_row f rows ids k id ≡ holds k (f row)
unfolding has_row
has_row-get_elem? f [] ids at row id k inc hr hi = absurd (cc hr)
has_row-get_elem? f (r ∷ rows) [] at row id k inc hr hi = absurd (cc hi)
has_row-get_elem? f (r ∷ rows) (i ∷ ids) zero row id k inc hr hi =
    ground (arith, has_row-below f rows ids k i inc.0)
has_row-get_elem? f (r ∷ rows) (i ∷ ids) (suc at) row id k inc hr hi = ground (
  arith,
  has_row-get_elem? f rows ids at row id k inc.1 hr hi,
  All-get_elem? (λ later. i < later) ids at inc.0 hi,
)

pub has_row-set :
    (f : Row → Option IndexKey) (rows : List Row) (ids : List ℕ) (at : ℕ) (row previous : Row)
    (id : ℕ) (k : IndexKey) (j : ℕ)
    → IsIncreasing ids
    → get_elem? rows at ≡ some previous
    → get_elem? ids at ≡ some id
    → has_row f (set rows at row) ids k j
      ≡ (if same j id then holds k (f row) else has_row f rows ids k j)
unfolding has_row
has_row-set f [] ids at row previous id k j inc hr hi = absurd (cc hr)
has_row-set f (r ∷ rows) [] at row previous id k j inc hr hi = absurd (cc hi)
has_row-set f (r ∷ rows) (i ∷ ids) zero row previous id k j inc hr hi =
    ground (arith, has_row-below f rows ids k i inc.0)
has_row-set f (r ∷ rows) (i ∷ ids) (suc at) row previous id k j inc hr hi = ground (
  arith,
  has_row-set f rows ids at row previous id k j inc.1 hr hi,
  All-get_elem? (λ later. i < later) ids at inc.0 hi,
)
