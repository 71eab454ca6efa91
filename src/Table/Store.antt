-- ===== src/Table/Store.antt =====
-- src/sql/executor.rs: `Table`, its rows with their IDs, and the indexes that follow them.
use rusty_db.Prelude.{
  ℕ, suc, ◌+◌, Bool, true, false, not, ◌||◌, Option, none, some, List, [], ◌∷◌, ◌++◌, ◌==◌,
  if◌then◌else◌, length, get_elem?, set, drop, saturating_add, ok, err, ◌>>=◌,
}
use rusty_db.Prelude.Keyed.{same, add, find, put, remove}
use rusty_db.Sql.Types.{Text, Value}
use rusty_db.Table.Schema.{
  row_position, row_id_unavailable, Executed, IndexDef, TableSchema, position, column_index,
  primary_key_index, validate_row,
}
use rusty_db.Table.Keys.{
  KeyPart, from_value, IndexKey, has_null_part, keyed_by_text, keyed_by_number, keyed_by_parts,
}
use rusty_db.Table.Bloom.{IndexRuntime, might_contain}
use rusty_db.Table.Index.{BtreeIndex, empty_index, note, renote, or_no_ids}

abbrev pub Row : Type 0
Row = List Value

-- `row_ids[i]` is the ID of `rows[i]`.
pub record Table : Type 0 where
  pub schema : TableSchema
  pub rows : List Row
  pub row_ids : List ℕ
  pub next_row_id : ℕ
  pub primary_key_index : List (Text × ℕ)
  pub indexes : List (Text × BtreeIndex)
  pub bloom_false_positive_rate : ℕ

unfoldable pub and_then {ℓ κ} : {A : Type ℓ} {B : Type κ} → Option A → (A → Option B) → Option B
and_then none f = none
and_then (some a) f = f a

unfoldable pub key_part : TableSchema → Row → Text → Option KeyPart
unfolding and_then column_index from_value
key_part schema row column =
    and_then (column_index schema column)
      (λ i. and_then (get_elem? row i) (λ value. some (from_value value)))

-- The key is there when all its columns are.
unfoldable pub index_key : TableSchema → Row → List Text → Option IndexKey
unfolding key_part and_then
index_key schema row [] = some []
index_key schema row (column ∷ columns) =
    and_then (key_part schema row column)
      (λ part. and_then (index_key schema row columns) (λ key. some (part ∷ key)))

note_primary : Option Text → ℕ → List (Text × ℕ) → List (Text × ℕ)
unfolding put
note_primary none at m = m
note_primary (some text) at m = put text at m

-- `row_ids.get(position).unwrap_or(position + 1)`, where `ids` are those from `position` on
abbrev pub id_or : ℕ → List ℕ → ℕ
id_or at [] = at + 1
id_or at (id ∷ _) = id

same_primary : Option Text → Option Text → Bool
same_primary none none = true
same_primary (some a) (some b) = same a b
same_primary _ _ = false

-- The old text leaves when it still names this position.
forget_primary : Option Text → ℕ → List (Text × ℕ) → List (Text × ℕ)
unfolding find remove
forget_primary none at m = m
forget_primary (some text) at m = elim (find text m) [
  | some i ↦ if i == at then remove text m else m
  | none ↦ m
]

move_primary : Option Text → Option Text → ℕ → List (Text × ℕ) → List (Text × ℕ)
unfolding same_primary forget_primary note_primary
move_primary previous next at m =
    if same_primary previous next then m else note_primary next at (forget_primary previous at m)

abbrev pub row_at : Option Row → Executed Row
row_at none = err row_position
row_at (some row) = ok row

abbrev pub row_id_at : Option ℕ → Executed ℕ
row_id_at none = err row_id_unavailable
row_id_at (some id) = ok id

-- The positions of the IDs, which `binary_search` finds in IDs that increase.
unfoldable pub add_positions : List ℕ → List ℕ → List ℕ → List ℕ
unfolding position add
add_positions row_ids [] conflicts = conflicts
add_positions row_ids (id ∷ ids) conflicts =
    let later = add_positions row_ids ids conflicts in
    elim (position (λ i. i == id) row_ids) [ none ↦ later | some at ↦ add at later ]

-- 4576918229304087675 is 0.01
abbrev pub empty_table : TableSchema → Table
empty_table schema = record {
  schema = schema;
  rows = [];
  row_ids = [];
  next_row_id = 1;
  primary_key_index = [];
  indexes = [];
  bloom_false_positive_rate = 4576918229304087675;
}

module _ (ir : IndexRuntime) where
  primary_text : TableSchema → Row → Option Text
  unfolding and_then primary_key_index
  primary_text schema row =
      and_then (primary_key_index schema)
        (λ i. and_then (get_elem? row i) (λ value. some (ir.display value)))

  primary_from : TableSchema → ℕ → List Row → List (Text × ℕ) → List (Text × ℕ)
  unfolding note_primary primary_text
  primary_from schema at [] m = m
  primary_from schema at (row ∷ rows) m =
      primary_from schema (suc at) rows (note_primary (primary_text schema row) at m)

  -- The rows from `position` on enter the index.
  unfoldable pub fill : TableSchema → ℕ → List Row → List ℕ → BtreeIndex → BtreeIndex
  unfolding note index_key
  fill schema at [] ids index = index
  fill schema at (row ∷ rows) ids index =
      fill schema (suc at) rows (drop 1 ids)
        (note ir (index_key schema row index.definition.columns) (id_or at ids) index)

  unfoldable pub build_index : Table → IndexDef → BtreeIndex
  unfolding fill
  build_index t definition =
      fill t.schema 0 t.rows t.row_ids
        (empty_index ir definition (length t.rows) t.bloom_false_positive_rate)

  unfoldable pub build_indexes :
      Table → List IndexDef → List (Text × BtreeIndex) → List (Text × BtreeIndex)
  unfolding build_index put
  build_indexes t [] built = built
  build_indexes t (definition ∷ definitions) built =
      build_indexes t definitions (put definition.name (build_index t definition) built)

  unfoldable pub rebuild_index : Table → Table
  unfolding build_indexes primary_from
  rebuild_index t = record t {
    primary_key_index = primary_from t.schema 0 t.rows [];
    indexes = build_indexes t t.schema.indexes [];
  }

  unfoldable pub new_table : TableSchema → Table
  unfolding rebuild_index
  new_table schema = rebuild_index (empty_table schema)

  unfoldable pub set_bloom_false_positive_rate : ℕ → Table → Table
  unfolding rebuild_index
  set_bloom_false_positive_rate rate t =
      rebuild_index (record t { bloom_false_positive_rate = ir.clamp_rate rate })

  -- Every index of the map gets the key of the row.
  unfoldable pub note_row :
      TableSchema → Row → ℕ → List (Text × BtreeIndex) → List (Text × BtreeIndex)
  unfolding note index_key
  note_row schema row row_id [] = []
  note_row schema row row_id ((name, index) ∷ indexes) =
      (name, note ir (index_key schema row index.definition.columns) row_id index)
      ∷ note_row schema row row_id indexes

  unfoldable pub insert_row_indexed : Row → Table → Executed Table
  unfolding validate_row note_row note_primary primary_text
  insert_row_indexed row t = do
    _ ← validate_row t.schema row
    ok (record t {
      rows = t.rows ++ row ∷ [];
      row_ids = t.row_ids ++ t.next_row_id ∷ [];
      next_row_id = saturating_add t.next_row_id 1;
      primary_key_index =
          note_primary (primary_text t.schema row) (length t.rows) t.primary_key_index;
      indexes = note_row t.schema row t.next_row_id t.indexes;
    })

  unfoldable pub renote_row :
      TableSchema → Row → Row → ℕ → List (Text × BtreeIndex) → List (Text × BtreeIndex)
  unfolding renote index_key
  renote_row schema previous row row_id [] = []
  renote_row schema previous row row_id ((name, index) ∷ indexes) =
      (
        name,
        renote ir (index_key schema previous index.definition.columns)
            (index_key schema row index.definition.columns) row_id index,
      )
      ∷ renote_row schema previous row row_id indexes

  unfoldable pub replace_row_indexed : ℕ → Row → Table → Executed Table
  unfolding validate_row renote_row move_primary primary_text
  replace_row_indexed at row t = do
    _ ← validate_row t.schema row
    previous ← row_at (get_elem? t.rows at)
    row_id ← row_id_at (get_elem? t.row_ids at)
    ok (record t {
      rows = set t.rows at row;
      primary_key_index =
          move_primary (primary_text t.schema previous) (primary_text t.schema row) at
            t.primary_key_index;
      indexes = renote_row t.schema previous row row_id t.indexes;
    })

  unfoldable pub key_conflicts : List ℕ → Option IndexKey → BtreeIndex → List ℕ → List ℕ
  unfolding has_null_part might_contain find add_positions
  key_conflicts row_ids none index conflicts = conflicts
  key_conflicts row_ids (some key) index conflicts =
      if has_null_part key || not (might_contain ir index.bloom key)
      then conflicts
      else add_positions row_ids (or_no_ids (find key index.entries)) conflicts

  unfoldable pub conflicts_in : TableSchema → List ℕ → Row → List (Text × BtreeIndex) → List ℕ
  unfolding key_conflicts index_key
  conflicts_in schema row_ids row [] = []
  conflicts_in schema row_ids row ((name, index) ∷ indexes) =
      let rest = conflicts_in schema row_ids row indexes in
      if index.definition.unique
      then key_conflicts row_ids (index_key schema row index.definition.columns) index rest
      else rest

  unfoldable pub unique_conflict_positions : Row → Table → List ℕ
  unfolding conflicts_in
  unique_conflict_positions row t = conflicts_in t.schema t.row_ids row t.indexes
