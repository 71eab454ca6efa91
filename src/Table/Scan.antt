-- ===== src/Table/Scan.antt =====
-- src/sql/executor.rs: the rows that an index leaves for a selection, and the relation of a table.
-- An index serves a prefix of its columns that are compared for equality, and a range behind it.
pub mod Order
pub mod Predicates
pub mod Plan
pub mod Complete
use rusty_db.Prelude.{
  ℕ, suc, ◌+◌, ◌*◌, Bool, true, false, ◌||◌, ◌&&◌, not, Option, none, some, List, [], ◌∷◌, ◌++◌,
  map, ◌==◌, ltb, if◌then◌else◌, length, get_elem?, ok, err, ◌>>=◌,
}
use rusty_db.Prelude.Keyed.{contains, find}
use rusty_db.Sql.Types.{Text, Value, SqlTruth, ComparisonOp, truth}
use rusty_db.Sql.Expr.{Expr, BinaryOp, binary, column, literal}
use rusty_db.Sql.Operators.{BoundColumn, Relation, Evaluated, eq_ignore_ascii_case}
use rusty_db.Sql.Statement.{ColumnDef}
use rusty_db.Table.Schema.{TableSchema}
use rusty_db.Table.Keys.{
  KeyPart, IndexKey, from_value, compare_key_part, starts_with, keyed_by_number, keyed_by_parts,
}
use rusty_db.Table.Bloom.{IndexRuntime, might_contain}
use rusty_db.Table.Index.{BtreeIndex, Entries, ids_at}
use rusty_db.Table.Store.{Row, Table}

pub record IndexPredicate : Type 0 where
  pub column : Text
  pub operator : ComparisonOp
  pub value : Value

unfoldable pub reverse_comparison : ComparisonOp → ComparisonOp
reverse_comparison ComparisonOp.less_than = ComparisonOp.greater_than
reverse_comparison ComparisonOp.less_than_or_equal = ComparisonOp.greater_than_or_equal
reverse_comparison ComparisonOp.greater_than = ComparisonOp.less_than
reverse_comparison ComparisonOp.greater_than_or_equal = ComparisonOp.less_than_or_equal
reverse_comparison other = other

unfoldable pub predicate_of : Expr → ComparisonOp → Expr → List IndexPredicate
unfolding reverse_comparison
predicate_of (column _ name) operator (literal v) =
    record { column = name; operator = operator; value = v } ∷ []
predicate_of (literal v) operator (column _ name) =
    record { column = name; operator = reverse_comparison operator; value = v } ∷ []
predicate_of _ _ _ = []

unfoldable pub collect_index_predicates : Expr → List IndexPredicate
unfolding predicate_of
collect_index_predicates (binary left BinaryOp.and right) =
    collect_index_predicates left ++ collect_index_predicates right
collect_index_predicates (binary left (BinaryOp.compare operator) right) =
    predicate_of left operator right
collect_index_predicates _ = []

unfoldable pub find_predicate : List IndexPredicate → Text → Option IndexPredicate
unfolding eq_ignore_ascii_case
find_predicate [] name = none
find_predicate (p ∷ predicates) name =
    let later = find_predicate predicates name in
    if eq_ignore_ascii_case p.column name then some p else later

abbrev pub is_range : ComparisonOp → Bool
is_range ComparisonOp.less_than = true
is_range ComparisonOp.less_than_or_equal = true
is_range ComparisonOp.greater_than = true
is_range ComparisonOp.greater_than_or_equal = true
is_range _ = false

abbrev pub is_equal : ComparisonOp → Bool
is_equal ComparisonOp.equal = true
is_equal _ = false

-- The loop over the columns of an index ends at the first one that is not compared for equality.
abbrev pub Plan : Type 0
Plan = IndexKey × Option (ComparisonOp × KeyPart)

abbrev pub continue_plan : Option IndexPredicate → Plan → Plan
continue_plan none rest = ([], none)
continue_plan (some p) (prefix, range) =
    if is_equal p.operator
    then (from_value p.value ∷ prefix, range)
    else if is_range p.operator
    then ([], some (p.operator, from_value p.value))
    else ([], none)

unfoldable pub plan_index : List IndexPredicate → List Text → Plan
unfolding find_predicate from_value
plan_index predicates [] = ([], none)
plan_index predicates (name ∷ names) =
    continue_plan (find_predicate predicates name) (plan_index predicates names)

unfoldable pub range_matches : Plan → IndexKey → Bool
unfolding compare_key_part
range_matches (prefix, none) key = true
range_matches (prefix, some (operator, value)) key = elim (get_elem? key (length prefix)) [
  | none ↦ false
  | some part ↦ compare_key_part part value operator
]

unfoldable pub scan_entries : Plan → Entries → List ℕ
unfolding range_matches starts_with
scan_entries plan [] = []
scan_entries plan ((key, found) ∷ entries) =
    let rest = scan_entries plan entries in
    if starts_with key plan.0 && range_matches plan key then found ++ rest else rest

abbrev pub is_whole : Plan → List Text → Bool
is_whole (prefix, none) columns = length prefix == length columns
is_whole (prefix, some _) columns = false

abbrev pub is_unused : Plan → Bool
is_unused ([], none) = true
is_unused _ = false

abbrev pub score : Plan → ℕ
score (prefix, none) = length prefix * 2
score (prefix, some _) = length prefix * 2 + 1

pub record Best : Type 0 where
  pub ids : List ℕ
  pub name : Text
  pub score : ℕ

abbrev pub beats : ℕ → Option Best → Bool
beats s none = true
beats s (some best) = ltb best.score s

abbrev pub best_candidates : Option Best → Option (List ℕ) × Option Text
best_candidates none = (none, none)
best_candidates (some best) = (some best.ids, some best.name)

module _ (ir : IndexRuntime) where
  unfoldable pub index_ids : Plan → BtreeIndex → List ℕ
  unfolding might_contain ids_at scan_entries
  index_ids plan index =
      if is_whole plan index.definition.columns
      then (if might_contain ir index.bloom plan.0 then ids_at plan.0 index.entries else [])
      else scan_entries plan index.entries

  unfoldable pub better : List IndexPredicate → BtreeIndex → Option Best → Option Best
  unfolding plan_index index_ids
  better predicates index best =
      let plan = plan_index predicates index.definition.columns in
      if is_unused plan || not (beats (score plan) best)
      then best
      else some
          (record { ids = index_ids plan index; name = index.definition.name; score = score plan })

  unfoldable pub best_index :
      List IndexPredicate → List (Text × BtreeIndex) → Option Best → Option Best
  unfolding better
  best_index predicates [] best = best
  best_index predicates ((name, index) ∷ indexes) best =
      best_index predicates indexes (better predicates index best)

  -- Without a selection, or an index that serves it, all rows are candidates.
  unfoldable pub candidate_row_ids : Option Expr → Table → Option (List ℕ) × Option Text
  unfolding collect_index_predicates best_index
  candidate_row_ids none t = (none, none)
  candidate_row_ids (some e) t =
      best_candidates (best_index (collect_index_predicates e) t.indexes none)

  abbrev pub best_index_name : Option Expr → Table → Option Text
  best_index_name selection t = (candidate_row_ids selection t).1

abbrev pub is_candidate : Option (List ℕ) → Option ℕ → Bool
is_candidate none id = true
is_candidate (some ids) none = false
is_candidate (some ids) (some id) = contains id ids

-- The rows that are kept, of those from a position on.
unfoldable pub candidate_rows : Option (List ℕ) → List Row → List ℕ → List Row
candidate_rows ids [] row_ids = []
candidate_rows ids (row ∷ rows) [] =
    let rest = candidate_rows ids rows [] in if is_candidate ids none then row ∷ rest else rest
candidate_rows ids (row ∷ rows) (id ∷ row_ids) =
    let rest = candidate_rows ids rows row_ids in
    if is_candidate ids (some id) then row ∷ rest else rest

abbrev pub bound_columns : Text → TableSchema → List BoundColumn
bound_columns table schema =
    map (λ (c : ColumnDef). record { table = table; name = c.name }) schema.columns

unfoldable pub relation_from_table : IndexRuntime → Table → Text → Option Expr → Relation
unfolding candidate_row_ids candidate_rows
relation_from_table ir t visible_name selection = record {
  columns = bound_columns visible_name t.schema;
  rows = candidate_rows (candidate_row_ids ir selection t).0 t.rows t.row_ids;
}

abbrev pub is_true : SqlTruth → Bool
is_true SqlTruth.true = true
is_true _ = false

-- The rows on which the selection is true, unless it fails on one.
unfoldable pub select_rows : (Row → Evaluated Value) → List Row → Evaluated (List Row)
unfolding truth
select_rows holds [] = ok []
select_rows holds (row ∷ rows) = do
  v ← holds row
  rest ← select_rows holds rows
  ok (if is_true (truth v) then row ∷ rest else rest)
