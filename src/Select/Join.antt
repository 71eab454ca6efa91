-- ===== src/Select/Join.antt =====
-- src/sql/executor.rs: joins, by a loop over all pairs of rows and by a hash table.
-- The bucket of a key holds the positions of its rows in order, so a walk along the bucket is a walk
-- along the rows that have the key.
pub mod Keys
pub mod Hash
pub mod Equivalence
use rusty_db.Prelude.{
  ℕ, Bool, true, false, ◌||◌, ◌&&◌, not, Option, none, some, List, [], ◌∷◌, ◌++◌, map, replicate,
  length, get_elem?, if◌then◌else◌, ok, err, ◌>>=◌,
}
use rusty_db.Sql.Number.{Runtime}
use rusty_db.Sql.Types.{Text, Value, SqlTruth, ComparisonOp, compare_sql, truth, is_null}
use rusty_db.Sql.Expr.{Expr, OptExpr, Query, JoinType, BinaryOp, binary, column, no_expr, some_expr}
use rusty_db.Sql.Operators.{
  BoundColumn, Relation, Evaluated, panicked, resolve_column, same_join_key,
}
use rusty_db.Sql.Eval.{eval_expr}
use rusty_db.Table.Store.{Row}
use rusty_db.Table.Scan.{is_true}

abbrev pub nulls : ℕ → Row
nulls n = replicate n Value.null

-- The rows that a left row makes, and which rows on the right it meets.
abbrev pub Matches : Type 0
Matches = List Row × List Bool

abbrev pub or_flags : List Bool → List Bool → List Bool
or_flags [] others = others
or_flags (a ∷ flags) [] = a ∷ flags
or_flags (a ∷ flags) (b ∷ others) = (a || b) ∷ or_flags flags others

-- The combined rows at the flags.
unfoldable pub combine : Row → List Row → List Bool → List Row
combine left_row [] flags = []
combine left_row (_ ∷ _) [] = []
combine left_row (right_row ∷ rows) (flag ∷ flags) =
    let rest = combine left_row rows flags in if flag then (left_row ++ right_row) ∷ rest else rest

abbrev pub pads_left : JoinType → Bool
pads_left JoinType.left = true
pads_left _ = false

abbrev pub pads_right : JoinType → Bool
pads_right JoinType.right = true
pads_right _ = false

-- A left row that meets none is kept by LEFT JOIN.
abbrev pub pad_left : JoinType → ℕ → Row → List Row → List Row
pad_left kind width left_row [] = if pads_left kind then (left_row ++ nulls width) ∷ [] else []
pad_left kind width left_row (row ∷ rows) = row ∷ rows

unfoldable pub unmatched : ℕ → List Row → List Bool → List Row
unmatched width [] flags = []
unmatched width (right_row ∷ rows) [] = (nulls width ++ right_row) ∷ unmatched width rows []
unmatched width (right_row ∷ rows) (flag ∷ flags) =
    let rest = unmatched width rows flags in
    if flag then rest else (nulls width ++ right_row) ∷ rest

-- The loop over the left rows, given what one of them meets.
unfoldable pub join_rows :
    JoinType → ℕ → List Row → (Row → Evaluated (List Bool)) → List Row → Evaluated Matches
unfolding combine
join_rows kind width right_rows meets [] = ok ([], [])
join_rows kind width right_rows meets (left_row ∷ rows) = do
  flags ← meets left_row
  (joined, others) ← join_rows kind width right_rows meets rows
  ok (
    pad_left kind width left_row (combine left_row right_rows flags) ++ joined,
    or_flags flags others,
  )

abbrev pub pad_right : JoinType → Relation → Relation → Matches → Relation
pad_right kind left right (rows, flags) = record {
  columns = left.columns ++ right.columns;
  rows = if pads_right kind then rows ++ unmatched (length left.columns) right.rows flags else rows;
}

unfoldable pub join_with :
    JoinType → Relation → Relation → (Row → Evaluated (List Bool)) → Evaluated Relation
unfolding join_rows
join_with kind left right meets = do
  matches ← join_rows kind (length right.columns) right.rows meets left.rows
  ok (pad_right kind left right matches)

module _ (rt : Runtime) (run : Query → Evaluated Relation) where
  -- The condition on one pair of rows.
  unfoldable pub pair_matches : List BoundColumn → OptExpr → Row → Evaluated Bool
  unfolding eval_expr truth
  pair_matches columns no_expr row = ok true
  pair_matches columns (some_expr e) row = do
    v ← eval_expr rt run columns row none e
    ok (is_true (truth v))

  unfoldable pub meets_by_condition :
      List BoundColumn → OptExpr → List Row → Row → Evaluated (List Bool)
  unfolding pair_matches
  meets_by_condition columns condition [] left_row = ok []
  meets_by_condition columns condition (right_row ∷ rows) left_row = do
    flag ← pair_matches columns condition (left_row ++ right_row)
    flags ← meets_by_condition columns condition rows left_row
    ok (flag ∷ flags)

  unfoldable pub nested_join : JoinType → Relation → Relation → OptExpr → Evaluated Relation
  unfolding join_with meets_by_condition
  nested_join kind left right condition =
      join_with kind left right
        (meets_by_condition (left.columns ++ right.columns) condition right.rows)

abbrev pub both_ok : Evaluated ℕ → Evaluated ℕ → Option (ℕ × ℕ)
both_ok (ok i) (ok j) = some (i, j)
both_ok _ _ = none

abbrev pub or_else : Option (ℕ × ℕ) → Option (ℕ × ℕ) → Option (ℕ × ℕ)
or_else none o = o
or_else (some p) o = some p

-- An equation of a column on each side, written either way.
unfoldable pub hash_join_indices : Expr → List BoundColumn → List BoundColumn → Option (ℕ × ℕ)
unfolding resolve_column
hash_join_indices (binary (column q n) (BinaryOp.compare ComparisonOp.equal) (column r m)) left
      right =
    or_else (both_ok (resolve_column left q n) (resolve_column right r m))
      (both_ok (resolve_column left r m) (resolve_column right q n))
hash_join_indices _ left right = none

abbrev pub or_panic : Option Value → Evaluated Value
or_panic none = err panicked
or_panic (some v) = ok v

abbrev pub value_at : ℕ → Row → Evaluated Value
value_at i row = or_panic (get_elem? row i)

unfoldable pub column_values : ℕ → List Row → Evaluated (List Value)
column_values i [] = ok []
column_values i (row ∷ rows) = do v ← value_at i row; vs ← column_values i rows; ok (v ∷ vs)

-- The keys are the same, and SQL finds the values equal.
unfoldable pub keys_meet : Runtime → Value → Value → Bool
unfolding same_join_key compare_sql
keys_meet rt v w =
    not (is_null v)
    && not (is_null w)
    && same_join_key rt v w
    && is_true (compare_sql rt v w ComparisonOp.equal)

unfoldable pub meets_by_key : Runtime → ℕ → List Value → Row → Evaluated (List Bool)
unfolding keys_meet
meets_by_key rt left_index right_values left_row = do
  v ← value_at left_index left_row
  ok (map (keys_meet rt v) right_values)

unfoldable pub hash_join : Runtime → JoinType → Relation → Relation → ℕ → ℕ → Evaluated Relation
unfolding column_values join_with meets_by_key
hash_join rt kind left right left_index right_index = do
  right_values ← column_values right_index right.rows
  join_with kind left right (meets_by_key rt left_index right_values)

abbrev pub join_indices : OptExpr → Relation → Relation → Option (ℕ × ℕ)
join_indices no_expr left right = none
join_indices (some_expr e) left right = hash_join_indices e left.columns right.columns

unfoldable pub join_by :
    Runtime
    → (Query → Evaluated Relation)
    → JoinType
    → OptExpr
    → Relation
    → Relation
    → Option (ℕ × ℕ)
    → Evaluated Relation
unfolding hash_join nested_join
join_by rt run kind condition left right (some (i, j)) = hash_join rt kind left right i j
join_by rt run kind condition left right none = nested_join rt run kind left right condition

unfoldable pub join_relations :
    Runtime
    → (Query → Evaluated Relation)
    → JoinType
    → OptExpr
    → Relation
    → Relation
    → Evaluated Relation
unfolding join_by hash_join_indices
join_relations rt run kind condition left right =
    join_by rt run kind condition left right (join_indices condition left right)
