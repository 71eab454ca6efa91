-- ===== src/Sql/Aggregate.antt =====
-- src/sql/executor.rs: the aggregate functions on the values of a group.
use Prim.Native.Nat.{Ordering}
use rusty_db.Prelude.{
  ℕ, Bool, true, false, ◌||◌, Option, none, some, List, [], ◌∷◌, ok, err, ◌>>=◌, if◌then◌else◌,
  length,
}
use rusty_db.Prelude.Int.{pos, of_bits}
use rusty_db.Sql.Number.{Runtime}
use rusty_db.Sql.Types
use rusty_db.Sql.Types.{
  Text, Value, SqlTruth, ComparisonOp, compare_sql, partial_cmp, truth, truth_value,
}
use rusty_db.Sql.Expr.{AggregateFunction}
use rusty_db.Sql.Operators.{Evaluated, sum_type, same_value_key}

-- `HashSet` of the keys seen: a value is kept when none before it has its key.
seen_key : Value → List Value → Bool
seen_key v [] = false
seen_key v (s ∷ seen) = same_value_key v s || seen_key v seen

keep_distinct : List Value → List Value → List Value
unfolding seen_key same_value_key
keep_distinct seen [] = []
keep_distinct seen (v ∷ values) =
    let rest = keep_distinct (v ∷ seen) values in if seen_key v seen then rest else v ∷ rest

unfoldable pub drop_null : List Value → List Value
drop_null [] = []
drop_null (v ∷ values) = let rest = drop_null values in if Types.is_null v then rest else v ∷ rest

-- The sum as a float, and whether all values are integers.
sum_values : Runtime → ℕ → Bool → List Value → Evaluated (ℕ × Bool)
sum_values rt sum all_integer [] = ok (sum, all_integer)
sum_values rt sum all_integer (Value.integer n ∷ values) =
    sum_values rt (rt.float_add sum (rt.float_of_int n)) all_integer values
sum_values rt sum all_integer (Value.float x ∷ values) =
    sum_values rt (rt.float_add sum x) false values
sum_values rt sum all_integer (_ ∷ values) = err sum_type

-- `partial_cmp(...).unwrap_or(Equal)`
order_of : Option Ordering → Ordering
order_of none = Ordering.eq
order_of (some o) = o

-- `min_by` keeps the first of equal values, `max_by` the last.
least : Runtime → Value → List Value → Value
unfolding order_of partial_cmp
least rt v [] = v
least rt v (w ∷ values) = elim (order_of (partial_cmp rt v w)) [
  | Ordering.gt ↦ least rt w values
  | _ ↦ least rt v values
]

greatest : Runtime → Value → List Value → Value
unfolding order_of partial_cmp
greatest rt v [] = v
greatest rt v (w ∷ values) = elim (order_of (partial_cmp rt v w)) [
  | Ordering.gt ↦ greatest rt v values
  | _ ↦ greatest rt w values
]

-- `as i64` of a count below 2 ^ 64
abbrev pub count_value : ℕ → Value
count_value n = Value.integer (of_bits n)

finish_sum : Runtime → ℕ × Bool → Value
finish_sum rt (sum, true) = Value.integer (rt.int_of_float sum)
finish_sum rt (sum, false) = Value.float sum

abbrev pub average : Runtime → ℕ → ℕ × Bool → Value
average rt n (sum, _) = Value.float (rt.float_div sum (rt.float_of_int (pos n)))

unfoldable pub aggregate_values : Runtime → AggregateFunction → List Value → Evaluated Value
unfolding sum_values least greatest finish_sum
aggregate_values rt AggregateFunction.count values = ok (count_value (length values))
aggregate_values rt _ [] = ok Value.null
aggregate_values rt AggregateFunction.sum (v ∷ values) = do
  total ← sum_values rt 0 true (v ∷ values)
  ok (finish_sum rt total)
aggregate_values rt AggregateFunction.avg (v ∷ values) = do
  total ← sum_values rt 0 true (v ∷ values)
  ok (average rt (length (v ∷ values)) total)
aggregate_values rt AggregateFunction.min (v ∷ values) = ok (least rt v values)
aggregate_values rt AggregateFunction.max (v ∷ values) = ok (greatest rt v values)

abbrev pub distinct_if : Bool → List Value → List Value
unfolding keep_distinct
distinct_if true values = keep_distinct [] values
distinct_if false values = values

unfoldable pub eval_aggregate :
    Runtime → AggregateFunction → Bool → Evaluated (List Value) → Evaluated Value
unfolding aggregate_values drop_null
eval_aggregate rt f distinct values = do
  vs ← values
  aggregate_values rt f (drop_null (distinct_if distinct vs))

-- `collect::<Result<Vec<_>, _>>`
unfoldable pub collect {ℓ} : {A : Type ℓ} → (A → Evaluated Value) → List A → Evaluated (List Value)
collect f [] = ok []
collect f (a ∷ rest) = do v ← f a; vs ← collect f rest; ok (v ∷ vs)
