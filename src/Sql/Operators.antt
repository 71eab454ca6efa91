-- ===== src/Sql/Operators.antt =====
-- src/sql/executor.rs: columns, and the operators of expressions on values.

use rusty_db.Prelude.{
  ℕ, suc, ◌+◌, Bool, true, false, ◌||◌, ◌&&◌, not, Option, none, some, List, [], ◌∷◌, map, ◌==◌,
  Result, ok, err, ◌>>=◌, if◌then◌else◌, length,
}
use rusty_db.Prelude.Int.{ℤ, pos, negsuc}
use rusty_db.Sql.Number.{Runtime, i64_add, i64_sub, i64_mul, i64_neg, i64_div, float_neg}
use rusty_db.Sql.Types
use rusty_db.Sql.Types.{
  Text, Value, SqlTruth, ComparisonOp, compare_sql, partial_cmp, truth, truth_value,
}
use rusty_db.Sql.Expr.{BinaryOp, UnaryOp}
use rusty_db.Sql.Fold.{Fallible, is_zero_value, negate_if}

pub record BoundColumn : Type 0 where
  pub table : Text
  pub name : Text

pub record Relation : Type 0 where
  pub columns : List BoundColumn
  pub rows : List (List Value)

pub data EvalError : Type 0 where
  unbound_parameter : ℕ → EvalError
  incoming_outside : Text → EvalError
  column_unavailable : Text → EvalError
  unknown_column : Option Text → Text → EvalError
  ambiguous_column : Text → EvalError
  unary_type division_by_zero not_numeric : EvalError
  in_columns scalar_columns scalar_rows : EvalError
  outside_grouping sum_type : EvalError
  -- errors of `execute_query`
  query_error cte_columns missing_source order_unavailable : Text → EvalError
  unknown_wildcard : Option Text → EvalError
  panicked unreachable : EvalError

abbrev pub Evaluated : Type 0 → Type 0
Evaluated A = Result EvalError A

-- `u8::to_ascii_lowercase` on a code point
abbrev pub ascii_lower : ℕ → ℕ
ascii_lower c = if Types.is_between b'A' b'Z' c then c + 32 else c

unfoldable pub text_eq : Text → Text → Bool
text_eq [] [] = true
text_eq (c ∷ s) (d ∷ t) = (c == d) && text_eq s t
text_eq _ _ = false

unfoldable pub eq_ignore_ascii_case : Text → Text → Bool
unfolding text_eq
eq_ignore_ascii_case s t = text_eq (map ascii_lower s) (map ascii_lower t)

unfoldable pub matches_qualifier : Option Text → Text → Bool
unfolding eq_ignore_ascii_case
matches_qualifier none table = true
matches_qualifier (some q) table = eq_ignore_ascii_case table q

unfoldable pub column_matches : Option Text → Text → BoundColumn → Bool
unfolding matches_qualifier eq_ignore_ascii_case
column_matches q n c = eq_ignore_ascii_case c.name n && matches_qualifier q c.table

-- The positions of the columns that match, from position `i` on.
unfoldable pub matching : Option Text → Text → ℕ → List BoundColumn → List ℕ
unfolding column_matches
matching q n i [] = []
matching q n i (c ∷ columns) =
    let rest = matching q n (suc i) columns in if column_matches q n c then i ∷ rest else rest

unfoldable pub the_match : Option Text → Text → List ℕ → Evaluated ℕ
the_match q n [] = err (unknown_column q n)
the_match q n (i ∷ []) = ok i
the_match q n (i ∷ j ∷ _) = err (ambiguous_column n)

unfoldable pub resolve_column : List BoundColumn → Option Text → Text → Evaluated ℕ
unfolding matching the_match
resolve_column columns q n = the_match q n (matching q n 0 columns)

abbrev pub or_unavailable : Text → Option Value → Evaluated Value
or_unavailable n none = err (column_unavailable n)
or_unavailable n (some v) = ok v

abbrev pub panics_as_error : Fallible ℤ → Evaluated Value
panics_as_error (ok n) = ok (Value.integer n)
panics_as_error (err _) = err panicked

unfoldable pub numeric_binary :
    Runtime → (ℤ → ℤ → Fallible ℤ) → (ℕ → ℕ → ℕ) → Value → Value → Evaluated Value
numeric_binary rt int flt Value.null _ = ok Value.null
numeric_binary rt int flt _ Value.null = ok Value.null
numeric_binary rt int flt (Value.integer a) (Value.integer b) = panics_as_error (int a b)
numeric_binary rt int flt (Value.integer a) (Value.float b) =
    ok (Value.float (flt (rt.float_of_int a) b))
numeric_binary rt int flt (Value.float a) (Value.integer b) =
    ok (Value.float (flt a (rt.float_of_int b)))
numeric_binary rt int flt (Value.float a) (Value.float b) = ok (Value.float (flt a b))
numeric_binary rt int flt _ _ = err not_numeric

-- `in_values` from a candidate on; `unknown` is whether a NULL was compared.
unfoldable pub in_rest : Runtime → Value → Bool → Bool → List Value → SqlTruth
unfolding compare_sql
in_rest rt v negated unknown [] =
    negate_if negated (if unknown then SqlTruth.unknown else SqlTruth.false)
in_rest rt v negated unknown (c ∷ candidates) = elim (compare_sql rt v c ComparisonOp.equal) [
  | SqlTruth.true ↦ if negated then SqlTruth.false else SqlTruth.true
  | SqlTruth.unknown ↦ in_rest rt v negated true candidates
  | SqlTruth.false ↦ in_rest rt v negated unknown candidates
]

unfoldable pub in_values : Runtime → Value → List Value → Bool → SqlTruth
unfolding in_rest
in_values rt v values negated =
    if Types.is_null v then SqlTruth.unknown else in_rest rt v negated false values

unfoldable pub eval_unary : UnaryOp → Value → Evaluated Value
eval_unary UnaryOp.not v = ok (truth_value (Types.negate (truth v)))
eval_unary _ Value.null = ok Value.null
eval_unary UnaryOp.negate (Value.integer n) = ok (Value.integer (i64_neg n))
eval_unary UnaryOp.negate (Value.float x) = ok (Value.float (float_neg x))
eval_unary UnaryOp.plus (Value.integer n) = ok (Value.integer n)
eval_unary UnaryOp.plus (Value.float x) = ok (Value.float x)
eval_unary _ _ = err unary_type

-- The operators that evaluate both sides.
unfoldable pub eval_operator : Runtime → Value → BinaryOp → Value → Evaluated Value
unfolding numeric_binary
eval_operator rt a (BinaryOp.compare op) b = ok (truth_value (compare_sql rt a b op))
eval_operator rt a BinaryOp.add b = numeric_binary rt (λ x y. ok (i64_add x y)) rt.float_add a b
eval_operator rt a BinaryOp.subtract b =
    numeric_binary rt (λ x y. ok (i64_sub x y)) rt.float_sub a b
eval_operator rt a BinaryOp.multiply b =
    numeric_binary rt (λ x y. ok (i64_mul x y)) rt.float_mul a b
eval_operator rt a BinaryOp.divide b =
    if is_zero_value b then err division_by_zero else numeric_binary rt i64_div rt.float_div a b
eval_operator rt a _ b = err unreachable

-- The rest of AND and of OR, once the left side has its truth.
unfoldable pub and_rest : SqlTruth → Evaluated Value → Evaluated Value
and_rest SqlTruth.false r = ok (Value.boolean false)
and_rest t r = do b ← r; ok (truth_value (Types.and t (truth b)))

unfoldable pub or_rest : SqlTruth → Evaluated Value → Evaluated Value
or_rest SqlTruth.true r = ok (Value.boolean true)
or_rest t r = do b ← r; ok (truth_value (Types.or t (truth b)))

-- A binary operator on the outcomes of its sides, the right one looked at when it is needed.
unfoldable pub eval_binary :
    Runtime → Evaluated Value → BinaryOp → Evaluated Value → Evaluated Value
unfolding eval_operator and_rest or_rest
eval_binary rt l BinaryOp.and r = do a ← l; and_rest (truth a) r
eval_binary rt l BinaryOp.or r = do a ← l; or_rest (truth a) r
eval_binary rt l op r = do a ← l; b ← r; eval_operator rt a op b

-- What a `HashSet` of `hash_join_key` and of `value_key` tells apart.
unfoldable pub same_value_key : Value → Value → Bool
unfolding text_eq
same_value_key Value.null Value.null = true
same_value_key (Value.boolean a) (Value.boolean b) = elim a [ true ↦ b | false ↦ not b ]
same_value_key (Value.integer (pos a)) (Value.integer (pos b)) = a == b
same_value_key (Value.integer (negsuc a)) (Value.integer (negsuc b)) = a == b
same_value_key (Value.float a) (Value.float b) = a == b
same_value_key (Value.text a) (Value.text b) = text_eq a b
same_value_key _ _ = false

unfoldable pub same_join_key : Runtime → Value → Value → Bool
unfolding same_value_key
same_join_key rt (Value.integer a) (Value.integer b) = rt.float_of_int a == rt.float_of_int b
same_join_key rt (Value.integer a) (Value.float b) = rt.float_of_int a == b
same_join_key rt (Value.float a) (Value.integer b) = a == rt.float_of_int b
same_join_key rt (Value.float a) (Value.float b) = a == b
same_join_key rt a b = same_value_key a b

-- `first_column_keys.contains`
has_join_key : Runtime → Value → List (List Value) → Bool
unfolding same_join_key
has_join_key rt v [] = false
has_join_key rt v ([] ∷ rows) = has_join_key rt v rows
has_join_key rt v ((c ∷ _) ∷ rows) =
    (not (Types.is_null c) && same_join_key rt v c) || has_join_key rt v rows

-- `first_column_has_null`
has_null : List (List Value) → Bool
has_null [] = false
has_null ([] ∷ rows) = has_null rows
has_null ((c ∷ _) ∷ rows) = Types.is_null c || has_null rows

unfoldable pub one_column : EvalError → Relation → Evaluated (List (List Value))
one_column e r = if length r.columns == 1 then ok r.rows else err e

unfoldable pub in_rows : Runtime → Value → List (List Value) → SqlTruth
unfolding has_join_key has_null
in_rows rt v rows =
    if Types.is_null v
    then SqlTruth.unknown
    else if has_join_key rt v rows
    then SqlTruth.true
    else if has_null rows
    then SqlTruth.unknown
    else SqlTruth.false

-- A row of a relation with one column has one value; without it, `row[0]` panics.
unfoldable pub scalar_of : List (List Value) → Evaluated Value
scalar_of [] = ok Value.null
scalar_of ((v ∷ _) ∷ []) = ok v
scalar_of ([] ∷ []) = err panicked
scalar_of (_ ∷ _ ∷ _) = err scalar_rows

unfoldable pub is_empty_rows : List (List Value) → Bool
is_empty_rows [] = true
is_empty_rows (_ ∷ _) = false
