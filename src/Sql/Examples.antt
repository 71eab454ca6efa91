-- ===== src/Sql/Examples.antt =====
-- The theorems on expressions at concrete inputs.
use rusty_db.Prelude.{
  map, ℕ, true, false, none, List, [], ◌∷◌, ok, err, ◌≡◌, refl, arith, ◌+◌, ◌↔◌, ◌⊎◌, ◌≢◌,
}
use rusty_db.Prelude.Int.{pos}
use rusty_db.Sql.Number.{Runtime, panic}
use rusty_db.Sql.Types
use rusty_db.Sql.Types.{Value, ComparisonOp, Text, like_match}
use rusty_db.Sql.Expr.{Expr, Query, BinaryOp, column, binary, literal, parameter, some_expr}
use rusty_db.Sql.Operators.{
  BoundColumn, Relation, Evaluated, query_error, division_by_zero, in_values,
}
use rusty_db.Sql.Eval.{eval_expr}
use rusty_db.Sql.Fold.{fold_expr, fold_binary, negate_if}
use rusty_db.Sql.Fold.Foldable.{Foldable}
use rusty_db.Sql.Fold.Sound.{eval-fold}
use rusty_db.Sql.Fold.Faults.{
  fold-null-differs, fold_binary-panics, apply_null, IsI64, IsWord, i64_min, minus_one,
}
use rusty_db.Sql.InList.{in_values-any_equal, any_equal}
use rusty_db.Sql.Statement.{Statement, delete}
use rusty_db.Sql.Leaves.{leaves, place, parameters_below}
use rusty_db.Sql.Prepared.{bind_parameters, wrong_number}
use rusty_db.Sql.Prepared.Placed.{bind_parameters-leaves}
use rusty_db.Sql.Like.{like_match-matches, matches}

-- A runtime without fractions: a float holds a whole number as its bits.
abbrev toy : Runtime
toy = record {
  float_add = λ a b. a + b;
  float_sub = λ a b. a;
  float_mul = λ a b. a;
  float_div = λ a b. a;
  float_of_int = λ n. 0;
  int_of_float = λ x. pos x;
  to_lowercase = λ t. t;
}

abbrev no_queries : Query → Evaluated Relation
no_queries q = err (query_error [])

abbrev a_column : List BoundColumn
a_column = record { table = b't' ∷ []; name = b'a' ∷ [] } ∷ []

abbrev int : ℕ → Value
int n = Value.integer (pos n)

-- `1 + 2 < a`
abbrev sum_below : Expr
sum_below =
    binary (binary (literal (int 1)) BinaryOp.add (literal (int 2)))
      (BinaryOp.compare ComparisonOp.less_than) (column none (b'a' ∷ []))

abbrev three_below : Expr
three_below =
    binary (literal (int 3)) (BinaryOp.compare ComparisonOp.less_than) (column none (b'a' ∷ []))

eval-fold_example :
    eval_expr toy no_queries a_column (int 5 ∷ []) none three_below
    ≡ eval_expr toy no_queries a_column (int 5 ∷ []) none sum_below
unfolding fold_expr Foldable
eval-fold_example =
    eval-fold toy no_queries a_column (int 5 ∷ []) none sum_below three_below ((tt, tt, tt), tt, tt)
      refl

fold-null-differs_example :
    ((fold_expr toy (apply_null BinaryOp.and (Value.boolean false)) ≡ ok (literal Value.null))
      × (eval_expr toy no_queries [] [] none (apply_null BinaryOp.and (Value.boolean false))
          ≡ ok (Value.boolean false)))
    × ((fold_expr toy (apply_null BinaryOp.or (int 1)) ≡ ok (literal Value.null))
        × (eval_expr toy no_queries [] [] none (apply_null BinaryOp.or (int 1))
            ≡ ok (Value.boolean true)))
    × ((fold_expr toy (apply_null BinaryOp.divide (int 0)) ≡ ok (literal Value.null))
        × (eval_expr toy no_queries [] [] none (apply_null BinaryOp.divide (int 0))
            ≡ err division_by_zero))
unfolding Types.truth
fold-null-differs_example =
    fold-null-differs toy no_queries [] [] none (Value.boolean false) (int 1) (int 0) refl refl refl

fold_binary-panics_example :
    (fold_binary toy i64_min BinaryOp.divide minus_one ≡ err panic)
    ↔ ((BinaryOp.divide ≡ BinaryOp.divide) × (i64_min ≡ i64_min) × (minus_one ≡ minus_one))
unfolding IsI64 IsWord
fold_binary-panics_example =
    fold_binary-panics toy i64_min minus_one BinaryOp.divide panic (omega arith)

in_values-any_equal_example :
    in_values toy (int 3) (int 1 ∷ Value.null ∷ []) true
    ≡ negate_if true (any_equal toy (int 3) (int 1 ∷ Value.null ∷ []))
in_values-any_equal_example = in_values-any_equal toy (int 3) (int 1 ∷ Value.null ∷ []) true refl

like_match-matches_example :
    like_match toy (b'c' ∷ b'a' ∷ b't' ∷ []) (b'%' ∷ b'_' ∷ b't' ∷ [])
    ≡ matches (b'c' ∷ b'a' ∷ b't' ∷ []) (b'%' ∷ b'_' ∷ b't' ∷ [])
like_match-matches_example =
    like_match-matches toy (b'c' ∷ b'a' ∷ b't' ∷ []) (b'%' ∷ b'_' ∷ b't' ∷ [])

-- `DELETE ... WHERE ?`
abbrev prepared_delete : Statement
prepared_delete = delete [] (some_expr (parameter 0))

bind_parameters-leaves_example :
    ((1 ≡ parameters_below (leaves prepared_delete))
      × ((bound : Statement) × (bind_parameters prepared_delete (int 4 ∷ []) ≡ ok bound)
          × (leaves bound ≡ map (place (int 4 ∷ [])) (leaves prepared_delete))
          × (parameters_below (leaves bound) ≡ 0)))
    ⊎ ((1 ≢ parameters_below (leaves prepared_delete))
        × (bind_parameters prepared_delete (int 4 ∷ [])
            ≡ err (wrong_number (parameters_below (leaves prepared_delete)) 1)))
bind_parameters-leaves_example = bind_parameters-leaves (int 4 ∷ []) prepared_delete
