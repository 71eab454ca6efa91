-- ===== src/Sql/Fold/Operators.antt =====
-- src/sql/planner.rs against src/sql/executor.rs: one operator, folded and evaluated.
use rusty_db.Prelude.{
  ℕ, Bool, true, false, ◌||◌, none, some, ok, err, if◌then◌else◌, ◌≡◌, refl, arith,
}
use rusty_db.Prelude.Int.{ℤ}
use rusty_db.Sql.Number.{i64_add, i64_sub, i64_mul, i64_div, Runtime}
use rusty_db.Sql.Types
use rusty_db.Sql.Types.{Value, ComparisonOp, compare_sql, truth, truth_value, SqlTruth}
use rusty_db.Sql.Expr.{BinaryOp, UnaryOp}
use rusty_db.Sql.Fold.{
  some_integer, Fallible, fold_numeric, fold_operator, fold_binary, fold_unary, is_zero_value,
}
use rusty_db.Sql.Operators.{
  division_by_zero, and_rest, or_rest, panics_as_error, numeric_binary, eval_operator, eval_binary,
  eval_unary,
}

integer-agrees :
    (r : Fallible ℤ) (v : Value) → some_integer r ≡ ok (some v) → panics_as_error r ≡ ok v
integer-agrees (ok n) v h = ground arith
integer-agrees (err e) v h = ground arith

module _ (rt : Runtime) where
  numeric-agrees :
      (int : ℤ → ℤ → Fallible ℤ) (flt : ℕ → ℕ → ℕ) (a b v : Value)
      → (if Types.is_null a || Types.is_null b
          then ok (some Value.null)
          else fold_numeric rt int flt a b)
        ≡ ok (some v)
      → numeric_binary rt int flt a b ≡ ok v
  unfolding fold_numeric numeric_binary
  numeric-agrees int flt Value.null b v h = ground arith
  numeric-agrees int flt (Value.integer a) (Value.integer b) v h = integer-agrees (int a b) v h
  numeric-agrees int flt (Value.integer a) (Value.float b) v h = ground arith
  numeric-agrees int flt (Value.float a) (Value.float b) v h = ground arith
  numeric-agrees int flt (Value.float a) (Value.integer b) v h = ground arith
  numeric-agrees int flt a b v h = ground arith

  -- AND, OR and division have operands that are not NULL; the other operators have any.
  unfoldable pub AllowsFold : BinaryOp → Value → Value → Type 0
  AllowsFold BinaryOp.and a b = (Types.is_null a ≡ false) × (Types.is_null b ≡ false)
  AllowsFold BinaryOp.or a b = (Types.is_null a ≡ false) × (Types.is_null b ≡ false)
  AllowsFold BinaryOp.divide a b = (Types.is_null a ≡ false) × (Types.is_null b ≡ false)
  AllowsFold _ a b = Unit {0}

  and-agrees :
      (t : SqlTruth) (b : Value) → and_rest t (ok b) ≡ ok (truth_value (Types.and t (truth b)))
  unfolding and_rest Types.and truth_value
  and-agrees SqlTruth.false b = refl
  and-agrees SqlTruth.true b = refl
  and-agrees SqlTruth.unknown b = refl

  or-agrees :
      (t : SqlTruth) (b : Value) → or_rest t (ok b) ≡ ok (truth_value (Types.or t (truth b)))
  unfolding or_rest Types.or truth_value
  or-agrees SqlTruth.false b = refl
  or-agrees SqlTruth.true b = refl
  or-agrees SqlTruth.unknown b = refl

  compare-agrees :
      (op : ComparisonOp) (a b v : Value)
      → fold_binary rt a (BinaryOp.compare op) b ≡ ok (some v)
      → eval_binary rt (ok a) (BinaryOp.compare op) (ok b) ≡ ok v
  unfolding fold_binary fold_operator eval_binary eval_operator compare_sql truth_value
  compare-agrees op a b v h = ground arith

  divide-agrees :
      (z : Bool) (a b v : Value)
      → (Types.is_null a || Types.is_null b) ≡ false
      → (if Types.is_null a || Types.is_null b
          then ok (some Value.null)
          else if z
          then ok none
          else fold_numeric rt i64_div rt.float_div a b)
        ≡ ok (some v)
      → (if z then err division_by_zero else numeric_binary rt i64_div rt.float_div a b) ≡ ok v
  divide-agrees true a b v n h = ground arith
  divide-agrees false a b v n h = numeric-agrees i64_div rt.float_div a b v h

  pub binary-agrees :
      (op : BinaryOp) (a b v : Value)
      → AllowsFold op a b
      → fold_binary rt a op b ≡ ok (some v)
      → eval_binary rt (ok a) op (ok b) ≡ ok v
  unfolding AllowsFold fold_binary fold_operator eval_binary eval_operator
  binary-agrees BinaryOp.add a b v _ h =
      numeric-agrees (λ x y. ok (i64_add x y)) rt.float_add a b v h
  binary-agrees BinaryOp.subtract a b v _ h =
      numeric-agrees (λ x y. ok (i64_sub x y)) rt.float_sub a b v h
  binary-agrees BinaryOp.multiply a b v _ h =
      numeric-agrees (λ x y. ok (i64_mul x y)) rt.float_mul a b v h
  binary-agrees BinaryOp.divide a b v (na, nb) h =
      divide-agrees (is_zero_value b) a b v (rw na nb) h
  binary-agrees (BinaryOp.compare op) a b v _ h = compare-agrees op a b v h
  binary-agrees BinaryOp.and a b v (na, nb) h = ground (arith, and-agrees (truth a) b)
  binary-agrees BinaryOp.or a b v (na, nb) h = ground (arith, or-agrees (truth a) b)

  pub unary-agrees :
      (op : UnaryOp) (a v : Value) → fold_unary op a ≡ some v → eval_unary op a ≡ ok v
  unfolding fold_unary eval_unary
  unary-agrees UnaryOp.not a v h = ground arith
  unary-agrees UnaryOp.negate (Value.integer n) v h = ground arith
  unary-agrees UnaryOp.negate (Value.float n) v h = ground arith
  unary-agrees UnaryOp.plus (Value.integer n) v h = ground arith
  unary-agrees UnaryOp.plus (Value.float n) v h = ground arith
  unary-agrees op a v h = ground arith
