-- ===== src/Sql/Fold/Known.antt =====
-- src/sql/planner.rs: an operator on operands that are not NULL folds to a value that is not NULL.
use rusty_db.Prelude.{ℕ, Bool, true, false, some, ok, err, ◌≡◌, refl, arith}
use rusty_db.Prelude.Int.{ℤ}
use rusty_db.Sql.Number.{Runtime, i64_add, i64_sub, i64_mul, i64_div}
use rusty_db.Sql.Types
use rusty_db.Sql.Types.{Value, SqlTruth, ComparisonOp, truth_of, truth, truth_value, compare_sql}
use rusty_db.Sql.Expr.{BinaryOp, UnaryOp}
use rusty_db.Sql.Fold.{
  Fallible, some_integer, negate_if, fold_numeric, fold_operator, fold_binary, fold_unary,
}

unfoldable pub IsKnown : SqlTruth → Type 0
unfolding truth_value
IsKnown t = Types.is_null (truth_value t) ≡ false

truth_of-IsKnown : (b : Bool) → IsKnown (truth_of b)
unfolding IsKnown truth_value
truth_of-IsKnown true = refl
truth_of-IsKnown false = refl

truth-IsKnown : (v : Value) → Types.is_null v ≡ false → IsKnown (truth v)
unfolding truth
truth-IsKnown (Value.integer n) h = truth_of-IsKnown _
truth-IsKnown (Value.float n) h = truth_of-IsKnown _
truth-IsKnown (Value.text n) h = truth_of-IsKnown _
truth-IsKnown (Value.boolean b) h = truth_of-IsKnown b
truth-IsKnown Value.null h = ground arith

and-IsKnown : (s t : SqlTruth) → IsKnown s → IsKnown t → IsKnown (Types.and s t)
unfolding IsKnown truth_value Types.and
and-IsKnown SqlTruth.true SqlTruth.true hs ht = refl
and-IsKnown SqlTruth.true SqlTruth.false hs ht = refl
and-IsKnown SqlTruth.true SqlTruth.unknown hs ht = ht
and-IsKnown SqlTruth.false t hs ht = refl
and-IsKnown SqlTruth.unknown t hs ht = ground arith

or-IsKnown : (s t : SqlTruth) → IsKnown s → IsKnown t → IsKnown (Types.or s t)
unfolding IsKnown truth_value Types.or
or-IsKnown SqlTruth.false SqlTruth.true hs ht = refl
or-IsKnown SqlTruth.false SqlTruth.false hs ht = refl
or-IsKnown SqlTruth.false SqlTruth.unknown hs ht = ht
or-IsKnown SqlTruth.true t hs ht = refl
or-IsKnown SqlTruth.unknown t hs ht = ground arith

negate-IsKnown : (t : SqlTruth) → IsKnown t → IsKnown (Types.negate t)
unfolding IsKnown truth_value Types.negate
negate-IsKnown SqlTruth.true h = refl
negate-IsKnown SqlTruth.false h = refl
negate-IsKnown SqlTruth.unknown h = ground arith

pub negate_if-IsKnown : (b : Bool) (t : SqlTruth) → IsKnown t → IsKnown (negate_if b t)
negate_if-IsKnown true t h = negate-IsKnown t h
negate_if-IsKnown false t h = h

module _ (rt : Runtime) where
  pub compare-IsKnown :
      (a b : Value) (op : ComparisonOp)
      → Types.is_null a ≡ false
      → Types.is_null b ≡ false
      → IsKnown (compare_sql rt a b op)
  unfolding compare_sql
  compare-IsKnown a b op na nb = rw (na, nb) (truth_of-IsKnown _)

  integer-known :
      (r : Fallible ℤ) (w : Value) → some_integer r ≡ ok (some w) → Types.is_null w ≡ false
  integer-known (ok n) w h = ground arith
  integer-known (err e) w h = ground arith

  numeric-known :
      (int : ℤ → ℤ → Fallible ℤ) (flt : ℕ → ℕ → ℕ) (a b w : Value)
      → fold_numeric rt int flt a b ≡ ok (some w)
      → Types.is_null w ≡ false
  unfolding fold_numeric
  numeric-known int flt (Value.integer a) (Value.integer b) w h = integer-known (int a b) w h
  numeric-known int flt (Value.integer a) (Value.float b) w h = ground arith
  numeric-known int flt (Value.float a) (Value.float b) w h = ground arith
  numeric-known int flt (Value.float a) (Value.integer b) w h = ground arith
  numeric-known int flt a b w h = ground arith

  operator-known :
      (op : BinaryOp) (a b w : Value)
      → Types.is_null a ≡ false
      → Types.is_null b ≡ false
      → fold_operator rt a op b ≡ ok (some w)
      → Types.is_null w ≡ false
  unfolding fold_operator IsKnown
  operator-known (BinaryOp.compare op) a b w na nb h = ground (arith, compare-IsKnown a b op na nb)
  operator-known BinaryOp.and a b w na nb h =
      ground (arith, and-IsKnown (truth a) (truth b) (truth-IsKnown a na) (truth-IsKnown b nb))
  operator-known BinaryOp.or a b w na nb h =
      ground (arith, or-IsKnown (truth a) (truth b) (truth-IsKnown a na) (truth-IsKnown b nb))
  operator-known BinaryOp.add a b w na nb h =
      numeric-known (λ x y. ok (i64_add x y)) rt.float_add a b w h
  operator-known BinaryOp.subtract a b w na nb h =
      numeric-known (λ x y. ok (i64_sub x y)) rt.float_sub a b w h
  operator-known BinaryOp.multiply a b w na nb h =
      numeric-known (λ x y. ok (i64_mul x y)) rt.float_mul a b w h
  operator-known BinaryOp.divide a b w na nb h =
      ground (arith, numeric-known i64_div rt.float_div a b w)

  pub fold_binary-known :
      (op : BinaryOp) (a b w : Value)
      → Types.is_null a ≡ false
      → Types.is_null b ≡ false
      → fold_binary rt a op b ≡ ok (some w)
      → Types.is_null w ≡ false
  unfolding fold_binary
  fold_binary-known op a b w na nb h = operator-known op a b w na nb (rw (na, nb) at h)

  pub fold_unary-known :
      (op : UnaryOp) (a w : Value)
      → Types.is_null a ≡ false
      → fold_unary op a ≡ some w
      → Types.is_null w ≡ false
  unfolding fold_unary IsKnown
  fold_unary-known UnaryOp.not a w na h =
      ground (arith, negate-IsKnown (truth a) (truth-IsKnown a na))
  fold_unary-known UnaryOp.negate (Value.integer n) w na h = ground arith
  fold_unary-known UnaryOp.negate (Value.float n) w na h = ground arith
  fold_unary-known UnaryOp.plus (Value.integer n) w na h = ground arith
  fold_unary-known UnaryOp.plus (Value.float n) w na h = ground arith
  fold_unary-known op a w na h = ground arith
