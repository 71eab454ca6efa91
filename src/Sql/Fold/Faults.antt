-- ===== src/Sql/Fold/Faults.antt =====
-- src/sql/planner.rs: what the optimizer does to a NULL operand, and when folding panics.
use rusty_db.Prelude.{
  ℕ, suc, ◌/◌, ◌^◌, ◌-◌, ◌≤◌, ◌<◌, true, false, ◌||◌, Option, List, ok, err, ◌≡◌, refl, arith, ap,
  ◌*◌, ◌∙◌, ◌↔◌, Bool-cases, inl, inr,
}
use native.Mathlib.Nat.{le-div_iff_mul-le}
use rusty_db.Prelude.Int.{ℤ, pos, negsuc}
use rusty_db.Sql.Number.{Runtime, Panic, panic, i64_div, i64_add, i64_sub, i64_mul}
use rusty_db.Sql.Types
use rusty_db.Sql.Types.{Value, SqlTruth, truth, truth_value}
use rusty_db.Sql.Expr.{Expr, Query, binary, literal, BinaryOp}
use rusty_db.Sql.Fold.{
  Fallible, some_integer, fold_numeric, fold_operator, is_zero_value, fold_binary, binary_folded,
  binary_node, as_literal, fold_expr,
}
use rusty_db.Sql.Operators.{
  BoundColumn, Relation, Evaluated, division_by_zero, and_rest, or_rest, eval_operator, eval_binary,
}
use rusty_db.Sql.Eval.{eval_expr}

abbrev pub apply_null : BinaryOp → Value → Expr
apply_null op v = binary (literal Value.null) op (literal v)

module _ (rt : Runtime) (run : Query → Evaluated Relation) (columns : List BoundColumn)
    (row : List Value) (group : Option (List (List Value))) where
  fold-null : (op : BinaryOp) (v : Value) → fold_expr rt (apply_null op v) ≡ ok (literal Value.null)
  unfolding fold_expr binary_node binary_folded as_literal fold_binary
  fold-null op v = refl

  -- `NULL AND v` with a false v, `NULL OR w` with a true w and `NULL / z` with a zero z all
  -- fold to NULL, where evaluation gives false, true and the error of a division by zero.
  pub fold-null-differs :
      (v w z : Value)
      → truth v ≡ SqlTruth.false
      → truth w ≡ SqlTruth.true
      → is_zero_value z ≡ true
      → ((fold_expr rt (apply_null BinaryOp.and v) ≡ ok (literal Value.null))
          × (eval_expr rt run columns row group (apply_null BinaryOp.and v)
              ≡ ok (Value.boolean false)))
        × ((fold_expr rt (apply_null BinaryOp.or w) ≡ ok (literal Value.null))
            × (eval_expr rt run columns row group (apply_null BinaryOp.or w)
                ≡ ok (Value.boolean true)))
        × ((fold_expr rt (apply_null BinaryOp.divide z) ≡ ok (literal Value.null))
            × (eval_expr rt run columns row group (apply_null BinaryOp.divide z)
                ≡ err division_by_zero))
  unfolding eval_expr eval_binary and_rest or_rest eval_operator truth Types.and Types.or
      truth_value
  fold-null-differs v w z hv hw hz = (
    (fold-null BinaryOp.and v, rw hv),
    (fold-null BinaryOp.or w, rw hw),
    (fold-null BinaryOp.divide z, rw hz),
  )

-- The values that an `i64` has.
unfoldable pub IsWord : ℤ → Type 0
IsWord (pos n) = n < 2 ^ 63
IsWord (negsuc n) = n < 2 ^ 63

unfoldable pub IsI64 : Value → Type 0
unfolding IsWord
IsI64 (Value.integer n) = IsWord n
IsI64 _ = Unit {0}

abbrev pub i64_min : Value
i64_min = Value.integer (negsuc (2 ^ 63 - 1))

abbrev pub minus_one : Value
minus_one = Value.integer (negsuc 0)

quotient_large : (a b : ℕ) → a < 2 ^ 63 → 2 ^ 63 ≤ suc a / suc b → (a ≡ 2 ^ 63 - 1) × (b ≡ 0)
quotient_large a b range h =
    let m : 2 ^ 63 * suc b ≤ suc a = (le-div_iff_mul-le {k = suc b} (omega arith)).0 h in
    (omega arith, omega arith)

divide_panics :
    (a b : ℤ) (p : Panic)
    → IsWord a
    → i64_div a b ≡ err p
    → (a ≡ negsuc (2 ^ 63 - 1)) × (b ≡ negsuc 0)
unfolding i64_div IsWord
divide_panics (pos a) (pos b) p w h = ground arith
divide_panics (pos a) (negsuc b) p w h = ground arith
divide_panics (negsuc a) (pos b) p w h = ground arith
divide_panics (negsuc a) (negsuc b) p w h =
    let (ea, eb) = quotient_large a b w (ground arith) in (ap negsuc ea, ap negsuc eb)

integer_panics : (r : Fallible ℤ) (p : Panic) → some_integer r ≡ err p → r ≡ err p
integer_panics (ok n) p h = ground arith
integer_panics (err e) p h = ground arith

numeric_panics :
    (rt : Runtime) (int : ℤ → ℤ → Fallible ℤ) (flt : ℕ → ℕ → ℕ) (a b : Value) (p : Panic)
    → fold_numeric rt int flt a b ≡ err p
    → (m : ℤ) × (n : ℤ) × (a ≡ Value.integer m) × (b ≡ Value.integer n) × (int m n ≡ err p)
unfolding fold_numeric
numeric_panics rt int flt (Value.integer m) (Value.integer n) p h =
    (m, n, refl, refl, integer_panics _ p h)
numeric_panics rt int flt a b p h = ground arith

abbrev IsOverflow : BinaryOp → Value → Value → Type 0
IsOverflow op a b = (op ≡ BinaryOp.divide) × (a ≡ i64_min) × (b ≡ minus_one)

ok_err : (n : ℤ) (p : Panic) (r : Fallible ℤ) → r ≡ ok n → r ≡ err p → ⊥
ok_err n p r o e = ground arith

no_panic :
    (rt : Runtime) (int : ℤ → ℤ → ℤ) (flt : ℕ → ℕ → ℕ) (a b : Value) (p : Panic)
    → fold_numeric rt (λ x y. ok (int x y)) flt a b ≡ err p
    → ⊥
no_panic rt int flt a b p h =
    let (m, n, ea, eb, e) = numeric_panics rt (λ x y. ok (int x y)) flt a b p h in
    ok_err (int m n) p (ok (int m n)) refl e

module _ (rt : Runtime) where
  operator_panics :
      (a b : Value) (op : BinaryOp) (p : Panic)
      → IsI64 a
      → fold_operator rt a op b ≡ err p
      → IsOverflow op a b
  unfolding fold_operator IsI64
  operator_panics a b BinaryOp.add p w h = elim (no_panic rt i64_add rt.float_add a b p h) [ ]
  operator_panics a b BinaryOp.subtract p w h = elim (no_panic rt i64_sub rt.float_sub a b p h) [ ]
  operator_panics a b BinaryOp.multiply p w h = elim (no_panic rt i64_mul rt.float_mul a b p h) [ ]
  operator_panics a b BinaryOp.divide p w h = elim (Bool-cases (is_zero_value b)) [
    | inl z ↦ ground arith
    | inr z ↦
        let (m, n, ea, eb, e) = numeric_panics rt i64_div rt.float_div a b p (rw z at h) in
        let (em, en) = divide_panics m n p (rw ea at w) e in
        (refl, ea ∙ ap Value.integer em, eb ∙ ap Value.integer en)
  ]
  operator_panics a b (BinaryOp.compare op) p w h = ground arith
  operator_panics a b BinaryOp.and p w h = ground arith
  operator_panics a b BinaryOp.or p w h = ground arith

  overflow_panics :
      (a b : Value) (op : BinaryOp) (p : Panic) → IsOverflow op a b → fold_binary rt a op b ≡ err p
  unfolding fold_binary fold_operator fold_numeric i64_div
  overflow_panics a b op panic (eo, ea, eb) = rw (eo, ea, eb)

  -- Folding an operator panics exactly when it divides `i64::MIN` by -1, for a left side in the
  -- range of `i64`.
  pub fold_binary-panics :
      (a b : Value) (op : BinaryOp) (p : Panic)
      → IsI64 a
      → (fold_binary rt a op b ≡ err p) ↔ ((op ≡ BinaryOp.divide) × (a ≡ i64_min) × (b ≡ minus_one))
  unfolding fold_binary
  fold_binary-panics a b op p w = (
    λ h. elim (Bool-cases (Types.is_null a || Types.is_null b)) [
      | inl n ↦ ground arith
      | inr n ↦ operator_panics a b op p w (rw n at h)
    ],
    overflow_panics a b op p,
  )
