-- ===== src/Table/Scan/Order.antt =====
-- src/sql/executor.rs: where the order of key parts is the order of SQL values.
use Prim.Native.Nat.{compare, Ordering}
use rusty_db.Prelude.{
  ◌∙◌, Bool-cases, subst, inr, inl, Option-cases, ℕ, ◌^◌, Bool, true, false, ◌||◌, ◌&&◌, not, some,
  [], ◌∷◌, ◌==◌, ltb, ◌≡◌, refl, arith,
}
use rusty_db.Prelude.Int.{ℤ}
use rusty_db.Sql.Number.{Runtime, is_nan, float_is_zero, float_rank, float_partial_cmp, compare_ℤ}
use rusty_db.Sql.Types.{
  Text, Value, SqlTruth, ComparisonOp, compare_sql, compare_result, partial_cmp, compare_text,
}
use rusty_db.Table.Keys.{KeyPart, from_value, compare_part, compare_key_part, same_part, holds_for}
use rusty_db.Sql.Operators.{text_eq}
use rusty_db.Table.Keys.{text_eq_refl}
use rusty_db.Table.Scan.{reverse_comparison, is_range, is_equal}

-- The values are not an integer and a float, and not two zeros of different signs.
abbrev pub agrees : Value → Value → Bool
agrees (Value.integer a) (Value.float b) = false
agrees (Value.float a) (Value.integer b) = false
agrees (Value.float a) (Value.float b) =
    ltb a (2 ^ 64) && ltb b (2 ^ 64) && (a == b || not (float_is_zero a && float_is_zero b))
agrees _ _ = true

abbrev flip : Ordering → Ordering
flip Ordering.lt = Ordering.gt
flip Ordering.gt = Ordering.lt
flip Ordering.eq = Ordering.eq

compare-flip : (a b : ℕ) → compare b a ≡ flip (compare a b)
compare-flip a b = ground arith

compare_ℤ-flip : (a b : ℤ) → compare_ℤ b a ≡ flip (compare_ℤ a b)
compare_ℤ-flip a b = ground arith

compare_text-flip : (s t : Text) → compare_text t s ≡ flip (compare_text s t)
unfolding compare_text
compare_text-flip [] [] = refl
compare_text-flip [] (d ∷ t) = refl
compare_text-flip (c ∷ s) [] = refl
compare_text-flip (c ∷ s) (d ∷ t) = ground (arith, compare_text-flip s t)

compare_part-flip : (a b : KeyPart) → compare_part b a ≡ flip (compare_part a b)
unfolding compare_part
compare_part-flip (KeyPart.text s) (KeyPart.text t) = compare_text-flip s t
compare_part-flip a b = ground arith

-- The order of the turned bits is that of the numbers.
compare_float_parts :
    (a b : ℕ)
    → agrees (Value.float a) (Value.float b) ≡ true
    → is_nan a ≡ false
    → is_nan b ≡ false
    → compare_part (from_value (Value.float a)) (from_value (Value.float b))
      ≡ compare_ℤ (float_rank a) (float_rank b)
unfolding compare_part from_value
compare_float_parts a b h na nb = ground arith

partial_cmp-compare_part :
    (rt : Runtime) (a b : Value) {o : Ordering}
    → agrees a b ≡ true
    → partial_cmp rt a b ≡ some o
    → compare_part (from_value a) (from_value b) ≡ o
unfolding partial_cmp compare_part from_value
partial_cmp-compare_part rt (Value.float a) (Value.float b) h e = elim (Bool-cases (is_nan a)) [
  | inl na ↦ absurd (unfold float_partial_cmp in ground arith)
  | inr na ↦ elim (Bool-cases (is_nan b)) [
    | inl nb ↦ absurd (unfold float_partial_cmp in ground arith)
    | inr nb ↦ compare_float_parts a b h na nb ∙ (unfold float_partial_cmp in ground arith)
  ]
]
partial_cmp-compare_part rt a b h e = ground arith

-- A comparison that SQL finds true holds of the key parts.
pub compare_sql-compare_key_part :
    (rt : Runtime) (a b : Value) (operator : ComparisonOp)
    → (is_equal operator || is_range operator) ≡ true
    → agrees a b ≡ true
    → compare_sql rt a b operator ≡ SqlTruth.true
    → compare_key_part (from_value a) (from_value b) operator ≡ true
unfolding compare_sql compare_result compare_key_part holds_for
compare_sql-compare_key_part rt a b operator i h e = elim (Option-cases (partial_cmp rt a b)) [
  | inl none_found ↦ ground arith
  | inr (o, found) ↦ ground (arith, partial_cmp-compare_part rt a b h found)
]

pub compare_key_part-reverse :
    (a b : KeyPart) (operator : ComparisonOp)
    → compare_key_part a b operator ≡ true
    → compare_key_part b a (reverse_comparison operator) ≡ true
unfolding compare_key_part holds_for reverse_comparison
compare_key_part-reverse a b operator e = ground (arith, compare_part-flip a b)

compare_text-eq : (s t : Text) → compare_text s t ≡ Ordering.eq → s ≡ t
unfolding compare_text
compare_text-eq [] [] h = refl
compare_text-eq [] (d ∷ t) h = cc
compare_text-eq (c ∷ s) [] h = cc
compare_text-eq (c ∷ s) (d ∷ t) h = ground (arith, compare_text-eq s t)

pub compare_key_part-same_part :
    (a b : KeyPart) → compare_key_part a b ComparisonOp.equal ≡ true → same_part a b ≡ true
unfolding compare_key_part holds_for compare_part same_part
compare_key_part-same_part (KeyPart.text s) (KeyPart.text t) h =
    subst (λ u. text_eq s u ≡ true) (compare_text-eq s t (ground arith)) (text_eq_refl s)
compare_key_part-same_part a b h = ground arith
