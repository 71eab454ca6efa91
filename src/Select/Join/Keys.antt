-- ===== src/Select/Join/Keys.antt =====
-- src/sql/executor.rs: when two values that SQL finds equal have the same key in a hash join.
use Prim.Native.Nat.{Ordering}
use rusty_db.Prelude.{
  ℕ, ◌^◌, Bool, true, ◌||◌, ◌&&◌, not, some, [], ◌∷◌, ◌==◌, ltb, ◌≡◌, refl, arith, Option-cases,
  inl, inr, subst,
}
use rusty_db.Prelude.Int.{ℤ}
use rusty_db.Sql.Number.{Runtime, float_is_zero, float_partial_cmp, compare_ℤ}
use rusty_db.Sql.Types.{
  Text, Value, ComparisonOp, compare_sql, compare_result, partial_cmp, compare_text,
}
use rusty_db.Sql.Operators.{same_join_key, same_value_key, text_eq}
use rusty_db.Table.Scan.{is_true}
use rusty_db.Select.Join.{keys_meet}

-- Two floats are not two zeros of different signs.
abbrev pub same_zero : ℕ → ℕ → Bool
same_zero a b =
    ltb a (2 ^ 64) && ltb b (2 ^ 64) && (a == b || not (float_is_zero a && float_is_zero b))

-- Numbers of which one is a float, compared as floats.
abbrev pub join_agrees : Runtime → Value → Value → Bool
join_agrees rt (Value.integer a) (Value.float b) = same_zero (rt.float_of_int a) b
join_agrees rt (Value.float a) (Value.integer b) = same_zero a (rt.float_of_int b)
join_agrees rt (Value.float a) (Value.float b) = same_zero a b
join_agrees rt _ _ = true

float_eq :
    (a b : ℕ) → same_zero a b ≡ true → float_partial_cmp a b ≡ some Ordering.eq → (a == b) ≡ true
unfolding float_partial_cmp
float_eq a b h e = ground arith

integer_eq : (a b : ℤ) → compare_ℤ a b ≡ Ordering.eq → a ≡ b
integer_eq a b e = ground arith

text_eq-compare_text : (s t : Text) → compare_text s t ≡ Ordering.eq → text_eq s t ≡ true
unfolding compare_text text_eq
text_eq-compare_text [] [] h = refl
text_eq-compare_text [] (d ∷ t) h = cc
text_eq-compare_text (c ∷ s) [] h = cc
text_eq-compare_text (c ∷ s) (d ∷ t) h = ground (arith, text_eq-compare_text s t)

-- Equal values have the same key.
same_join_key-partial_cmp :
    (rt : Runtime) (v w : Value)
    → join_agrees rt v w ≡ true
    → partial_cmp rt v w ≡ some Ordering.eq
    → same_join_key rt v w ≡ true
unfolding partial_cmp same_join_key same_value_key
same_join_key-partial_cmp rt (Value.text s) (Value.text t) h e =
    text_eq-compare_text s t (ground arith)
same_join_key-partial_cmp rt (Value.float a) (Value.float b) h e = float_eq a b h e
same_join_key-partial_cmp rt (Value.integer a) (Value.float b) h e =
    float_eq (rt.float_of_int a) b h e
same_join_key-partial_cmp rt (Value.float a) (Value.integer b) h e =
    float_eq a (rt.float_of_int b) h e
same_join_key-partial_cmp rt (Value.integer a) (Value.integer b) h e =
    subst (λ n. (rt.float_of_int a == rt.float_of_int n) ≡ true) (integer_eq a b (ground arith))
      (ground arith)
same_join_key-partial_cmp rt v w h e = ground arith

pub keys_meet-compare_sql :
    (rt : Runtime) (v w : Value)
    → join_agrees rt v w ≡ true
    → keys_meet rt v w ≡ is_true (compare_sql rt v w ComparisonOp.equal)
unfolding keys_meet compare_sql compare_result
keys_meet-compare_sql rt v w h = elim (Option-cases (partial_cmp rt v w)) [
  | inl e ↦ ground arith
  | inr (o, e) ↦ ground (arith, same_join_key-partial_cmp rt v w h)
]

float_partial_cmp-eq_symm :
    (a b : ℕ) → float_partial_cmp a b ≡ some Ordering.eq → float_partial_cmp b a ≡ some Ordering.eq
unfolding float_partial_cmp
float_partial_cmp-eq_symm a b h = ground arith

compare_text-eq_symm :
    (s t : Text) → compare_text s t ≡ Ordering.eq → compare_text t s ≡ Ordering.eq
unfolding compare_text
compare_text-eq_symm [] [] h = refl
compare_text-eq_symm [] (d ∷ t) h = cc
compare_text-eq_symm (c ∷ s) [] h = cc
compare_text-eq_symm (c ∷ s) (d ∷ t) h = ground (arith, compare_text-eq_symm s t)

partial_cmp-eq_symm :
    (rt : Runtime) (v w : Value)
    → partial_cmp rt v w ≡ some Ordering.eq
    → partial_cmp rt w v ≡ some Ordering.eq
unfolding partial_cmp
partial_cmp-eq_symm rt (Value.text s) (Value.text t) h = ground (arith, compare_text-eq_symm s t)
partial_cmp-eq_symm rt (Value.float a) (Value.float b) h = float_partial_cmp-eq_symm a b h
partial_cmp-eq_symm rt (Value.integer a) (Value.float b) h =
    float_partial_cmp-eq_symm (rt.float_of_int a) b h
partial_cmp-eq_symm rt (Value.float a) (Value.integer b) h =
    float_partial_cmp-eq_symm a (rt.float_of_int b) h
partial_cmp-eq_symm rt v w h = ground arith

pub compare_sql-equal_symm :
    (rt : Runtime) (v w : Value)
    → is_true (compare_sql rt v w ComparisonOp.equal)
      ≡ is_true (compare_sql rt w v ComparisonOp.equal)
unfolding compare_sql compare_result
compare_sql-equal_symm rt v w =
    ground (arith, partial_cmp-eq_symm rt v w, partial_cmp-eq_symm rt w v)
