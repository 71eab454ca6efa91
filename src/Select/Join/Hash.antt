-- ===== src/Select/Join/Hash.antt =====
-- src/sql/executor.rs: the hash join gives what the loop over all pairs of rows gives.
use rusty_db.Prelude.{
  ℕ, zero, suc, ◌+◌, Bool, true, Option, none, some, List, [], ◌∷◌, ◌++◌, map, length, get_elem?,
  ok, err, bind-ok, ok_injective, ◌≡◌, refl, sym, ap, ◌∙◌, arith, ◌⊎◌, inl, inr,
}
use rusty_db.Sql.Number.{Runtime}
use rusty_db.Sql.Types.{Text, Value, SqlTruth, ComparisonOp, compare_sql, truth, truth_value}
use rusty_db.Sql.Expr.{Expr, Query, BinaryOp, binary, column, some_expr}
use rusty_db.Sql.Operators.{
  BoundColumn, Relation, Evaluated, resolve_column, matching, the_match, or_unavailable,
  eval_binary, eval_operator,
}
use rusty_db.Sql.Eval.{eval_expr}
use rusty_db.Table.Store.{Row}
use rusty_db.Table.Scan.{is_true}
use rusty_db.Table.Indexed.{some_injective}
use rusty_db.Select.Join.{pair_matches, both_ok, or_else, hash_join_indices, keys_meet}
use rusty_db.Select.Join.Keys.{join_agrees, keys_meet-compare_sql, compare_sql-equal_symm}

matching-append :
    (q : Option Text) (n : Text) (i : ℕ) (xs ys : List BoundColumn)
    → matching q n i (xs ++ ys) ≡ matching q n i xs ++ matching q n (i + length xs) ys
unfolding matching
matching-append q n i [] ys = let e : i ≡ i + 0 = omega arith in ap (λ k. matching q n k ys) e
matching-append q n i (x ∷ xs) ys =
    let e : suc i + length xs ≡ i + suc (length xs) = omega arith in
    ground (arith, matching-append q n (suc i) xs ys, ap (λ k. matching q n k ys) e)

matching-shift :
    (q : Option Text) (n : Text) (i k : ℕ) (xs : List BoundColumn)
    → matching q n (i + k) xs ≡ map (λ j. j + k) (matching q n i xs)
unfolding matching
matching-shift q n i k [] = refl
matching-shift q n i k (x ∷ xs) = ground (arith, matching-shift q n (suc i) k xs)

the_match-ok :
    (q : Option Text) (n : Text) (found : List ℕ) {i : ℕ}
    → the_match q n found ≡ ok i
    → found ≡ i ∷ []
unfolding the_match
the_match-ok q n [] h = ground arith
the_match-ok q n (j ∷ []) h = ground arith
the_match-ok q n (j ∷ k ∷ more) h = ground arith

only_left : (i a : ℕ) (others : List ℕ) → (i ∷ []) ++ others ≡ a ∷ [] → a ≡ i
only_left i a others h = ground arith

only_right : (j a : ℕ) (others : List ℕ) → others ++ (j ∷ []) ≡ a ∷ [] → a ≡ j
only_right j a [] h = ground arith
only_right j a (x ∷ []) h = absurd (ground arith)
only_right j a (x ∷ y ∷ others) h = absurd (ground arith)

-- A column that resolves on one side and on both sides together is the same column.
resolve-left :
    (q : Option Text) (n : Text) (left right : List BoundColumn) (i a : ℕ)
    → resolve_column left q n ≡ ok i
    → resolve_column (left ++ right) q n ≡ ok a
    → a ≡ i
unfolding resolve_column
resolve-left q n left right i a hi ha =
    let at_left = the_match-ok q n (matching q n 0 left) hi in
    let together = the_match-ok q n (matching q n 0 (left ++ right)) ha in
    only_left i a (matching q n (0 + length left) right) (
      ap (λ found. found ++ matching q n (0 + length left) right) (sym at_left)
      ∙ sym (matching-append q n 0 left right)
      ∙ together)

resolve-right :
    (q : Option Text) (n : Text) (left right : List BoundColumn) (j a : ℕ)
    → resolve_column right q n ≡ ok j
    → resolve_column (left ++ right) q n ≡ ok a
    → a ≡ j + length left
unfolding resolve_column
resolve-right q n left right j a hj ha =
    let at_right =
      matching-shift q n 0 (length left) right
      ∙ ap (map (λ k. k + length left)) (the_match-ok q n (matching q n 0 right) hj) in
    let together = the_match-ok q n (matching q n 0 (left ++ right)) ha in
    only_right (j + length left) a (matching q n 0 left) (
      ap (λ found. matching q n 0 left ++ found) (sym at_right)
      ∙ sym (matching-append q n 0 left right)
      ∙ together)

get_elem?-append_left :
    (l r : Row) (i : ℕ) {v : Value} → get_elem? l i ≡ some v → get_elem? (l ++ r) i ≡ some v
get_elem?-append_left [] r i h = absurd (cc h)
get_elem?-append_left (v ∷ l) r zero h = h
get_elem?-append_left (v ∷ l) r (suc i) h = get_elem?-append_left l r i h

get_elem?-append_right : (l r : Row) (j : ℕ) → get_elem? (l ++ r) (j + length l) ≡ get_elem? r j
get_elem?-append_right [] r j = let e : j + 0 ≡ j = omega arith in ap (get_elem? r) e
get_elem?-append_right (v ∷ l) r j =
    let e : j + suc (length l) ≡ suc (j + length l) = omega arith in
    ap (get_elem? (v ∷ (l ++ r))) e ∙ get_elem?-append_right l r j

or_unavailable-ok :
    (n : Text) (o : Option Value) {a : Value} → or_unavailable n o ≡ ok a → o ≡ some a
or_unavailable-ok n none h = ground arith
or_unavailable-ok n (some b) h = ground arith

flag_of :
    (c : SqlTruth) {u : Value} {flag : Bool}
    → ◌≡◌ {A = Evaluated Value} (ok (truth_value c)) (ok u)
    → ◌≡◌ {A = Evaluated Bool} (ok (is_true (truth u))) (ok flag)
    → flag ≡ is_true c
unfolding truth truth_value
flag_of c {u} h k =
    sym (ok_injective _ _ _ refl k)
    ∙ ap (λ x. is_true (truth x)) (sym (ok_injective _ _ _ refl h))
    ∙ ground arith

module _ (rt : Runtime) (run : Query → Evaluated Relation) (columns : List BoundColumn)
    (row : Row) where
  abbrev value_in : Expr → Evaluated Value
  value_in e = eval_expr rt run columns row none e

  column-value :
      (q : Option Text) (n : Text) {v : Value}
      → value_in (column q n) ≡ ok v
      → (a : ℕ) × (resolve_column columns q n ≡ ok a) × (get_elem? row a ≡ some v)
  unfolding eval_expr
  column-value q n {v} h =
      let (a, found, there) = bind-ok (resolve_column columns q n) _ v h in
      (a, found, or_unavailable-ok n (get_elem? row a) there)

  -- The condition on a pair of rows is the comparison of the two values.
  pair_matches-column :
      (q r : Option Text) (n m : Text) (flag : Bool)
      → pair_matches rt run columns
          (some_expr (binary (column q n) (BinaryOp.compare ComparisonOp.equal) (column r m)))
          row
        ≡ ok flag
      → (a : ℕ) × (b : ℕ) × (v : Value) × (w : Value) × (resolve_column columns q n ≡ ok a)
        × (get_elem? row a ≡ some v)
        × (resolve_column columns r m ≡ ok b)
        × (get_elem? row b ≡ some w)
        × (flag ≡ is_true (compare_sql rt v w ComparisonOp.equal))
  unfolding pair_matches eval_expr eval_binary eval_operator
  pair_matches-column q r n m flag h =
      let (u, hu, h₁) =
        bind-ok (value_in (binary (column q n) (BinaryOp.compare ComparisonOp.equal) (column r m)))
          _ flag h in
      let (v, hv, h₂) = bind-ok (value_in (column q n)) _ u hu in
      let (w, hw, h₃) = bind-ok (value_in (column r m)) _ u h₂ in
      let (a, at_a, there_a) = column-value q n hv in
      let (b, at_b, there_b) = column-value r m hw in
      (
        a,
        b,
        v,
        w,
        at_a,
        there_a,
        at_b,
        there_b,
        flag_of (compare_sql rt v w ComparisonOp.equal) h₃ h₁,
      )

-- What the choice of a hash join says of the condition.
hash_join_indices-some :
    (e : Expr) (left right : List BoundColumn) (i j : ℕ)
    → hash_join_indices e left right ≡ some (i, j)
    → (q : Option Text) × (n : Text) × (r : Option Text) × (m : Text) × (e
        ≡ binary (column q n) (BinaryOp.compare ComparisonOp.equal) (column r m))
      × (or_else
            (both_ok (resolve_column left q n) (resolve_column right r m))
            (both_ok (resolve_column left r m) (resolve_column right q n))
          ≡ some (i, j))
unfolding hash_join_indices
hash_join_indices-some (binary (column q n) (BinaryOp.compare ComparisonOp.equal) (column r m)) left
      right i j h =
    (q, n, r, m, refl, h)
hash_join_indices-some e left right i j h = absurd (cc h)

both_ok-some : (a b : Evaluated ℕ) {i j : ℕ} → both_ok a b ≡ some (i, j) → (a ≡ ok i) × (b ≡ ok j)
both_ok-some (ok a) (ok b) h = ground arith
both_ok-some (ok a) (err e) h = absurd (cc h)
both_ok-some (err e) b h = absurd (cc h)

or_else-some :
    (a b : Option (ℕ × ℕ)) {p : ℕ × ℕ} → or_else a b ≡ some p → (a ≡ some p) ⊎ (b ≡ some p)
or_else-some none b h = inr h
or_else-some (some a) b h = inl h

module _ (rt : Runtime) (run : Query → Evaluated Relation) (left right : List BoundColumn)
    (l r : Row) (width : length l ≡ length left) (i j : ℕ) (v w : Value)
    (v_there : get_elem? l i ≡ some v) (w_there : get_elem? r j ≡ some w)
    (agree : join_agrees rt v w ≡ true) where
  value_left :
      (q : Option Text) (n : Text) (a : ℕ) (x : Value)
      → resolve_column left q n ≡ ok i
      → resolve_column (left ++ right) q n ≡ ok a
      → get_elem? (l ++ r) a ≡ some x
      → x ≡ v
  value_left q n a x here together there = some_injective (
      sym there
      ∙ ap (get_elem? (l ++ r)) (resolve-left q n left right i a here together)
      ∙ get_elem?-append_left l r i v_there)

  value_right :
      (q : Option Text) (n : Text) (b : ℕ) (x : Value)
      → resolve_column right q n ≡ ok j
      → resolve_column (left ++ right) q n ≡ ok b
      → get_elem? (l ++ r) b ≡ some x
      → x ≡ w
  value_right q n b x here together there = some_injective (
      sym there
      ∙ ap (get_elem? (l ++ r))
          (resolve-right q n left right j b here together ∙ ap (λ k. j + k) (sym width))
      ∙ get_elem?-append_right l r j
      ∙ w_there)

  -- The condition holds of the pair exactly when the keys meet.
  pub pair_matches-keys_meet :
      (e : Expr) (flag : Bool)
      → hash_join_indices e left right ≡ some (i, j)
      → pair_matches rt run (left ++ right) (some_expr e) (l ++ r) ≡ ok flag
      → keys_meet rt v w ≡ flag
  pair_matches-keys_meet e flag chosen h =
      let (q, n, p, m, e-eq, found) = hash_join_indices-some e left right i j chosen in
      let (a, b, x, y, at_a, there_a, at_b, there_b, flag-eq) =
        pair_matches-column rt run (left ++ right) (l ++ r) q p n m flag
          (ap (λ c. pair_matches rt run (left ++ right) (some_expr c) (l ++ r)) (sym e-eq) ∙ h) in
      elim (or_else-some (both_ok (resolve_column left q n) (resolve_column right p m)) _ found) [
        | inl straight ↦
            let (li, rj) =
              both_ok-some (resolve_column left q n) (resolve_column right p m) straight in
            keys_meet-compare_sql rt v w agree
            ∙ ap (λ t. is_true (compare_sql rt t w ComparisonOp.equal))
                (sym (value_left q n a x li at_a there_a))
            ∙ ap (λ t. is_true (compare_sql rt x t ComparisonOp.equal))
                (sym (value_right p m b y rj at_b there_b))
            ∙ sym flag-eq
        | inr turned ↦
            let (li, rj) =
              both_ok-some (resolve_column left p m) (resolve_column right q n) turned in
            keys_meet-compare_sql rt v w agree
            ∙ compare_sql-equal_symm rt v w
            ∙ ap (λ t. is_true (compare_sql rt t v ComparisonOp.equal))
                (sym (value_right q n a x rj at_a there_a))
            ∙ ap (λ t. is_true (compare_sql rt x t ComparisonOp.equal))
                (sym (value_left p m b y li at_b there_b))
            ∙ sym flag-eq
      ]
