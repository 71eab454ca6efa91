-- ===== src/Select/Join/Equivalence.antt =====
-- src/sql/executor.rs: `join_relations` with a hash table and without one.
use rusty_db.Prelude.{
  subst, ℕ, Bool, true, Option, none, some, List, [], ◌∷◌, ◌++◌, map, All, length, get_elem?, ok,
  bind-ok, ok_injective, ◌≡◌, refl, sym, ap, ◌∙◌, arith,
}
use rusty_db.Sql.Number.{Runtime}
use rusty_db.Sql.Types.{Value}
use rusty_db.Sql.Expr.{Expr, Query, JoinType, some_expr}
use rusty_db.Sql.Operators.{BoundColumn, Relation, Evaluated}
use rusty_db.Table.Store.{Row}
use rusty_db.Select.Join.{
  join_by, or_panic, Matches, join_rows, join_with, pair_matches, meets_by_condition, nested_join,
  hash_join_indices, value_at, column_values, keys_meet, meets_by_key, hash_join, join_relations,
}
use rusty_db.Select.Join.Keys.{join_agrees}
use rusty_db.Select.Join.Hash.{pair_matches-keys_meet}

or_panic-ok : (o : Option Value) {v : Value} → or_panic o ≡ ok v → o ≡ some v
or_panic-ok none h = ground arith
or_panic-ok (some w) h = ground arith

value_at-ok : (i : ℕ) (row : Row) {v : Value} → value_at i row ≡ ok v → get_elem? row i ≡ some v
value_at-ok i row h = or_panic-ok (get_elem? row i) h

module _ (rt : Runtime) (run : Query → Evaluated Relation) (e : Expr)
    (left right : List BoundColumn) (i j : ℕ)
    (chosen : hash_join_indices e left right ≡ some (i, j)) where
  meets_by_condition-map :
      (l : Row) (v : Value) (rows : List Row) (ws : List Value) (flags : List Bool)
      → length l ≡ length left
      → get_elem? l i ≡ some v
      → column_values j rows ≡ ok ws
      → All (λ w. join_agrees rt v w ≡ true) ws
      → meets_by_condition rt run (left ++ right) (some_expr e) rows l ≡ ok flags
      → map (keys_meet rt v) ws ≡ flags
  unfolding column_values meets_by_condition
  meets_by_condition-map l v [] ws flags width there values agree h =
      ap (map (keys_meet rt v)) (sym (ok_injective _ _ _ refl values)) ∙ ok_injective _ _ _ refl h
  meets_by_condition-map l v (r ∷ rows) ws flags width there values agree h =
      let (w, w_there, values₁) = bind-ok (value_at j r) _ ws values in
      let (rest, values₂, values₃) = bind-ok (column_values j rows) _ ws values₁ in
      let ws-eq : w ∷ rest ≡ ws = ok_injective _ _ _ refl values₃ in
      let agrees = subst (All (λ w. join_agrees rt v w ≡ true)) (sym ws-eq) agree in
      let (flag, matched, h₁) =
        bind-ok (pair_matches rt run (left ++ right) (some_expr e) (l ++ r)) _ flags h in
      let (others, later, h₂) =
        bind-ok (meets_by_condition rt run (left ++ right) (some_expr e) rows l) _ flags h₁ in
      ap (map (keys_meet rt v)) (sym ws-eq)
      ∙ ap (λ b. b ∷ map (keys_meet rt v) rest)
          (pair_matches-keys_meet rt run left right l r width i j v w there
            (value_at-ok j r w_there) agrees.0 e flag chosen matched)
      ∙ ap (λ bs. flag ∷ bs)
          (meets_by_condition-map l v rows rest others width there values₂ agrees.1 later)
      ∙ ok_injective _ _ _ refl h₂

  join_rows-by_key :
      (kind : JoinType) (width : ℕ) (right_rows : List Row) (ws : List Value) (rows : List Row)
      (vs : List Value) (out : Matches)
      → column_values j right_rows ≡ ok ws
      → column_values i rows ≡ ok vs
      → All (λ l. length l ≡ length left) rows
      → All (λ v. All (λ w. join_agrees rt v w ≡ true) ws) vs
      → join_rows kind width right_rows
          (meets_by_condition rt run (left ++ right) (some_expr e) right_rows)
          rows
        ≡ ok out
      → join_rows kind width right_rows (meets_by_key rt i ws) rows ≡ ok out
  unfolding join_rows meets_by_key column_values
  join_rows-by_key kind width right_rows ws [] vs out right_values left_values widths agree h = h
  join_rows-by_key kind width right_rows ws (l ∷ rows) vs out right_values left_values widths agree
        h =
      let (v, v_there, values₁) = bind-ok (value_at i l) _ vs left_values in
      let (rest, values₂, values₃) = bind-ok (column_values i rows) _ vs values₁ in
      let agrees =
        subst (All (λ v. All (λ w. join_agrees rt v w ≡ true) ws))
          (sym (ok_injective _ _ _ refl values₃)) agree in
      let (flags, met, h₁) =
        bind-ok (meets_by_condition rt run (left ++ right) (some_expr e) right_rows l) _ out h in
      let (joined, later, h₂) =
        bind-ok
          (join_rows kind width right_rows
            (meets_by_condition rt run (left ++ right) (some_expr e) right_rows) rows)
          _ out h₁ in
      let same_flags =
        meets_by_condition-map l v right_rows ws flags widths.0 (value_at-ok i l v_there)
          right_values agrees.0 met in
      rw
        (
          v_there,
          same_flags,
          join_rows-by_key kind width right_rows ws rows rest joined right_values values₂ widths.1
              agrees.1 later,
        )
        h₂

-- When a join condition is an equation of a column of each side, both sides have a value in the
-- column in each of their rows, the rows on the left are as wide as their columns, no zero meets
-- a zero of the other sign where one of the two keys is a float, floats are of 64 bits, and the
-- loop over all pairs of rows with the condition has a result: the join with the hash table has
-- the same result, with the same rows in the same order.
pub join_relations-nested_join :
    (rt : Runtime) (run : Query → Evaluated Relation) (kind : JoinType) (e : Expr)
    (left right : Relation) (i j : ℕ) (vs ws : List Value) (out : Relation)
    → hash_join_indices e left.columns right.columns ≡ some (i, j)
    → column_values i left.rows ≡ ok vs
    → column_values j right.rows ≡ ok ws
    → All (λ l. length l ≡ length left.columns) left.rows
    → All (λ v. All (λ w. join_agrees rt v w ≡ true) ws) vs
    → nested_join rt run kind left right (some_expr e) ≡ ok out
    → join_relations rt run kind (some_expr e) left right ≡ ok out
unfolding join_relations join_by nested_join hash_join join_with
join_relations-nested_join rt run kind e left right i j vs ws out chosen left_values right_values
      widths agree h =
    let (matches, looped, made) =
      bind-ok
        (join_rows kind (length right.columns) right.rows
          (meets_by_condition rt run (left.columns ++ right.columns) (some_expr e) right.rows)
          left.rows)
        _ out h in
    rw
      (
        chosen,
        right_values,
        join_rows-by_key rt run e left.columns right.columns i j chosen kind (length right.columns)
            right.rows ws left.rows vs matches right_values left_values widths agree looped,
      )
      made
